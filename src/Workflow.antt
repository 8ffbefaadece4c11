-- ===== src/Workflow.antt =====
-- src/shyam/workflow: the sequential execution of workflow steps.
pub mod State
pub mod Models
pub mod Executors
pub mod Engine
pub mod Loop
pub mod Steps
pub mod Course
pub mod Outcome
pub mod Results
pub mod Courses
pub mod FailFast
pub mod Terminal
pub mod Tests
