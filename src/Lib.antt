-- ===== src/Lib.antt =====
-- Shyam: a model of the local-first ecosystem runtime of this repository, and what is proved of it.
--
-- The program. A Shyam node keeps a snapshot of the nodes, providers and capabilities of its
-- ecosystem. The navigator (src/shyam/navigation) chooses where a capability runs. The workflow
-- engine (src/shyam/workflow) asks the navigator for each step, calls the executor of the chosen
-- provider and publishes events. The trust service (src/shyam/trust) keeps which nodes are trusted,
-- and the sync service (src/shyam/sync) merges facts from signed envelopes of trusted nodes only. The
-- continuity service (src/shyam/continuity) moves a work to another node: it asks the navigator for a
-- target and the trust service about it, and then Flux and Zarya there.
--
-- The files.
--   Base           shared names: tests and decisions on texts and options, native lengths, Python
--                  dicts as association lists (Base/Dict), the order on texts (Base/Text).
--   Values         Python values of type Any.
--   Capabilities   src/shyam/capabilities: the models, and Registry (CapabilityRegistry), generic in what
--                  is registered.
--   Providers      src/shyam/providers: the model, Registry (ProviderRegistry) and Fabric
--                  (LocalProviderFabric).
--   Discovery      src/shyam/discovery: Models (ecosystem_models.py) and Registry (EcosystemRegistry of
--                  ecosystem_registry.py, a method takes the registry and gives the new one, its result
--                  and its events); History has sequences of calls. Service and Peers are
--                  EcosystemDiscoveryService (ecosystem_service.py), Sources what it reads.
--   Navigation     src/shyam/navigation: Candidates is CandidateDiscoverer, Policy is
--                  NavigationPolicyEvaluator.evaluate (Policy/Eligibility its filter, Policy/Ranking its
--                  sorting key and `sorted`), Navigator is HybridNavigator.navigate. The other modules
--                  of the folder hold proofs.
--   Trust          src/shyam/trust: Models, Store (the file, with reads and writes that can fail), Json
--                  (the text that save writes and what load reads of it) and Service (TrustService; a
--                  method takes the state and returns the new one).
--   Sync           src/shyam/sync: Versions (compare_versions, merge_version_maps), Authenticator, Service
--                  (the state and outgoing envelopes) and Ingest (process_incoming_envelope).
--   Workflow       src/shyam/workflow: State (the transition tables), Models, Executors (the registry),
--                  Engine (one step) and Loop (WorkflowEngine.run). Steps and Course tell what a step
--                  and a run are to do, from one state of the run to the next.
--   Continuity     src/shyam/continuity: State (the transition table), Models, Stages and Pipeline (the
--                  stages and _run_pipeline), Service (request_continuity). Guard tells which attempts
--                  are under way.
--   Context        src/shyam/context: Models, Store (EcosystemStateStore) and Service (which events reach
--                  the store). Mirror is about the events of the registry, Runs and Targets about those
--                  of a workflow, Activity about both.
--   Identity       src/shyam/identity/model.py.
--   Bootstrap      src/shyam/bootstrap: Models (with the table of transitions), Authority
--                  (handle_incoming_request) and Client (execute_client_bootstrap, recover_device).
--   Core           src/shyam/core: Models and Readiness (ReadinessTracker), Lifecycle (lifecycle.py and
--                  state.py).
--   Events         src/shyam/events: Bus (EventBus, EventEnvelope). Calls says what a history of calls
--                  means to a handler.
--   Composite      src/shyam/composite: Models (with validate_step_references), Bindings and Engine
--                  (CompositeEngine.invoke over the engine of Workflow).
-- Each folder has a module Tests with concrete instances.
--
-- How they interact. The authenticator of Sync reads the state of Trust. The environment of Workflow
-- holds the navigator as a function of a request, with the models of Navigation as its data. Continuity
-- calls navigate of Navigation on a snapshot, and reads the records of Trust through its Environment.
-- Discovery/Service reads the registries of Capabilities and Providers, and Core registers in them what
-- becomes ready. Context handles the events that Discovery/Registry and Workflow publish, and takes snapshots of the
-- registry. Bootstrap grants trust through the methods of Trust, and Sync reads what it granted. The
-- handlers of an event are taken to be done before the next call of the registry.
--
-- Conventions. A method that holds a lock is one step from a state to a state. Exceptions are values.
-- A clock reading and a fresh message id are arguments. A set of texts is a list without repetitions.
-- Iteration over a set is in the order of that list. Counters and
-- times are natural numbers without a bound, as in Python. Texts are ordered by their code points.
-- All loops are structural, so nothing runs on fuel.
--
-- Parameters. What is not in the repository is an argument: canonical bytes and Ed25519 are the record
-- Crypto of Sync/Authenticator and the record Signing of Bootstrap/Authority; no law is assumed of
-- them, but that signatures of one key pair verify in bootstrap-mutual. The navigator call, the executors and
-- the subscribers of the event bus are the record Environment of Workflow/Engine; each may raise (the
-- bus may not, since it catches what its handlers raise) and each may cancel the token. The snapshot, the
-- trust service, Flux and Zarya are the record Environment of Continuity/Stages. The JSON library and
-- pydantic's texts of times are the record Json of Trust/Json, with the laws IsJson of Trust/Restart:
-- a dict that is written is read again with the same keys, texts and nulls, the text of a time is
-- read as that time, and empty metadata stays empty.
--
-- In Continuity a session runs through its stages without another request in between, and a metadata value
-- of a target that is no dict is a text.
--
-- Not modelled: the validators of the pydantic models, timestamps that no code reads, logging, the
-- file system beyond success and failure, network discovery, the HTTP providers, key files,
-- the calls of the composite registry but its lookup, start and stop of the runtime, the interfaces for people.
-- In Workflow, the call of validate_workflow_transition from PENDING to RUNNING is left out of `run`:
-- its arguments are constants that the table allows.
pub mod Base
pub mod Values
pub mod Capabilities
pub mod Discovery
pub mod Navigation
pub mod Trust
pub mod Sync
pub mod Workflow
pub mod Continuity
pub mod Context
pub mod Identity
pub mod Bootstrap
pub mod Providers
pub mod Core
pub mod Events
pub mod Composite
