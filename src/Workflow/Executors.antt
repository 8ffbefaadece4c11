-- ===== src/Workflow/Executors.antt =====
-- src/shyam/workflow/executor.py: the registry from a provider id to its adapter.
use shyam.Base.{String, Bool, true, false, Option, none, some}
use shyam.Base.Dict
use shyam.Base.Dict.{Dict}

module _ {E : Type 0} where
  unfoldable pub register : String → E → Dict E → Dict E
  register provider_id executor executors = Dict.put provider_id executor executors

  unfoldable pub unregister : String → Dict E → Dict E × Option E
  unregister provider_id executors =
      (Dict.pop provider_id executors, Dict.get provider_id executors)

  -- `get`; where it is `none` the code raises `ExecutorNotFoundError`.
  unfoldable pub executor_for : String → Dict E → Option E
  executor_for provider_id executors = Dict.get provider_id executors

  unfoldable pub contains : String → Dict E → Bool
  contains provider_id executors = elim (Dict.get provider_id executors) [
    | none ↦ false
    | some _ ↦ true
  ]
