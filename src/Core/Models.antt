-- ===== src/Core/Models.antt =====
-- src/shyam/core/readiness.py: its models, and the state of the tracker. The two sovereign components are
-- read through `Probe`: what one poll of a provider finds.
use shyam.Base.{ℕ, String, Bool, Option, none, List}
use shyam.Base.Dict.{Dict}
use shyam.Capabilities.{AvailabilityStatus, Capability}
use shyam.Capabilities.Registry.{CapabilityRegistry}
use shyam.Providers.{Provider}
use shyam.Providers.Registry.{ProviderRegistry}

pub data ComponentState : Type 0 where
  unknown starting ready degraded unavailable failed : ComponentState

unfoldable pub component_discrete : Discrete ComponentState
component_discrete = hlevel

pub data EcosystemReadiness : Type 0 where
  starting ready degraded unavailable : EcosystemReadiness

unfoldable pub readiness_discrete : Discrete EcosystemReadiness
readiness_discrete = hlevel

pub record ComponentSnapshot : Type 0 where
  pub component : String
  pub state : ComponentState
  pub last_checked_at : ℕ
  pub error : Option String
  pub peer_id : Option String

-- `ComponentReadinessSnapshot(component=…, state=…, last_checked_at=…)`
abbrev pub observed : String → ComponentState → ℕ → ComponentSnapshot
observed component state now = record {
  component = component;
  state = state;
  last_checked_at = now;
  error = none;
  peer_id = none;
}

pub data ReadinessEvent : Type 0 where
  component_changed : String → ComponentState → ComponentState → Option String → ReadinessEvent
  ecosystem_changed : EcosystemReadiness → EcosystemReadiness → Dict ComponentState → ReadinessEvent

-- A provider as the tracker uses it: whether it is connected, what `connect` or `refresh_status`
-- answers (`none` where it raises, with the text), its id as a peer, and what it registers.
pub data Call {ℓ} (A : Type ℓ) : Type ℓ where
  answered : A → Call A
  raised : String → Call A

pub record Probe : Type 0 where
  pub is_connected : Bool
  pub connect : Call Bool
  pub refresh_status : Call AvailabilityStatus
  pub peer_id : Option String
  pub descriptor : Provider
  pub capability_definitions : List Capability

pub record ReadinessTracker : Type 0 where
  pub zarya_enabled : Bool
  pub flux_enabled : Bool
  pub components : Dict ComponentSnapshot
  pub readiness : EcosystemReadiness
  pub providers : Option ProviderRegistry
  pub capabilities : Option CapabilityRegistry
  pub events : List ReadinessEvent
