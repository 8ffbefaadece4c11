-- ===== src/Core/Readiness.antt =====
-- src/shyam/core/readiness.py: the tracker. The lock makes each poll one step; a clock reading is an
-- argument.
use shyam.Base.{
  ℕ, String, Bool, true, false, Option, none, some, List, [], ◌∷◌, ◌++◌, map, ite, all, any,
  if◌then◌else◌, str_discrete,
}
use shyam.Base.Dict
use shyam.Base.Dict.{Dict}
use shyam.Capabilities.{AvailabilityStatus, Capability}
use shyam.Capabilities.Registry.{CapabilityRegistry, register_capability}
use shyam.Providers.Registry.{ProviderRegistry, register_provider}
use shyam.Core.Models.{
  ComponentState, component_discrete, EcosystemReadiness, readiness_discrete, ComponentSnapshot,
  observed, ReadinessEvent, component_changed, ecosystem_changed, Call, answered, raised, Probe,
  ReadinessTracker,
}

unfoldable pub is_ready : ReadinessTracker → Bool
unfolding readiness_discrete
is_ready t = ite (readiness_discrete t.readiness EcosystemReadiness.ready) true false

abbrev pub set_component : String → ComponentSnapshot → ReadinessTracker → ReadinessTracker
set_component name s t = record t { components = Dict.put name s t.components }

-- `ReadinessTracker(…)`
unfoldable pub new_tracker :
    Bool → Bool → Option ProviderRegistry → Option CapabilityRegistry → ℕ → ReadinessTracker
new_tracker zarya_enabled flux_enabled providers capabilities now =
    let flux =
      if flux_enabled then ("flux", observed "flux" ComponentState.starting now) ∷ [] else [] in
    let zarya =
      if zarya_enabled
      then ("zarya", observed "zarya" ComponentState.starting now) ∷ flux
      else flux in
    record {
      zarya_enabled = zarya_enabled;
      flux_enabled = flux_enabled;
      components = ("node", observed "node" ComponentState.starting now) ∷ zarya;
      readiness = EcosystemReadiness.starting;
      providers = providers;
      capabilities = capabilities;
      events = [];
    }

abbrev pub publish : ReadinessEvent → ReadinessTracker → ReadinessTracker
publish e t = record t { events = t.events ++ e ∷ [] }

abbrev pub state_or_unknown : Option ComponentSnapshot → ComponentState
state_or_unknown none = ComponentState.unknown
state_or_unknown (some s) = s.state

unfoldable pub state_of : String → ReadinessTracker → ComponentState
state_of name t = state_or_unknown (Dict.get name t.components)

-- The event of a change, and nothing where the state is the same.
unfoldable pub announce :
    String → ComponentState → ComponentState → Option String → ReadinessTracker → ReadinessTracker
unfolding component_discrete
announce name old new error t =
    ite (component_discrete old new) t (publish (component_changed name old new error) t)

-- The task that publishes the event is taken to run at once. Without the entry "node" the code
-- raises; it is there from the start.
unfoldable pub set_node_ready : ℕ → ReadinessTracker → ReadinessTracker
unfolding announce state_of
set_node_ready now t =
    announce "node" (state_of "node" t) ComponentState.ready none
      (set_component "node" (observed "node" ComponentState.ready now) t)

abbrev pub of_connect : Bool → ComponentState
of_connect true = ComponentState.ready
of_connect false = ComponentState.unavailable

abbrev pub of_status : AvailabilityStatus → ComponentState
of_status AvailabilityStatus.available = ComponentState.ready
of_status AvailabilityStatus.registered = ComponentState.starting
of_status AvailabilityStatus.unavailable = ComponentState.unavailable

abbrev pub assess {ℓ} :
    {A : Type ℓ} → (A → ComponentState) → Call A → ComponentState × Option String
assess f (answered a) = (f a, none)
assess f (raised e) = (ComponentState.failed, some e)

-- The `try` block: the new state and the error.
unfoldable pub evaluate : Probe → ComponentState × Option String
evaluate p =
    if p.is_connected then assess of_status p.refresh_status else assess of_connect p.connect

unfoldable pub register_all : List Capability → CapabilityRegistry → CapabilityRegistry
unfolding register_capability
register_all [] r = r
register_all (c ∷ cs) r = register_all cs (register_capability c true r).0

abbrev pub apply {ℓ} : {A : Type ℓ} → (A → A) → Option A → Option A
apply f none = none
apply f (some a) = some (f a)

-- `_on_zarya_ready` and `_on_flux_ready`
unfoldable pub on_ready : Probe → ReadinessTracker → ReadinessTracker
unfolding register_all register_provider
on_ready p t = record t {
  providers = apply (λ r. (register_provider p.descriptor true r).0) t.providers;
  capabilities = apply (register_all p.capability_definitions) t.capabilities;
}

-- `new == READY and old != READY`
unfoldable pub becomes_ready : ComponentState → ComponentState → Bool
unfolding component_discrete
becomes_ready old new =
    ite (component_discrete new ComponentState.ready)
      (ite (component_discrete old ComponentState.ready) false true) false

-- `_evaluate_zarya` and `_evaluate_flux`, which keep the peer id of Flux with its state.
unfoldable pub evaluate_component :
    String → Option String → Probe → ℕ → ReadinessTracker → ReadinessTracker
unfolding evaluate becomes_ready on_ready announce state_of
evaluate_component name peer_id p now t =
    let old = state_of name t in
    let (new, error) = evaluate p in
    let t' = if becomes_ready old new then on_ready p t else t in
    announce name old new error (
      set_component name
        (record {
          component = name;
          state = new;
          last_checked_at = now;
          error = error;
          peer_id = peer_id;
        })
        t')

unfoldable pub evaluate_zarya : Probe → ℕ → ReadinessTracker → ReadinessTracker
unfolding evaluate_component
evaluate_zarya = evaluate_component "zarya" none

-- `if getattr(self.flux_provider, "peer_id", None)`, which is passed over where the call raised.
abbrev pub peer_meta : Probe → Option String → Option String
peer_meta p none = elim p.peer_id [
  | none ↦ none
  | some id ↦ ite (str_discrete id "") none (some id)
]
peer_meta p (some _) = none

unfoldable pub evaluate_flux : Probe → ℕ → ReadinessTracker → ReadinessTracker
unfolding evaluate_component evaluate
evaluate_flux p = evaluate_component "flux" (peer_meta p (evaluate p).1) p

-- `enabled and name in self._components`
unfoldable pub active_state : Bool → Option ComponentSnapshot → List ComponentState
active_state true (some s) = s.state ∷ []
active_state true none = []
active_state false o = []

abbrev pub is : ComponentState → ComponentState → Bool
is s s' = ite (component_discrete s s') true false

-- Readiness from the states of the enabled components.
unfoldable pub aggregate : List ComponentState → EcosystemReadiness
unfolding component_discrete
aggregate states =
    if all (is ComponentState.ready) states
    then EcosystemReadiness.ready
    else if any (is ComponentState.ready) states
    then EcosystemReadiness.degraded
    else if any (is ComponentState.starting) states
    then EcosystemReadiness.starting
    else EcosystemReadiness.degraded

unfoldable pub active_states : ReadinessTracker → List ComponentState
unfolding active_state
active_states t =
    active_state t.zarya_enabled (Dict.get "zarya" t.components)
    ++ active_state t.flux_enabled (Dict.get "flux" t.components)

unfoldable pub derive : ReadinessTracker → EcosystemReadiness
unfolding state_of active_states aggregate component_discrete
derive t =
    ite (component_discrete (state_of "node" t) ComponentState.ready) (aggregate (active_states t))
      EcosystemReadiness.starting

-- `self._readiness = new`, and the event of a change.
unfoldable pub settle : EcosystemReadiness → ReadinessTracker → ReadinessTracker
settle new t =
    let t' = record t { readiness = new } in
    ite (readiness_discrete t.readiness new) t'
      (publish (ecosystem_changed t.readiness new (map (λ e. (e.0, e.1.state)) t.components)) t')

unfoldable pub evaluate_ecosystem_readiness : ReadinessTracker → ReadinessTracker
unfolding derive settle
evaluate_ecosystem_readiness t = settle (derive t) t

abbrev pub if_polled :
    Bool
    → Option Probe
    → (Probe → ReadinessTracker → ReadinessTracker)
    → ReadinessTracker
    → ReadinessTracker
if_polled true (some p) f t = f p t
if_polled true none f t = t
if_polled false o f t = t

-- `zarya` and `flux` are the providers that the tracker was built with, as this poll finds them.
unfoldable pub poll : Option Probe → Option Probe → ℕ → ReadinessTracker → ReadinessTracker
unfolding evaluate_zarya evaluate_flux evaluate_ecosystem_readiness
poll zarya flux now t = evaluate_ecosystem_readiness (
    if_polled t.flux_enabled flux (λ p. evaluate_flux p now)
      (if_polled t.zarya_enabled zarya (λ p. evaluate_zarya p now) t))
