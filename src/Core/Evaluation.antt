-- ===== src/Core/Evaluation.antt =====
-- src/shyam/core/readiness.py: what the evaluation of one component leaves of the tracker.
use mathlib.Core.List.{append-nil}
use shyam.Base.{
  ℕ, String, true, false, ◌≡◌, ◌≢◌, refl, sym, ◌∙◌, ap, Option, some, List, [], ◌∷◌, ◌++◌, ite,
  if◌then◌else◌, arith,
}
use shyam.Base.Dict
use shyam.Base.Dict.{Dict, get-put_self, get-put_ne}
use shyam.Capabilities.Registry.{CapabilityRegistry}
use shyam.Providers.Registry.{ProviderRegistry}
use shyam.Core.Models.{
  ComponentState, component_discrete, ComponentSnapshot, ReadinessEvent, component_changed, Probe,
  ReadinessTracker,
}
use shyam.Core.Readiness.{
  set_component, state_of, announce, evaluate, on_ready, becomes_ready, evaluate_component,
}

-- The events of a change, if there is one.
abbrev pub change : String → ComponentState → ComponentState × Option String → List ReadinessEvent
change name old (new, error) =
    ite (component_discrete old new) [] (component_changed name old new error ∷ [])

-- What the evaluation of one component leaves of a tracker.
pub record Evaluated (name : String) (p : Probe) (t t' : ReadinessTracker) : Type 0 where
  pub other : (j : String) → name ≢ j → Dict.get j t'.components ≡ Dict.get j t.components
  pub own :
      (s : ComponentSnapshot) × (Dict.get name t'.components ≡ some s) × (s.state ≡ (evaluate p).0)
  pub told : t'.events ≡ t.events ++ change name (state_of name t) (evaluate p)
  pub same_readiness : t'.readiness ≡ t.readiness
  pub same_zarya : t'.zarya_enabled ≡ t.zarya_enabled
  pub same_flux : t'.flux_enabled ≡ t.flux_enabled

announce-events :
    (name : String) (old new : ComponentState) (error : Option String) (t : ReadinessTracker)
    → (announce name old new error t).events ≡ t.events ++ change name old (new, error)
unfolding announce
announce-events name old new error t =
    elim (component_discrete old new)
      as (λ d.
        (ite d t
          (record t { events = t.events ++ component_changed name old new error ∷ [] })).events
        ≡ t.events ++ ite d [] (component_changed name old new error ∷ [])) [
          | yes p ↦ sym (append-nil t.events)
          | no n ↦ refl
        ]

announce-components :
    (name : String) (old new : ComponentState) (error : Option String) (t : ReadinessTracker)
    → ((announce name old new error t).components ≡ t.components)
      × ((announce name old new error t).readiness ≡ t.readiness)
      × ((announce name old new error t).zarya_enabled ≡ t.zarya_enabled)
      × ((announce name old new error t).flux_enabled ≡ t.flux_enabled)
unfolding announce
announce-components name old new error t = (ground arith, ground arith, ground arith, ground arith)

-- A tracker with other registries, and the new state of a component announced.
announced-Evaluated :
    (name : String) (p : Probe) (s : ComponentSnapshot) (t : ReadinessTracker)
    (providers : Option ProviderRegistry) (capabilities : Option CapabilityRegistry)
    → s.state ≡ (evaluate p).0
    → Evaluated name p t (
        announce name
          (state_of name t)
          (evaluate p).0
          (evaluate p).1
          (set_component name s (record t { providers = providers; capabilities = capabilities })))
announced-Evaluated name p s t providers capabilities h =
    let u =
      set_component name s (record t { providers = providers; capabilities = capabilities }) in
    let (components, readiness, zarya, flux) =
      announce-components name (state_of name t) (evaluate p).0 (evaluate p).1 u in
    record {
      other = λ j n. ap (Dict.get j) components ∙ get-put_ne j name s t.components n;
      own = (s, ap (Dict.get name) components ∙ get-put_self name s t.components, h);
      told = announce-events name (state_of name t) (evaluate p).0 (evaluate p).1 u;
      same_readiness = readiness;
      same_zarya = zarya;
      same_flux = flux;
    }

pub evaluate_component-Evaluated :
    (name : String) (peer_id : Option String) (p : Probe) (now : ℕ) (t : ReadinessTracker)
    → Evaluated name p t (evaluate_component name peer_id p now t)
unfolding evaluate_component on_ready
evaluate_component-Evaluated name peer_id p now t =
    let old = state_of name t in
    elim (becomes_ready old (evaluate p).0)
      as (λ b. Evaluated name p t (
        announce name old (evaluate p).0 (evaluate p).1 (
          set_component name
            (record {
              component = name;
              state = (evaluate p).0;
              last_checked_at = now;
              error = (evaluate p).1;
              peer_id = peer_id;
            })
            (if b then on_ready p t else t)))) [
              | true ↦ announced-Evaluated name p _ t _ _ refl
              | false ↦ announced-Evaluated name p _ t t.providers t.capabilities refl
            ]
