-- ===== src/Core/Polls.antt =====
-- src/shyam/core/readiness.py: what one poll of both components leaves.
use mathlib.Core.List.{append-nil}
use mathlib.Core.Bool.{false≢true}
use text.Mathlib.TextEquality.{eq_iff}
use shyam.Base.{
  subst, ℕ, String, true, ◌≡◌, ◌≢◌, refl, sym, ◌∙◌, ap, ap₂, none, some, [], ◌∷◌, ◌++◌, ite, map,
  arith,
}
use shyam.Base.Dict
use shyam.Base.Dict.{Dict, get-put_self, get-put_ne}
use shyam.Core.Models.{
  ComponentState, component_discrete, EcosystemReadiness, readiness_discrete, ComponentSnapshot,
  ecosystem_changed, Probe, ReadinessTracker,
}
use shyam.Core.Readiness.{
  state_of, state_or_unknown, evaluate, evaluate_zarya, evaluate_flux, active_state, active_states,
  aggregate, derive, settle, evaluate_ecosystem_readiness, poll, if_polled, settle, peer_meta,
}
use shyam.Core.Evaluation.{Evaluated, change, evaluate_component-Evaluated}
use shyam.Core.Meaning.{Means, aggregate-Means}

-- What a poll of both components leaves: their states as the poll found them, the readiness that
-- follows from these and from the node's, and the events of exactly what changed.
pub record Polled (zarya flux : Probe) (t t' : ReadinessTracker) : Type 0 where
  pub zarya_state : state_of "zarya" t' ≡ (evaluate zarya).0
  pub flux_state : state_of "flux" t' ≡ (evaluate flux).0
  pub node_state : state_of "node" t' ≡ state_of "node" t
  pub means : Means (state_of "node" t) (evaluate zarya).0 (evaluate flux).0 t'.readiness
  pub told :
      (states : Dict ComponentState) × (t'.events
        ≡ t.events
          ++ change "zarya" (state_of "zarya" t) (evaluate zarya)
          ++ change "flux" (state_of "flux" t) (evaluate flux)
          ++ ite
              (readiness_discrete t.readiness t'.readiness)
              []
              (ecosystem_changed t.readiness t'.readiness states ∷ []))

module _ (new : EcosystemReadiness) (t : ReadinessTracker) where
  abbrev states : Dict ComponentState
  states = map (λ e. (e.0, e.1.state)) t.components

  settle-events :
      (settle new t).events
      ≡ t.events
        ++ ite
            (readiness_discrete t.readiness new)
            []
            (ecosystem_changed t.readiness new states ∷ [])
  unfolding settle
  settle-events =
      elim (readiness_discrete t.readiness new)
        as (λ d.
          (ite d (record t { readiness = new })
            (record t {
              readiness = new;
              events = t.events ++ ecosystem_changed t.readiness new states ∷ [];
            })).events
          ≡ t.events ++ ite d [] (ecosystem_changed t.readiness new states ∷ [])) [
            | yes p ↦ sym (append-nil t.events)
            | no n ↦ refl
          ]

  settle-state : ((settle new t).components ≡ t.components) × ((settle new t).readiness ≡ new)
  unfolding settle
  settle-state = (ground arith, ground arith)

-- The readiness that a tracker derives from the components it holds.
derive_lem :
    (t : ReadinessTracker) (zarya flux : ComponentSnapshot)
    → t.zarya_enabled ≡ true
    → t.flux_enabled ≡ true
    → Dict.get "zarya" t.components ≡ some zarya
    → Dict.get "flux" t.components ≡ some flux
    → derive t
      ≡ ite
          (component_discrete (state_of "node" t) ComponentState.ready)
          (aggregate (zarya.state ∷ flux.state ∷ []))
          EcosystemReadiness.starting
unfolding derive active_states active_state
derive_lem t zarya flux z f gz gf = rw (z, f, gz, gf) refl

zarya≢node : ◌≢◌ {A = String} "zarya" "node"
zarya≢node e = false≢true ((eq_iff "zarya" "node").1 e)

flux≢node : ◌≢◌ {A = String} "flux" "node"
flux≢node e = false≢true ((eq_iff "flux" "node").1 e)

flux≢zarya : ◌≢◌ {A = String} "flux" "zarya"
flux≢zarya e = false≢true ((eq_iff "flux" "zarya").1 e)

zarya≢flux : ◌≢◌ {A = String} "zarya" "flux"
zarya≢flux e = flux≢zarya (sym e)

module _ (zarya flux : Probe) (t u v : ReadinessTracker) (first : Evaluated "zarya" zarya t u)
    (second : Evaluated "flux" flux u v) (z : t.zarya_enabled ≡ true)
    (f : t.flux_enabled ≡ true) where
  zarya_found : Dict.get "zarya" v.components ≡ some first.own.0
  zarya_found = second.other "zarya" flux≢zarya ∙ first.own.1

  node_kept : state_of "node" v ≡ state_of "node" t
  unfolding state_of
  node_kept = ap state_or_unknown (second.other "node" flux≢node ∙ first.other "node" zarya≢node)

  flux_before : state_of "flux" u ≡ state_of "flux" t
  unfolding state_of
  flux_before = ap state_or_unknown (first.other "flux" zarya≢flux)

  derived :
      derive v
      ≡ ite
          (component_discrete (state_of "node" t) ComponentState.ready)
          (aggregate ((evaluate zarya).0 ∷ (evaluate flux).0 ∷ []))
          EcosystemReadiness.starting
  derived =
      derive_lem v first.own.0 second.own.0 (second.same_zarya ∙ first.same_zarya ∙ z)
        (second.same_flux ∙ first.same_flux ∙ f) zarya_found second.own.1
      ∙ rw (node_kept, first.own.2, second.own.2) refl

  settled_state : (name : String) → state_of name (settle (derive v) v) ≡ state_of name v
  unfolding state_of
  settled_state name = ap (λ c. state_or_unknown (Dict.get name c)) (settle-state (derive v) v).0

  told_of_both :
      (settle (derive v) v).events
      ≡ t.events
        ++ change "zarya" (state_of "zarya" t) (evaluate zarya)
        ++ change "flux" (state_of "flux" t) (evaluate flux)
        ++ ite (readiness_discrete t.readiness (settle (derive v) v).readiness) [] (
            ecosystem_changed t.readiness (settle (derive v) v).readiness (states (derive v) v)
            ∷ [])
  told_of_both =
      settle-events (derive v) v
      ∙ ap₂ ◌++◌
          (second.told
            ∙ ap₂ ◌++◌ first.told (ap (λ s. change "flux" s (evaluate flux)) flux_before))
          (ap₂
            (λ old new.
              ite (readiness_discrete old new) []
                (ecosystem_changed old new (states (derive v) v) ∷ []))
            (second.same_readiness ∙ first.same_readiness) (sym (settle-state (derive v) v).1))

  settled-Polled : Polled zarya flux t (settle (derive v) v)
  settled-Polled = record {
    zarya_state =
        settled_state "zarya" ∙ unfold state_of in (ap state_or_unknown zarya_found ∙ first.own.2);
    flux_state =
        settled_state "flux" ∙ unfold state_of in (ap state_or_unknown second.own.1 ∙ second.own.2);
    node_state = settled_state "node" ∙ node_kept;
    means =
        subst (Means (state_of "node" t) (evaluate zarya).0 (evaluate flux).0)
          (sym ((settle-state (derive v) v).1 ∙ derived))
          (aggregate-Means (state_of "node" t) (evaluate zarya).0 (evaluate flux).0);
    told = (states (derive v) v, told_of_both);
  }

poll_both :
    (zarya flux : Probe) (now : ℕ) (t : ReadinessTracker)
    → t.zarya_enabled ≡ true
    → t.flux_enabled ≡ true
    → poll (some zarya) (some flux) now t
      ≡ evaluate_ecosystem_readiness (evaluate_flux flux now (evaluate_zarya zarya now t))
unfolding poll
poll_both zarya flux now t = ap₂ (λ a b. evaluate_ecosystem_readiness (
    if_polled b (some flux) (λ p. evaluate_flux p now)
      (if_polled a (some zarya) (λ p. evaluate_zarya p now) t)))

-- After a poll with both components enabled, each of the two states is what the poll found and the
-- node's is as it was; the readiness is READY exactly if all three are, STARTING exactly if the
-- node is not ready, or neither component is and one is starting, and never UNAVAILABLE; and the
-- events that the poll adds are those of what changed.
pub poll-Polled :
    (zarya flux : Probe) (now : ℕ) (t : ReadinessTracker)
    → t.zarya_enabled ≡ true
    → t.flux_enabled ≡ true
    → Polled zarya flux t (poll (some zarya) (some flux) now t)
unfolding evaluate_zarya evaluate_flux evaluate_ecosystem_readiness
poll-Polled zarya flux now t z f =
    subst (Polled zarya flux t) (sym (poll_both zarya flux now t z f)) (
      settled-Polled zarya flux t _ _ (evaluate_component-Evaluated "zarya" none zarya now t)
        (evaluate_component-Evaluated "flux" (peer_meta flux (evaluate flux).1) flux now _) z f)
