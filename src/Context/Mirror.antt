-- ===== src/Context/Mirror.antt =====
-- src/shyam/context/service.py as a mirror of src/shyam/discovery/ecosystem_registry.py.
use shyam.Base.{
  ℕ, String, true, false, ◌≡◌, refl, ◌∙◌, some, List, [], ◌∷◌, All, inl, inr, List-cases,
  Bool-cases, arith,
}
use shyam.Base.Dict
use shyam.Base.Dict.{get-put}
use shyam.Context.Service.{
  ContextService, sync_snapshot, start, on_ecosystem_event, handle_all, observe,
}
use shyam.Context.Store.{EcosystemStateStore, update_discovery, get_state}
use shyam.Discovery.History.{
  Call, touch, step, events, is_touch, has_bus-step, silent_step, get_node-touch, events-touch,
}
use shyam.Discovery.Models.{available, stale, DiscoveredNode}
use shyam.Discovery.Registry.{
  EcosystemRegistry, EcosystemEvent, node_discovered, node_updated, node_stale, node_lost, get_node,
  create_snapshot,
}

-- The registry and the service after timed calls, each followed by the handling of its events.
unfoldable pub watch :
    List (ℕ × Call) → EcosystemRegistry × ContextService → EcosystemRegistry × ContextService
unfolding step events observe
watch [] (r, c) = (r, c)
watch ((at, call) ∷ calls) (r, c) =
    watch calls (step r call, observe (step r call) at (events r call) c)

-- The store holds a snapshot of the registry as it stands.
abbrev pub Mirrors : EcosystemRegistry → EcosystemStateStore → Type 0
Mirrors r s = s.discovery ≡ some (create_snapshot "" r)

event-Mirrors :
    (r : EcosystemRegistry) (at : ℕ) (e : EcosystemEvent) (s : EcosystemStateStore)
    → Mirrors r (on_ecosystem_event r at e s)
unfolding on_ecosystem_event sync_snapshot update_discovery
event-Mirrors r at (node_discovered node) s = refl
event-Mirrors r at (node_updated node _) s = refl
event-Mirrors r at (node_stale id _ _) s = refl
event-Mirrors r at (node_lost id _ _) s = refl

handle_all-Mirrors :
    (r : EcosystemRegistry) (at : ℕ) (es : List EcosystemEvent) (s : EcosystemStateStore)
    → Mirrors r s
    → Mirrors r (handle_all r at es s)
unfolding handle_all
handle_all-Mirrors r at [] s m = m
handle_all-Mirrors r at (e ∷ es) s m =
    handle_all-Mirrors r at es (on_ecosystem_event r at e s) (event-Mirrors r at e s)

observe-Mirrors :
    (r : EcosystemRegistry) (call : Call) (at : ℕ) (c : ContextService)
    → r.has_bus ≡ true
    → is_touch call ≡ false
    → c.subscribed ≡ true
    → Mirrors r c.store
    → Mirrors (step r call) (observe (step r call) at (events r call) c).store
unfolding observe handle_all
observe-Mirrors r call at c b t u m = elim (List-cases (events r call)) [
  | inl e ↦ rw (e, u, silent_step call r b t e) m
  | inr (e, es, h) ↦
      rw (h, u)
        (handle_all-Mirrors (step r call) at es _ (event-Mirrors (step r call) at e c.store))
]

observe-subscribed :
    (r : EcosystemRegistry) (at : ℕ) (es : List EcosystemEvent) (c : ContextService)
    → (observe r at es c).subscribed ≡ c.subscribed
unfolding observe
observe-subscribed r at es c = ground arith

watch-Mirrors :
    (calls : List (ℕ × Call)) (r : EcosystemRegistry) (c : ContextService)
    → r.has_bus ≡ true
    → All (λ (x : ℕ × Call). is_touch x.1 ≡ false) calls
    → c.subscribed ≡ true
    → Mirrors r c.store
    → Mirrors (watch calls (r, c)).0 (watch calls (r, c)).1.store
unfolding watch
watch-Mirrors [] r c b q u m = m
watch-Mirrors ((at, call) ∷ calls) r c b q u m =
    watch-Mirrors calls (step r call) (observe (step r call) at (events r call) c)
      (has_bus-step call r ∙ b) q.1 (observe-subscribed (step r call) at (events r call) c ∙ u)
      (observe-Mirrors r call at c b q.0 u m)

start-subscribed : (r : EcosystemRegistry) (c : ContextService) → (start r c).subscribed ≡ true
unfolding start
start-subscribed r c = ground arith

-- Once a service is started over a registry with a bus, its state shows the registry as it stands,
-- after any calls but touches.
pub watch-context :
    (calls : List (ℕ × Call)) (r : EcosystemRegistry) (c : ContextService)
    → r.has_bus ≡ true
    → c.subscribed ≡ false
    → All (λ (x : ℕ × Call). is_touch x.1 ≡ false) calls
    → (get_state (watch calls (r, start r c)).1.store).discovery
      ≡ create_snapshot "" (watch calls (r, start r c)).0
unfolding get_state
watch-context calls r c b u q =
    rw
      (watch-Mirrors calls r (start r c) b q (start-subscribed r c)
        (unfold start sync_snapshot update_discovery in rw u refl))
      refl

unheard :
    (r r' : EcosystemRegistry) (id : String) (at : ℕ) (c : ContextService) (n : DiscoveredNode)
    → Mirrors r c.store
    → get_node id r ≡ some n
    → Dict.get id (get_state (observe r' at [] c).store).discovery.nodes ≡ some n
unfolding get_state create_snapshot observe handle_all get_node
unheard r r' id at c n m g = elim (Bool-cases c.subscribed) [
  | inl u ↦ rw (u, m) g
  | inr u ↦ rw (u, m) g
]

-- A touch that revives a stale node is not published: the state goes on showing the node as stale.
pub touch-unseen :
    (id : String) (at now : ℕ) (n : DiscoveredNode) (r : EcosystemRegistry) (c : ContextService)
    → Mirrors r c.store
    → get_node id r ≡ some n
    → n.state ≡ stale
    → (get_node id (watch ((now, touch id at) ∷ []) (r, c)).0
        ≡ some (record n { state = available; last_seen = at }))
      × (Dict.get id (get_state (watch ((now, touch id at) ∷ []) (r, c)).1.store).discovery.nodes
          ≡ some n)
unfolding watch get_state create_snapshot
touch-unseen id at now n r c m g h = (
  get_node-touch r id at n g h,
  rw (events-touch r id at) (unheard r (step r (touch id at)) id now c n m g),
)
