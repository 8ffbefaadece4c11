-- ===== src/Discovery/History.antt =====
-- src/shyam/discovery/ecosystem_registry.py as a history of calls, and what the history means to one
-- node, told without the registry.
use shyam.Base.{
  ℕ, ◌+◌, String, Bool, true, false, not, ◌&&◌, ◌≡◌, refl, ap, ◌∙◌, Option, none, some, List, [],
  ◌∷◌, map, ite, if◌then◌else◌, str_discrete, ltb, List-cases, inl, inr, arith,
}
use shyam.Base.Dict
use shyam.Base.Dict.{Dict, get-put, get-pop}
use shyam.Base.Sets.{elem}
use shyam.Discovery.Models.{
  EcosystemNodeState, available, stale, state_discrete, DiscoveredProvider, DiscoveredNode,
  with_touch, with_state, with_provider, without_provider,
}
use shyam.Discovery.Registry.{
  EcosystemRegistry, EcosystemEvent, published, marked, set_node, get_node, register_over,
  register_node, revived, touch_node, update, update_node_state, add_provider, remove_provider,
  remove_node, can_go_stale, goes_stale, reconcile_node, reconcile_stale,
}

pub data Call : Type 0 where
  register : DiscoveredNode → Bool → Call
  touch : String → ℕ → Call
  set_state : String → EcosystemNodeState → Call
  add : String → DiscoveredProvider → Call
  drop : String → String → Call
  remove : String → Call
  reconcile : ℕ → ℕ → Call

unfoldable pub step : EcosystemRegistry → Call → EcosystemRegistry
unfolding register_node touch_node update_node_state add_provider remove_provider remove_node
    reconcile_stale
step r (register node overwrite) = (register_node node overwrite r).0
step r (touch id seen_at) = (touch_node id seen_at r).0
step r (set_state id state) = (update_node_state id state r).0
step r (add id provider) = (add_provider id provider r).0
step r (drop id provider_id) = (remove_provider id provider_id r).0
step r (remove id) = (remove_node id r).0
step r (reconcile threshold now) = (reconcile_stale threshold now r).0

unfoldable pub run : EcosystemRegistry → List Call → EcosystemRegistry
run r [] = r
run r (c ∷ cs) = run (step r c) cs

-- What a call about a node that is known does to it.
unfoldable pub changed : Call → DiscoveredNode → Option DiscoveredNode
unfolding with_state with_provider without_provider state_discrete
changed (register node overwrite) n = some (if overwrite then node else n)
changed (touch _ seen_at) n =
    some (record n {
      state = ite (state_discrete n.state stale) available n.state;
      last_seen = seen_at;
    })
changed (set_state _ state) n = some (with_state n state)
changed (add _ provider) n = some (with_provider n provider)
changed (drop _ provider_id) n = some (without_provider n provider_id)
changed (remove _) n = none
changed (reconcile threshold now) n = some (
    if not n.is_local && can_go_stale n.state && ltb (n.last_seen + threshold) now
    then with_state n stale
    else n)

-- Whether a call is about a node.
unfoldable pub concerns : String → Call → Bool
concerns id (register node _) = ite (str_discrete node.node_id id) true false
concerns id (touch j _) = ite (str_discrete j id) true false
concerns id (set_state j _) = ite (str_discrete j id) true false
concerns id (add j _) = ite (str_discrete j id) true false
concerns id (drop j _) = ite (str_discrete j id) true false
concerns id (remove j) = ite (str_discrete j id) true false
concerns id (reconcile _ _) = true

-- What a call about a node that is not known brings in.
unfoldable pub introduced : Call → Option DiscoveredNode
introduced (register node _) = some node
introduced (touch _ _) = none
introduced (set_state _ _) = none
introduced (add _ _) = none
introduced (drop _ _) = none
introduced (remove _) = none
introduced (reconcile _ _) = none

unfoldable pub node_after : String → Option DiscoveredNode → List Call → Option DiscoveredNode
node_after id o [] = o
node_after id o (c ∷ cs) =
    node_after id
      (if concerns id c then elim o [ none ↦ introduced c | some n ↦ changed c n ] else o) cs

get-reconcile :
    (threshold now : ℕ) (id : String) (nodes : Dict DiscoveredNode)
    → Dict.get id (map (reconcile_node threshold now) nodes)
      ≡ elim (Dict.get id nodes) [ none ↦ none | some n ↦ changed (reconcile threshold now) n ]
unfolding Dict.get reconcile_node changed goes_stale
get-reconcile threshold now id [] = refl
get-reconcile threshold now id ((j, n) ∷ nodes) =
    ground (arith, get-reconcile threshold now id nodes)

get-set_node :
    (id j : String) (n : DiscoveredNode) (r : EcosystemRegistry)
    → get_node id (set_node j n r) ≡ ite (str_discrete j id) (some n) (get_node id r)
unfolding get_node set_node
get-set_node id j n r = get-put id j n r.nodes

-- An absent key is not popped.
pop_absent {ℓ} :
    {V : Type ℓ} (k : String) (d : Dict V) → elem k (Dict.keys d) ≡ false → Dict.pop k d ≡ d
unfolding Dict.pop elem
pop_absent k [] h = refl
pop_absent k ((j, v) ∷ d) h = ground (arith, pop_absent k d)

without_absent :
    (n : DiscoveredNode) (p : String)
    → elem p (Dict.keys n.providers) ≡ false
    → without_provider n p ≡ n
unfolding without_provider
without_absent n p h = rw (pop_absent p n.providers h) refl

-- The meaning of a call to the node under one id.
abbrev effect : String → Call → EcosystemRegistry → Option DiscoveredNode
effect id c r =
    if concerns id c
    then elim (get_node id r) [ none ↦ introduced c | some n ↦ changed c n ]
    else get_node id r

get_node-step :
    (id : String) (c : Call) (r : EcosystemRegistry) → get_node id (step r c) ≡ effect id c r
unfolding step concerns introduced changed register_over revived update with_touch
get_node-step id (register node overwrite) r = grind (arith, get-set_node)
get_node-step id (touch j seen_at) r = grind (arith, get-set_node)
get_node-step id (set_state j s) r = grind (arith, get-set_node)
get_node-step id (add j provider) r = grind (arith, get-set_node)
get_node-step id (drop j provider_id) r = grind (arith, get-set_node, without_absent)
get_node-step id (remove j) r = unfold get_node in ground (arith, get-pop id j r.nodes)
get_node-step id (reconcile threshold now) r =
    unfold get_node in ground (arith, get-reconcile threshold now id r.nodes)

-- After any history of calls, the registry holds under an id what the calls about that node leave of
-- it, whatever the other calls did.
pub get_node-run :
    (id : String) (cs : List Call) (r : EcosystemRegistry)
    → get_node id (run r cs) ≡ node_after id (get_node id r) cs
unfolding run node_after
get_node-run id [] r = refl
get_node-run id (c ∷ cs) r =
    get_node-run id cs (step r c) ∙ ap (λ o. node_after id o cs) (get_node-step id c r)

-- What a call published.
unfoldable pub events : EcosystemRegistry → Call → List EcosystemEvent
unfolding register_node touch_node update_node_state add_provider remove_provider remove_node
    reconcile_stale
events r (register node overwrite) = (register_node node overwrite r).2
events r (touch id seen_at) = (touch_node id seen_at r).2
events r (set_state id state) = (update_node_state id state r).2
events r (add id provider) = (add_provider id provider r).2
events r (drop id provider_id) = (remove_provider id provider_id r).2
events r (remove id) = (remove_node id r).2
events r (reconcile threshold now) = (reconcile_stale threshold now r).2

unfoldable pub is_touch : Call → Bool
is_touch (register _ _) = false
is_touch (touch _ _) = true
is_touch (set_state _ _) = false
is_touch (add _ _) = false
is_touch (drop _ _) = false
is_touch (remove _) = false
is_touch (reconcile _ _) = false

reconcile-nothing :
    (threshold now : ℕ) (nodes : Dict DiscoveredNode)
    → marked threshold now nodes ≡ []
    → map (reconcile_node threshold now) nodes ≡ nodes
unfolding marked reconcile_node
reconcile-nothing threshold now [] h = refl
reconcile-nothing threshold now ((id, n) ∷ nodes) h =
    ground (arith, reconcile-nothing threshold now nodes)

pub has_bus-step : (c : Call) (r : EcosystemRegistry) → (step r c).has_bus ≡ r.has_bus
unfolding step set_node register_over update
has_bus-step (register node overwrite) r = ground arith
has_bus-step (touch id seen_at) r = ground arith
has_bus-step (set_state id s) r = ground arith
has_bus-step (add id provider) r = ground arith
has_bus-step (drop id provider_id) r = ground arith
has_bus-step (remove id) r = ground arith
has_bus-step (reconcile threshold now) r = refl

reconcile-silent :
    (threshold now : ℕ) (r : EcosystemRegistry)
    → r.has_bus ≡ true
    → events r (reconcile threshold now) ≡ []
    → step r (reconcile threshold now) ≡ r
unfolding events step published
reconcile-silent threshold now r b h = elim (List-cases (marked threshold now r.nodes)) [
  | inl e ↦
      ap (λ (nodes : Dict DiscoveredNode). record r { nodes = nodes })
        (reconcile-nothing threshold now r.nodes e)
  | inr (y, ys, e) ↦ ground arith
]

-- A call other than touch that publishes nothing on a registry with a bus changes nothing.
pub silent_step :
    (c : Call) (r : EcosystemRegistry)
    → r.has_bus ≡ true
    → is_touch c ≡ false
    → events r c ≡ []
    → step r c ≡ r
unfolding events step is_touch published register_over update
silent_step (register node overwrite) r b t h = ground arith
silent_step (touch id seen_at) r b t h = cc
silent_step (set_state id s) r b t h = ground arith
silent_step (add id provider) r b t h = ground arith
silent_step (drop id provider_id) r b t h = ground arith
silent_step (remove id) r b t h = ground arith
silent_step (reconcile threshold now) r b t h = reconcile-silent threshold now r b h

pub events-touch : (r : EcosystemRegistry) (id : String) (at : ℕ) → events r (touch id at) ≡ []
unfolding events
events-touch r id at = ground arith

-- Touching a stale node makes it available.
pub get_node-touch :
    (r : EcosystemRegistry) (id : String) (at : ℕ) (n : DiscoveredNode)
    → get_node id r ≡ some n
    → n.state ≡ stale
    → get_node id (step r (touch id at)) ≡ some (record n { state = available; last_seen = at })
unfolding concerns changed
get_node-touch r id at n g h = ground (arith, get_node-step id (touch id at) r)
