-- ===== src/Discovery/Occurrences.antt =====
-- src/shyam/discovery/ecosystem_service.py: what the registry keeps whatever the service discovers.
use shyam.Base.{
  ℕ, String, true, false, ◌≡◌, refl, sym, ◌∙◌, ap, Option, none, some, List, [], ◌∷◌, if◌then◌else◌,
}
use shyam.Discovery.Models.{DiscoveredNode, unavailable, with_state}
use shyam.Discovery.Peers.{peer_node, ingest_udp_peer, lose, handle_udp_peer_lost, discover}
use shyam.Discovery.Registry.{EcosystemRegistry, get_node, register_node}
use shyam.Discovery.Service.{
  Surroundings, seen_first, local_node, discover_local_node, flux_node, ingest_all, connected,
  ingest_flux_peers,
}
use shyam.Discovery.Sources.{Peer, FluxPeerInfo}
use shyam.Discovery.Memory.{
  IsIndexed, get-IsIndexed, Advances, Advances-trans, Advances-refl, register_node-Advances,
}

pub data Occurrence : Type 0 where
  discovery : Surroundings → ℕ → Occurrence
  announced : Peer → Occurrence
  lost : String → Occurrence

unfoldable pub occur : EcosystemRegistry → Occurrence → EcosystemRegistry
unfolding discover ingest_udp_peer handle_udp_peer_lost
occur r (discovery w now) = (discover w now r).0
occur r (announced p) = ingest_udp_peer p r
occur r (lost id) = handle_udp_peer_lost id r

unfoldable pub happen : EcosystemRegistry → List Occurrence → EcosystemRegistry
happen r [] = r
happen r (o ∷ os) = happen (occur r o) os

discover_local_node-Advances :
    (w : Surroundings) (now : ℕ) (r : EcosystemRegistry)
    → IsIndexed r.nodes
    → Advances r (discover_local_node w now r)
unfolding discover_local_node local_node
discover_local_node-Advances w now r = register_node-Advances (local_node w now r) now r refl

ingest_all-Advances :
    (now : ℕ) (ps : List FluxPeerInfo) (r : EcosystemRegistry)
    → IsIndexed r.nodes
    → Advances r (ingest_all now ps r)
unfolding ingest_all flux_node
ingest_all-Advances now [] r k = Advances-refl r k
ingest_all-Advances now (p ∷ ps) r k =
    let first = register_node-Advances (flux_node now p r) now r refl k in
    Advances-trans r _ first (ingest_all-Advances now ps _ first.keyed)

ingest_flux_peers-Advances :
    (w : Surroundings) (now : ℕ) (r : EcosystemRegistry)
    → IsIndexed r.nodes
    → Advances r (ingest_flux_peers w now r)
unfolding ingest_flux_peers
ingest_flux_peers-Advances w now r k =
    elim (connected w.flux)
      as (λ b.
        Advances r (if b then elim w.peers [ none ↦ r | some ps ↦ ingest_all now ps r ] else r)) [
          | true ↦
              elim w.peers
                as (λ o. Advances r (elim o [ none ↦ r | some ps ↦ ingest_all now ps r ])) [
                  | none ↦ Advances-refl r k
                  | some ps ↦ ingest_all-Advances now ps r k
                ]
          | false ↦ Advances-refl r k
        ]

discover-Advances :
    (w : Surroundings) (now : ℕ) (r : EcosystemRegistry)
    → IsIndexed r.nodes
    → Advances r (discover w now r).0
unfolding discover
discover-Advances w now r k =
    let own = discover_local_node-Advances w now r k in
    let r' = discover_local_node w now r in
    Advances-trans r r' own
      (elim (connected w.flux)
        as (λ b. Advances r' (if b then ingest_flux_peers w now r' else r')) [
          | true ↦ ingest_flux_peers-Advances w now r' own.keyed
          | false ↦ Advances-refl r' own.keyed
        ])

lose-Advances :
    (id : String) (o : Option DiscoveredNode) (r : EcosystemRegistry)
    → get_node id r ≡ o
    → IsIndexed r.nodes
    → Advances r (lose o r)
unfolding lose with_state
lose-Advances id none r g k = Advances-refl r k
lose-Advances id (some n) r g k =
    elim n.is_local
      as (λ b. Advances r (if b then r else (register_node (with_state n unavailable) true r).0)) [
        | true ↦ Advances-refl r k
        | false ↦
            register_node-Advances (with_state n unavailable) 0 r
              (ap (λ o. seen_first o 0)
                (sym g
                  ∙ ap (λ j. get_node j r)
                      (sym (get-IsIndexed id n r.nodes k.named (unfold get_node in g)))))
              k
      ]

occur-Advances :
    (o : Occurrence) (r : EcosystemRegistry) → IsIndexed r.nodes → Advances r (occur r o)
unfolding occur ingest_udp_peer peer_node handle_udp_peer_lost
occur-Advances (discovery w now) r k = discover-Advances w now r k
occur-Advances (announced p) r k = register_node-Advances (peer_node p r) p.discovered_at r refl k
occur-Advances (lost id) r k = lose-Advances id (get_node id r) r refl k

-- Whatever the service discovers, hears of and loses, each node stands once in the registry under its
-- own id, no known node is forgotten, and each keeps the time at which it was first seen.
pub happen-Advances :
    (os : List Occurrence) (r : EcosystemRegistry) → IsIndexed r.nodes → Advances r (happen r os)
unfolding happen
happen-Advances [] r k = Advances-refl r k
happen-Advances (o ∷ os) r k =
    let first = occur-Advances o r k in
    Advances-trans r (occur r o) first (happen-Advances os (occur r o) first.keyed)
