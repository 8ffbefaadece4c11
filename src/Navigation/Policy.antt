-- ===== src/Navigation/Policy.antt =====
-- src/shyam/navigation/policy.py: eligibility, ranking and the explained result.
pub mod Eligibility
pub mod Ranking
use shyam.Base.{
  String, ◌<>◌, Bool, true, false, Option, none, some, List, [], ◌∷◌, ite, opt_discrete,
}
use shyam.Navigation.Models.{
  NavigationConstraints, NavigationCandidate, RejectedCandidate, NavigationResult,
}
use Eligibility.{rejection}
use Ranking.{sorted}

-- The loop of stage 1: the candidates that pass every check, and the others with their reasons.
unfoldable pub filter_candidates :
    NavigationConstraints
    → List NavigationCandidate
    → List NavigationCandidate × List RejectedCandidate
filter_candidates k [] = ([], [])
filter_candidates k (c ∷ cs) =
    let rest = filter_candidates k cs in
    elim (rejection k c) [
      | none ↦ (c ∷ rest.0, rest.1)
      | some why ↦ (rest.0, record { candidate = c; reason = why } ∷ rest.1)
    ]

-- `" ".join(reason_parts)`
unfoldable pub explain : NavigationConstraints → NavigationCandidate → String
explain k c =
    "Selected candidate on node '"
    <> c.node_id
    <> "' via provider '"
    <> c.provider_id
    <> "'."
    <> ite (opt_discrete k.preferred_node (some c.node_id)) " Matched preferred node constraint." ""
    <> ite (opt_discrete k.preferred_provider (some c.provider_id))
        " Matched preferred provider constraint." ""
    <> elim c.is_local [
      | true ↦ " Preferred local execution."
      | false ↦ " Resolved to remote execution."
    ]

-- The result from the ranked candidates.
unfoldable pub conclude :
    String
    → NavigationConstraints
    → List NavigationCandidate
    → List RejectedCandidate
    → NavigationResult
unfolding explain
conclude capability k [] rejected = record {
  capability = capability;
  selected = none;
  reason = "No eligible candidates found matching requirements.";
  alternatives = [];
  rejected = rejected;
}
conclude capability k (best ∷ others) rejected = record {
  capability = capability;
  selected = some best;
  reason = explain k best;
  alternatives = others;
  rejected = rejected;
}

unfoldable pub evaluate :
    String → List NavigationCandidate → NavigationConstraints → NavigationResult
unfolding filter_candidates conclude
evaluate capability candidates k =
    let (eligible, rejected) = filter_candidates k candidates in
    conclude capability k (sorted k eligible) rejected
