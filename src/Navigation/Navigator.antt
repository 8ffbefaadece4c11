-- ===== src/Navigation/Navigator.antt =====
-- src/shyam/navigation/navigator.py.
use shyam.Discovery.Models.{EcosystemSnapshot}
use shyam.Navigation.Candidates.{discover_candidates}
use shyam.Navigation.Models.{NavigationRequest, NavigationResult}
use shyam.Navigation.Policy.{evaluate}

unfoldable pub navigate : NavigationRequest → EcosystemSnapshot → NavigationResult
unfolding discover_candidates evaluate
navigate request snapshot =
    evaluate request.capability (discover_candidates snapshot request.capability)
      request.constraints
