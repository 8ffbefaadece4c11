-- ===== src/Core/Tests.antt =====
-- src/shyam/core/readiness.py on a poll that finds Zarya and does not find Flux.
use shyam.Base.{true, false, ◌≡◌, refl, some, none, [], str_discrete}
use shyam.Base.Dict
use shyam.Capabilities.{AvailabilityStatus}
use shyam.Core.Polls.{Polled, poll-Polled}
use shyam.Core.Models.{
  EcosystemReadiness, Probe, answered, raised, ReadinessTracker, component_discrete,
  readiness_discrete,
}
use shyam.Core.Readiness.{new_tracker, set_node_ready, poll, settle}

abbrev found : Probe
found = record {
  is_connected = false;
  connect = answered true;
  refresh_status = answered AvailabilityStatus.available;
  peer_id = none;
  descriptor = record {
    provider_id = "zarya.sovereign";
    name = "Zarya";
    version = "1.0.0";
    description = "";
    capabilities = [];
    metadata = [];
    availability = AvailabilityStatus.available;
  };
  capability_definitions = [];
}

abbrev failing : Probe
failing = record found { connect = raised "refused" }

abbrev tracker : ReadinessTracker
tracker = set_node_ready 1 (new_tracker true true none none 0)

half_ready : (poll (some found) (some failing) 2 tracker).readiness ≡ EcosystemReadiness.degraded
unfolding poll settle set_node_ready new_tracker Dict.get Dict.put str_discrete component_discrete
    readiness_discrete
half_ready = refl

enabled : (tracker.zarya_enabled ≡ true) × (tracker.flux_enabled ≡ true)
unfolding set_node_ready new_tracker Dict.get Dict.put str_discrete component_discrete
enabled = (refl, refl)

poll-Polled_example : Polled found failing tracker (poll (some found) (some failing) 2 tracker)
poll-Polled_example = let (zarya, flux) = enabled in poll-Polled found failing 2 tracker zarya flux
