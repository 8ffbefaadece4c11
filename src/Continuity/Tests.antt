-- ===== src/Continuity/Tests.antt =====
-- src/shyam/continuity on a work continued on a phone that offers `zarya.work.continue`.
use shyam.Base.{◌≡◌, str_discrete, true, false, refl, some, [], ◌∷◌}
use shyam.Base.Dict
use shyam.Capabilities.{AvailabilityStatus}
use shyam.Continuity.Ends.{Ends, run_pipeline-Ends}
use shyam.Continuity.Guard.{IsGuarded, request_continuity-IsGuarded}
use shyam.Continuity.Models.{ContinuityRequest, ContinuitySession, new_session}
use shyam.Continuity.Pipeline.{run_pipeline}
use shyam.Continuity.Service.{ServiceState, active, duplicate, request_continuity}
use shyam.Continuity.Stages.{Environment, verified_success}
use shyam.Continuity.State.{transferring, is_terminal}
use shyam.Discovery.Models.{
  DiscoveredCapability, DiscoveredProvider, DiscoveredNode, EcosystemNodeState,
}
use shyam.Navigation.Models.{no_constraints}
use shyam.Trust.Models.{TrustStatus, new_record}
use shyam.Values.{other}
use shyam.Workflow.Engine.{returned}

abbrev continues : DiscoveredCapability
continues = record {
  capability_id = "zarya.work.continue";
  name = "continue";
  version = "1.0.0";
  description = "";
  availability = AvailabilityStatus.available;
}

abbrev zarya : DiscoveredProvider
zarya = record {
  provider_id = "zarya";
  name = "zarya";
  version = "1.0.0";
  description = "";
  capabilities = continues ∷ [];
  status = AvailabilityStatus.available;
  metadata = [];
  last_seen = 1;
}

abbrev phone : DiscoveredNode
phone = record {
  node_id = "phone";
  node_name = "phone";
  state = EcosystemNodeState.available;
  is_local = false;
  protocol_version = "1.0.0";
  providers = ("zarya", zarya) ∷ [];
  metadata = [];
  first_seen = 0;
  last_seen = 1;
}

-- The nodes the world holds do not change.
abbrev World : Type 0
World = Unit

abbrev here : Environment World
here = record {
  snapshot = λ w. record { local_node_id = "laptop"; nodes = ("phone", phone) ∷ [] };
  invalid_target = λ c. "validation error";
  get_record = λ id w. (returned (new_record id TrustStatus.trusted 0), w);
  transfer =
      λ peer path w. (returned (record { transfer_id = some "t1"; status = "COMPLETED" }), w);
  continue_work = λ work device id url w. (
    returned (record {
      operation_id = "op";
      outcome = verified_success;
      reconstruction_completed = true;
      execution_completed = true;
      summary = "done";
    }),
    w,
  );
}

abbrev copy_report : ContinuityRequest
copy_report = record {
  work_id = "report";
  source_device_id = "laptop";
  portable_work = ("goal", other "write") ∷ [];
  artifact_paths = "draft.txt" ∷ [];
  target_constraints = no_constraints;
  continuity_intent = "COPY";
}

abbrev idle : ServiceState World
idle = record { machine = record { world = tt; sessions = [] }; work_continuities = [] }

run_pipeline-Ends_example :
    Ends here (run_pipeline here (new_session "c1" copy_report) idle.machine)
run_pipeline-Ends_example = run_pipeline-Ends here (new_session "c1" copy_report) idle.machine refl

-- The first attempt for the report is still transferring.
abbrev under_way : ContinuitySession
under_way = record (new_session "c0" copy_report) { state = transferring }

abbrev busy : ServiceState World
busy = record {
  machine = record { world = tt; sessions = ("c0", under_way) ∷ [] };
  work_continuities = ("report", "c0") ∷ [];
}

second_is_refused : (request_continuity here "c1" copy_report busy).1 ≡ duplicate "c0"
unfolding request_continuity str_discrete Dict.get active is_terminal
second_is_refused = refl

request_continuity-IsGuarded_example :
    IsGuarded here "c1" copy_report busy (request_continuity here "c1" copy_report busy)
request_continuity-IsGuarded_example = request_continuity-IsGuarded here "c1" copy_report busy
