-- ===== src/Providers/Tests.antt =====
-- src/shyam/providers/fabric.py on two providers, one of which does not initialize.
use shyam.Base.{String, true, false, ◌≡◌, refl, some, none, [], ◌∷◌, str_discrete}
use shyam.Capabilities.{AvailabilityStatus, Capability}
use shyam.Capabilities.Registry.{get}
use shyam.Providers.{Provider}
use shyam.Providers.Fabric.{LocalProvider, LocalProviderFabric, with_availability, start}
use shyam.Providers.Startup.{provider_after, capability_after, start-registers}

abbrev reading : Capability
reading = record {
  capability_id = "file.read";
  name = "read";
  version = "1.0.0";
  description = "";
  metadata = [];
  availability = AvailabilityStatus.registered;
}

abbrev provider_named : String → Provider
provider_named id = record {
  provider_id = id;
  name = id;
  version = "1.0.0";
  description = "";
  capabilities = "file.read" ∷ [];
  metadata = [];
  availability = AvailabilityStatus.registered;
}

abbrev files : LocalProvider
files = record {
  descriptor = provider_named "local.files";
  capability_definitions = reading ∷ [];
  initializes = true;
}

abbrev broken : LocalProvider
broken = record files { descriptor = provider_named "local.broken"; initializes = false }

abbrev empty : LocalProviderFabric
empty = record {
  capabilities = record { entries = []; has_bus = false };
  providers = record { entries = []; has_bus = false };
  instances = [];
}

broken_is_unavailable :
    provider_after "local.broken" (files ∷ broken ∷ []) none
    ≡ some (with_availability (provider_named "local.broken") AvailabilityStatus.unavailable)
unfolding provider_after str_discrete
broken_is_unavailable = refl

start-registers_example :
    (get "local.broken" (start (files ∷ broken ∷ []) empty).providers
      ≡ provider_after "local.broken" (files ∷ broken ∷ []) (get "local.broken" empty.providers))
    × (get "local.broken" (start (files ∷ broken ∷ []) empty).capabilities
        ≡ capability_after "local.broken"
            (files ∷ broken ∷ [])
            (get "local.broken" empty.capabilities))
start-registers_example = start-registers (files ∷ broken ∷ []) empty "local.broken"
