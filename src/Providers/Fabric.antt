-- ===== src/Providers/Fabric.antt =====
-- src/shyam/providers/fabric.py. A local provider is what the fabric reads of it, with whether its
-- `initialize` returns or raises.
use shyam.Base.{ℕ, Bool, true, false, List, [], ◌∷◌, if◌then◌else◌, length}
use shyam.Base.Dict
use shyam.Base.Dict.{Dict}
use shyam.Capabilities.{AvailabilityStatus, Capability}
use shyam.Capabilities.Registry.{CapabilityRegistry, contains, register_capability}
use shyam.Providers.{Provider}
use shyam.Providers.Registry.{ProviderRegistry, register_provider}

pub record LocalProvider : Type 0 where
  pub descriptor : Provider
  pub capability_definitions : List Capability
  pub initializes : Bool

pub record LocalProviderFabric : Type 0 where
  pub capabilities : CapabilityRegistry
  pub providers : ProviderRegistry
  pub instances : Dict LocalProvider

unfoldable pub provider_count : LocalProviderFabric → ℕ
provider_count f = length f.instances

-- `_ensure_capabilities`: no registered capability is registered again.
unfoldable pub ensure_capabilities : List Capability → CapabilityRegistry → CapabilityRegistry
unfolding contains register_capability
ensure_capabilities [] r = r
ensure_capabilities (cap ∷ caps) r =
    ensure_capabilities caps
      (if contains cap.capability_id r then r else (register_capability cap false r).0)

abbrev pub with_availability : Provider → AvailabilityStatus → Provider
with_availability p status = record p { availability = status }

-- The provider is registered as it is, then as AVAILABLE or UNAVAILABLE.
unfoldable pub start_provider : LocalProvider → LocalProviderFabric → LocalProviderFabric
unfolding ensure_capabilities register_provider
start_provider p f =
    let desc = p.descriptor in
    let status =
      if p.initializes then AvailabilityStatus.available else AvailabilityStatus.unavailable in
    record {
      capabilities = ensure_capabilities p.capability_definitions f.capabilities;
      providers =
          (register_provider (with_availability desc status) true
            (register_provider desc true f.providers).0).0;
      instances = Dict.put desc.provider_id p f.instances;
    }

unfoldable pub start : List LocalProvider → LocalProviderFabric → LocalProviderFabric
unfolding start_provider
start [] f = f
start (p ∷ ps) f = start ps (start_provider p f)

-- What `shutdown` raises is caught.
unfoldable pub stop : LocalProviderFabric → LocalProviderFabric
stop f = record f { instances = [] }
