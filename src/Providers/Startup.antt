-- ===== src/Providers/Startup.antt =====
-- src/shyam/providers/fabric.py: what `start` leaves in the two registries, told without its loop.
use shyam.Base.{
  String, true, false, ◌≡◌, refl, ◌∙◌, ap, Option, none, some, List, [], ◌∷◌, ite, if◌then◌else◌,
  str_discrete, arith,
}
use shyam.Base.Dict.{get-put}
use shyam.Capabilities.{AvailabilityStatus, Capability}
use shyam.Capabilities.Registry.{
  Registry, CapabilityRegistry, get, contains, set_entry, register_over, register,
  register_capability,
}
use shyam.Providers.{Provider}
use shyam.Providers.Fabric.{
  LocalProvider, LocalProviderFabric, ensure_capabilities, with_availability, start_provider, start,
}
use shyam.Providers.Registry.{ProviderRegistry, register_provider}

-- The availability that a provider is given: as its `initialize` went.
abbrev pub outcome : LocalProvider → AvailabilityStatus
outcome p = if p.initializes then AvailabilityStatus.available else AvailabilityStatus.unavailable

-- The last of the started providers with an id decides, and before any what was registered.
unfoldable pub provider_after : String → List LocalProvider → Option Provider → Option Provider
provider_after id [] before = before
provider_after id (p ∷ ps) before = provider_after id ps (
    ite (str_discrete p.descriptor.provider_id id)
      (some (with_availability p.descriptor (outcome p))) before)

-- The first registered or declared capability with an id decides.
unfoldable pub capability_among : String → List Capability → Option Capability → Option Capability
capability_among id [] before = before
capability_among id (cap ∷ caps) before = capability_among id caps (elim before [
  | some c ↦ some c
  | none ↦ ite (str_discrete cap.capability_id id) (some cap) none
])

unfoldable pub capability_after :
    String → List LocalProvider → Option Capability → Option Capability
unfolding capability_among
capability_after id [] before = before
capability_after id (p ∷ ps) before =
    capability_after id ps (capability_among id p.capability_definitions before)

get-register :
    {A : Type 0} (id_of : A → String) (status_of : A → AvailabilityStatus) (id : String) (entry : A)
    (r : Registry A)
    → get id (register id_of status_of entry true r).0
      ≡ ite (str_discrete (id_of entry) id) (some entry) (get id r)
unfolding register register_over set_entry get
get-register id_of status_of id entry r = ground (arith, get-put id (id_of entry) entry r.entries)

get-register_provider :
    (id : String) (p : Provider) (r : ProviderRegistry)
    → get id (register_provider p true r).0
      ≡ ite (str_discrete p.provider_id id) (some p) (get id r)
unfolding register_provider
get-register_provider id p r = get-register (λ x. x.provider_id) (λ x. x.availability) id p r

overwritten :
    {P : Type 0} (d : Dec P) (x y y' z : Option Provider) → y ≡ ite d z y' → ite d x y ≡ ite d x y'
overwritten (yes p) x y y' z h = refl
overwritten (no n) x y y' z h = h

get-start_provider :
    (id : String) (p : LocalProvider) (f : LocalProviderFabric)
    → get id (start_provider p f).providers
      ≡ ite
          (str_discrete p.descriptor.provider_id id)
          (some (with_availability p.descriptor (outcome p)))
          (get id f.providers)
unfolding start_provider
get-start_provider id p f =
    let twice = get-register_provider id p.descriptor f.providers in
    let desc = with_availability p.descriptor (outcome p) in
    get-register_provider id desc (register_provider p.descriptor true f.providers).0
    ∙ overwritten (str_discrete p.descriptor.provider_id id) (some desc) _ _ _ twice

ensure_one :
    (id : String) (cap : Capability) (r : CapabilityRegistry)
    → get id (if contains cap.capability_id r then r else (register_capability cap false r).0)
      ≡ elim (get id r) [
        | some c ↦ some c
        | none ↦ ite (str_discrete cap.capability_id id) (some cap) none
      ]
unfolding contains register_capability register register_over set_entry get
ensure_one id cap r = ground (arith, get-put id cap.capability_id cap r.entries)

get-ensure_capabilities :
    (id : String) (caps : List Capability) (r : CapabilityRegistry)
    → get id (ensure_capabilities caps r) ≡ capability_among id caps (get id r)
unfolding ensure_capabilities capability_among
get-ensure_capabilities id [] r = refl
get-ensure_capabilities id (cap ∷ caps) r =
    get-ensure_capabilities id caps _ ∙ ap (capability_among id caps) (ensure_one id cap r)

-- After the fabric has started some providers, a provider id stands for the last of them with that id,
-- AVAILABLE if it initialized and UNAVAILABLE if not, and for what it stood for before if there is
-- none; a capability id stands for what it stood for before, or else for the first that a
-- provider declares with it.
pub start-registers :
    (ps : List LocalProvider) (f : LocalProviderFabric) (id : String)
    → (get id (start ps f).providers ≡ provider_after id ps (get id f.providers))
      × (get id (start ps f).capabilities ≡ capability_after id ps (get id f.capabilities))
unfolding start provider_after capability_after
start-registers [] f id = (refl, refl)
start-registers (p ∷ ps) f id =
    let (providers, capabilities) = start-registers ps (start_provider p f) id in
    (
      providers ∙ ap (provider_after id ps) (get-start_provider id p f),
      capabilities
          ∙ ap (capability_after id ps) (
              unfold start_provider in
              get-ensure_capabilities id p.capability_definitions f.capabilities),
    )
