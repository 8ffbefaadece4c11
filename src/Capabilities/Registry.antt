-- ===== src/Capabilities/Registry.antt =====
-- src/shyam/capabilities/registry.py. The registry of providers is the same code over providers, so the
-- methods are generic in what is registered: `id_of` gives an entry's id, `status_of` its availability.
use shyam.Base.{
  ℕ, String, ◌<>◌, Bool, true, false, ◌&&◌, Option, none, some, List, [], ◌∷◌, ite, if◌then◌else◌,
  str_discrete, keep, length,
}
use shyam.Base.Dict
use shyam.Base.Dict.{Dict}
use shyam.Base.Text.{starts_with}
use shyam.Capabilities.{AvailabilityStatus, status_discrete, Capability}

pub data RegistryError : Type 0 where
  duplicate not_found : String → RegistryError

-- Registered, updated with the availability it had, and unregistered.
pub data RegistryEvent {ℓ} (A : Type ℓ) : Type ℓ where
  registered : String → A → RegistryEvent A
  updated : String → A → Option AvailabilityStatus → RegistryEvent A
  unregistered : String → RegistryEvent A

-- `has_bus` tells whether the registry was given an event bus.
pub record Registry {ℓ} (A : Type ℓ) : Type ℓ where
  pub entries : Dict A
  pub has_bus : Bool

-- The new registry, a result or an error, and what was published.
pub data Reply {ℓ κ} (A : Type ℓ) (B : Type κ) : Type (ℓ ⊔ κ) where
  done : B → List (RegistryEvent A) → Reply A B
  raised : RegistryError → Reply A B

module _ {A : Type 0} where
  unfoldable pub get : String → Registry A → Option A
  get id r = Dict.get id r.entries

  unfoldable pub contains : String → Registry A → Bool
  unfolding get
  contains id r = elim (get id r) [ none ↦ false | some _ ↦ true ]

  unfoldable pub count : Registry A → ℕ
  count r = length r.entries

  unfoldable pub list_all : Registry A → List A
  list_all r = Dict.values r.entries

  unfoldable pub published : Registry A → List (RegistryEvent A) → List (RegistryEvent A)
  published r events = if r.has_bus then events else []

  unfoldable pub set_entry : String → A → Registry A → Registry A
  set_entry id entry r = record r { entries = Dict.put id entry r.entries }

  module _ (id_of : A → String) (status_of : A → AvailabilityStatus) where
    -- What `register` does, by the entry that the id has.
    unfoldable pub register_over :
        A → Bool → Registry A → Option A → Registry A × Reply A (Unit {0})
    unfolding set_entry published
    register_over entry overwrite r none = (
      set_entry (id_of entry) entry r,
      done tt (published r (registered (id_of entry) entry ∷ [])),
    )
    register_over entry overwrite r (some previous) =
        if overwrite
        then (
          set_entry (id_of entry) entry r,
          done tt (published r (updated (id_of entry) entry (some (status_of previous)) ∷ [])),
        )
        else (r, raised (duplicate (id_of entry)))

    unfoldable pub register : A → Bool → Registry A → Registry A × Reply A (Unit {0})
    unfolding get register_over
    register entry overwrite r = register_over entry overwrite r (get (id_of entry) r)

    -- `namespace and not id.startswith(f"{namespace}.")`, the other way round.
    unfoldable pub in_namespace : Option String → A → Bool
    unfolding starts_with
    in_namespace none entry = true
    in_namespace (some namespace) entry =
        ite (str_discrete namespace "") true (starts_with (namespace <> ".") (id_of entry))

    unfoldable pub has_status : Option AvailabilityStatus → A → Bool
    has_status none entry = true
    has_status (some status) entry = ite (status_discrete (status_of entry) status) true false

    unfoldable pub find : Option String → Option AvailabilityStatus → Registry A → List A
    unfolding in_namespace has_status
    find namespace availability r =
        keep (λ e. in_namespace namespace e && has_status availability e) (Dict.values r.entries)

  unfoldable pub unregister : String → Registry A → Registry A × Reply A A
  unfolding get published
  unregister id r = elim (get id r) [
    | none ↦ (r, raised (not_found id))
    | some entry ↦ (
      record r { entries = Dict.pop id r.entries },
      done entry (published r (unregistered id ∷ [])),
    )
  ]

abbrev pub CapabilityRegistry : Type 0
CapabilityRegistry = Registry Capability

unfoldable pub register_capability :
    Capability → Bool → CapabilityRegistry → CapabilityRegistry × Reply Capability (Unit {0})
unfolding register
register_capability = register (λ c. c.capability_id) (λ c. c.availability)

unfoldable pub find_capabilities :
    Option String → Option AvailabilityStatus → CapabilityRegistry → List Capability
unfolding find
find_capabilities = find (λ c. c.capability_id) (λ c. c.availability)
