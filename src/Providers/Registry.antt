-- ===== src/Providers/Registry.antt =====
-- src/shyam/providers/registry.py: the code of the capability registry, over providers.
use shyam.Base.{String, Bool, Option, List, keep}
use shyam.Base.Dict
use shyam.Base.Sets.{elem}
use shyam.Capabilities.{AvailabilityStatus}
use shyam.Capabilities.Registry.{Registry, Reply, register, unregister, find}
use shyam.Providers.{Provider}

abbrev pub ProviderRegistry : Type 0
ProviderRegistry = Registry Provider

unfoldable pub register_provider :
    Provider → Bool → ProviderRegistry → ProviderRegistry × Reply Provider (Unit {0})
unfolding register
register_provider = register (λ p. p.provider_id) (λ p. p.availability)

unfoldable pub unregister_provider :
    String → ProviderRegistry → ProviderRegistry × Reply Provider Provider
unfolding unregister
unregister_provider = unregister

unfoldable pub find_providers :
    Option String → Option AvailabilityStatus → ProviderRegistry → List Provider
unfolding find
find_providers = find (λ p. p.provider_id) (λ p. p.availability)

unfoldable pub find_by_capability : String → ProviderRegistry → List Provider
unfolding elem
find_by_capability id r = keep (λ p. elem id p.capabilities) (Dict.values r.entries)
