-- ===== src/Base/Dict.antt =====
-- Python's `dict` with text keys: an association list in insertion order.
use Prim.Native.String.{String}
use mathlib.Core.Path.{◌≡◌, refl}
use mathlib.Core.Logic.{◌≢◌, ite}
use mathlib.Core.Option.{Option, none, some}
use mathlib.Core.List.{List, [], ◌∷◌, map}
use native.Mathlib.Omega.{arith}
use shyam.Base.Tests.{str_discrete}

abbrev pub Dict {ℓ} : Type ℓ → Type ℓ
Dict V = List (String × V)

module _ {ℓ} {V : Type ℓ} where
  -- d.get(k)
  unfoldable pub get : String → Dict V → Option V
  get k [] = none
  get k ((j, v) ∷ d) = ite (str_discrete j k) (some v) (get k d)

  -- d[k] = v: an existing key keeps its place, a new one goes to the end
  unfoldable pub put : String → V → Dict V → Dict V
  put k v [] = (k, v) ∷ []
  put k v ((j, w) ∷ d) = ite (str_discrete j k) ((j, v) ∷ d) ((j, w) ∷ put k v d)

  -- d.pop(k, None) without its result
  unfoldable pub pop : String → Dict V → Dict V
  pop k [] = []
  pop k ((j, w) ∷ d) = ite (str_discrete j k) (pop k d) ((j, w) ∷ pop k d)

  abbrev pub keys : Dict V → List String
  keys = map (λ e. e.0)

  -- d.values()
  abbrev pub values : Dict V → List V
  values = map (λ e. e.1)

  pub get-put :
      (j k : String) (v : V) (d : Dict V)
      → get j (put k v d) ≡ ite (str_discrete k j) (some v) (get j d)
  unfolding get put
  get-put j k v [] = refl
  get-put j k v ((i, w) ∷ d) = ground (arith, get-put j k v d)

  pub get-put_self : (k : String) (v : V) (d : Dict V) → get k (put k v d) ≡ some v
  get-put_self k v d = ground (arith, get-put k k v d)

  pub get-put_ne : (j k : String) (v : V) (d : Dict V) → k ≢ j → get j (put k v d) ≡ get j d
  get-put_ne j k v d h = ground (arith, get-put j k v d)

  pub get-pop :
      (j k : String) (d : Dict V) → get j (pop k d) ≡ ite (str_discrete k j) none (get j d)
  unfolding get pop
  get-pop j k [] = ground arith
  get-pop j k ((i, w) ∷ d) = ground (arith, get-pop j k d)
