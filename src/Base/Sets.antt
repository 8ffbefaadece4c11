-- ===== src/Base/Sets.antt =====
-- Python's sets of texts: lists without repetitions, such as the keys of a dict.
use Prim.Native.String.{String}
use mathlib.Core.Path.{◌≡◌, refl}
use mathlib.Core.Logic.{ite}
use native.Mathlib.Omega.{arith}
use mathlib.Core.Bool.{Bool, true, false}
use mathlib.Core.List.{List, [], ◌∷◌}
use mathlib.Core.Option.{some}
use shyam.Base.Lists.{All}
use shyam.Base.Dict
use shyam.Base.Dict.{Dict}
use shyam.Base.Tests.{str_discrete, if◌then◌else◌}

-- `x in xs`
unfoldable pub elem : String → List String → Bool
elem x [] = false
elem x (y ∷ ys) = ite (str_discrete y x) true (elem x ys)

-- `set(xs) | set(ys)`
unfoldable pub union : List String → List String → List String
unfolding elem
union [] ys = ys
union (x ∷ xs) ys = let rest = union xs ys in if elem x rest then rest else x ∷ rest

-- A dict has each key once.
abbrev pub IsDict {ℓ} : {V : Type ℓ} → Dict V → Type 0
IsDict [] = Unit
IsDict ((k, v) ∷ d) = (elem k (Dict.keys d) ≡ false) × IsDict d

pub elem-put :
    {V : Type 0} (j k : String) (v : V) (d : Dict V)
    → elem j (Dict.keys (Dict.put k v d))
      ≡ (if elem j (Dict.keys d) then true else ite (str_discrete k j) true false)
unfolding elem Dict.put
elem-put j k v [] = ground arith
elem-put j k v ((i, w) ∷ d) = ground (arith, elem-put j k v d)

pub put-IsDict : {V : Type 0} (k : String) (v : V) (d : Dict V) → IsDict d → IsDict (Dict.put k v d)
unfolding elem Dict.put
put-IsDict k v [] h = (refl, tt)
put-IsDict k v ((i, w) ∷ d) h =
    elim (str_discrete i k) as (λ c. IsDict (ite c ((i, v) ∷ d) ((i, w) ∷ Dict.put k v d))) [
      | yes p ↦ h
      | no n ↦ (ground (arith, elem-put i k v d, h.0), put-IsDict k v d h.1)
    ]

elem-get :
    {V : Type 0} (k : String) (v : V) (d : Dict V)
    → Dict.get k d ≡ some v
    → elem k (Dict.keys d) ≡ true
unfolding Dict.get elem
elem-get k v [] h = ground (arith, h)
elem-get k v ((j, w) ∷ d) h = ground (arith, h, elem-get k v d)

get-cons :
    {V : Type 0} (k j : String) (v w : V) (d : Dict V)
    → elem j (Dict.keys d) ≡ false
    → Dict.get k d ≡ some v
    → Dict.get k ((j, w) ∷ d) ≡ some v
unfolding Dict.get
get-cons k j v w d n h = ground (arith, n, h, elem-get k v d h)

-- What holds of every lookup holds of every entry.
pub All-entries :
    {V : Type 0} {P : String → V → Type 0} (d : Dict V)
    → IsDict d
    → ((k : String) (v : V) → Dict.get k d ≡ some v → P k v)
    → All (λ e. P e.0 e.1) d
unfolding Dict.get
All-entries [] i f = tt
All-entries ((j, w) ∷ d) i f =
    (f j w (ground arith), All-entries d i.1 (λ k v h. f k v (get-cons k j v w d i.0 h)))
