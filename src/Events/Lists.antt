-- ===== src/Events/Lists.antt =====
-- Lists of handlers without repetitions.
use shyam.Base.{
  String, Bool, true, false, ◌≡◌, ◌≢◌, refl, List, [], ◌∷◌, ◌++◌, ite, if◌then◌else◌, str_discrete,
  arith,
}
use shyam.Base.Dict
use shyam.Base.Dict.{Dict, get-put}
use shyam.Base.Sets.{elem}
use shyam.Events.Bus.{added, remove, removed}

abbrev pub IsDistinct : List String → Type 0
IsDistinct [] = Unit
IsDistinct (x ∷ xs) = (elem x xs ≡ false) × IsDistinct xs

pub elem-append_one :
    (x y : String) (xs : List String)
    → elem x (xs ++ (y ∷ [])) ≡ (if elem x xs then true else ite (str_discrete y x) true false)
unfolding elem
elem-append_one x y [] = ground arith
elem-append_one x y (z ∷ xs) = ground (arith, elem-append_one x y xs)

pub append_one-IsDistinct :
    (y : String) (xs : List String)
    → IsDistinct xs
    → elem y xs ≡ false
    → IsDistinct (xs ++ (y ∷ []))
unfolding elem
append_one-IsDistinct y [] h n = (refl, tt)
append_one-IsDistinct y (x ∷ xs) h n = (
  ground (arith, elem-append_one x y xs, h.0, n),
  append_one-IsDistinct y xs h.1 (ground (arith, n)),
)

pub elem-remove_ne : (x y : String) (xs : List String) → y ≢ x → elem x (remove y xs) ≡ elem x xs
unfolding elem remove
elem-remove_ne x y [] n = refl
elem-remove_ne x y (z ∷ xs) n = ground (arith, n, elem-remove_ne x y xs n)

pub elem-remove :
    (x y : String) (xs : List String)
    → IsDistinct xs
    → elem x (remove y xs) ≡ ite (str_discrete y x) false (elem x xs)
unfolding elem remove
elem-remove x y [] h = ground arith
elem-remove x y (z ∷ xs) h = ground (arith, h.0, elem-remove x y xs h.1)

pub remove-IsDistinct : (y : String) (xs : List String) → IsDistinct xs → IsDistinct (remove y xs)
unfolding elem remove
remove-IsDistinct y [] h = tt
remove-IsDistinct y (x ∷ xs) h =
    elim (str_discrete x y) as (λ d. IsDistinct (ite d xs (x ∷ remove y xs))) [
      | yes p ↦ h.1
      | no n ↦ (ground (arith, n, h.0, elem-remove x y xs h.1), remove-IsDistinct y xs h.1)
    ]

pub elem-added :
    (x y : String) (xs : List String)
    → elem x (added y xs) ≡ ite (str_discrete y x) true (elem x xs)
unfolding added
elem-added x y xs = ground (arith, elem-append_one x y xs)

added_when :
    (y : String) (xs : List String) (c : Bool)
    → IsDistinct xs
    → elem y xs ≡ c
    → IsDistinct (if c then xs else xs ++ (y ∷ []))
added_when y xs true h e = h
added_when y xs false h e = append_one-IsDistinct y xs h e

pub added-IsDistinct : (y : String) (xs : List String) → IsDistinct xs → IsDistinct (added y xs)
unfolding added
added-IsDistinct y xs h = added_when y xs (elem y xs) h refl

pub elem-removed :
    (x y : String) (xs : List String)
    → IsDistinct xs
    → elem x (removed y xs) ≡ ite (str_discrete y x) false (elem x xs)
unfolding removed
elem-removed x y xs h = ground (arith, elem-remove x y xs h)

pub removed-IsDistinct : (y : String) (xs : List String) → IsDistinct xs → IsDistinct (removed y xs)
unfolding removed
removed-IsDistinct y xs h = elim (elem y xs) as (λ c. IsDistinct (if c then remove y xs else xs)) [
  | true ↦ remove-IsDistinct y xs h
  | false ↦ h
]

-- The keys of a dict, and one more.
unfoldable pub noted : String → List String → List String
unfolding elem
noted k ks = if elem k ks then ks else ks ++ (k ∷ [])

pub keys-put :
    {V : Type 0} (k : String) (v : V) (d : Dict V)
    → Dict.keys (Dict.put k v d) ≡ noted k (Dict.keys d)
unfolding noted elem Dict.put
keys-put k v [] = refl
keys-put k v ((j, w) ∷ d) = ground (arith, keys-put k v d)
