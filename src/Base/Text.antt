-- ===== src/Base/Text.antt =====
-- Python's operations on texts that the validators and the ranking use, by code points.
use Prim.Native.Nat.{ℕ, zero, suc, compare, Ordering}
use Prim.Native.Char.{code}
use Prim.Native.String.{String}
use mathlib.Core.Path.{◌≡◌, refl, ap₂}
use text.Mathlib.TextEquality.{Char-path}
use mathlib.Core.Logic.{◌⊎◌, inl, inr}
use mathlib.Core.Bool.{Bool, true, false}
use mathlib.Core.List.{List, [], ◌∷◌}
use native.Mathlib.Omega.{arith}

-- The code points of a text.
abbrev pub codes : String → List ℕ
codes String.[] = []
codes (String.◌∷◌ c s) = code c ∷ codes s

-- `a <= b` on texts, which Python compares code point by code point.
abbrev pub le_codes : List ℕ → List ℕ → Bool
le_codes [] ys = true
le_codes (a ∷ xs) [] = false
le_codes (a ∷ xs) (b ∷ ys) = elim (compare a b) [
  | Ordering.lt ↦ true
  | Ordering.eq ↦ le_codes xs ys
  | Ordering.gt ↦ false
]

pub le_codes_total : (xs ys : List ℕ) → (le_codes xs ys ≡ true) ⊎ (le_codes ys xs ≡ true)
le_codes_total [] ys = inl refl
le_codes_total (a ∷ xs) [] = inr refl
le_codes_total (a ∷ xs) (b ∷ ys) = ground (arith, le_codes_total xs ys)

pub le_codes_trans :
    (xs ys zs : List ℕ) → le_codes xs ys ≡ true → le_codes ys zs ≡ true → le_codes xs zs ≡ true
le_codes_trans [] ys zs h k = refl
le_codes_trans (a ∷ xs) (b ∷ ys) (c ∷ zs) h k = ground (arith, le_codes_trans xs ys zs)
le_codes_trans (a ∷ xs) [] zs h k = cc
le_codes_trans (a ∷ xs) (b ∷ ys) [] h k = cc

pub le_codes_antisymm : (xs ys : List ℕ) → le_codes xs ys ≡ true → le_codes ys xs ≡ true → xs ≡ ys
le_codes_antisymm [] [] h k = refl
le_codes_antisymm [] (b ∷ ys) h k = cc
le_codes_antisymm (a ∷ xs) [] h k = cc
le_codes_antisymm (a ∷ xs) (b ∷ ys) h k = ground (arith, le_codes_antisymm xs ys)

pub codes-injective : (s t : String) → codes s ≡ codes t → s ≡ t
codes-injective String.[] String.[] h = refl
codes-injective String.[] (String.◌∷◌ d t) h = cc
codes-injective (String.◌∷◌ c s) String.[] h = cc
codes-injective (String.◌∷◌ c s) (String.◌∷◌ d t) h =
    ap₂ String.◌∷◌ (Char-path c d (cc)) (codes-injective s t (cc))

unfoldable pub le_str : String → String → Bool
le_str s t = le_codes (codes s) (codes t)

pub le_str_total : (s t : String) → (le_str s t ≡ true) ⊎ (le_str t s ≡ true)
unfolding le_str
le_str_total s t = le_codes_total (codes s) (codes t)

pub le_str_trans : (s t u : String) → le_str s t ≡ true → le_str t u ≡ true → le_str s u ≡ true
unfolding le_str
le_str_trans s t u = le_codes_trans (codes s) (codes t) (codes u)

pub le_str_antisymm : (s t : String) → le_str s t ≡ true → le_str t s ≡ true → s ≡ t
unfolding le_str
le_str_antisymm s t h k = codes-injective s t (le_codes_antisymm (codes s) (codes t) h k)

-- `'.' in v`
unfoldable pub has_dot : List ℕ → Bool
has_dot [] = false
has_dot (c ∷ cs) = elim (compare c 46) [ Ordering.eq ↦ true | _ ↦ has_dot cs ]

-- `not (not v or "." not in v)`, the test of a namespaced identifier
unfoldable pub is_namespaced : String → Bool
unfolding has_dot
is_namespaced v = has_dot (codes v)

-- `s[:n]`
unfoldable pub first_chars : ℕ → String → String
first_chars zero s = String.[]
first_chars (suc n) String.[] = String.[]
first_chars (suc n) (String.◌∷◌ c s) = String.◌∷◌ c (first_chars n s)

-- `s.startswith(prefix)`
unfoldable pub starts_with : String → String → Bool
starts_with String.[] s = true
starts_with (String.◌∷◌ c p) String.[] = false
starts_with (String.◌∷◌ c p) (String.◌∷◌ d s) = elim (compare (code c) (code d)) [
  | Ordering.eq ↦ starts_with p s
  | _ ↦ false
]
