-- ===== src/Base/Tests.antt =====
-- Boolean tests, the conditional, and the decisions on texts and options that branches use.
use Prim.Native.Nat.{ℕ, compare, Ordering}
use Prim.Native.String.{String}
use mathlib.Core.Path.{◌≡◌, refl}
use mathlib.Core.Logic.{◌↔◌, ◌⊎◌, inl, inr}
use mathlib.Core.Bool.{Bool, true, false, false≢true}
use mathlib.Core.Option.{Option, none, some}
use text.Mathlib.Text.{◌==◌}
use text.Mathlib.TextEquality.{eq_iff}

abbrev pub ltb : ℕ → ℕ → Bool
ltb a b = elim (compare a b) [ Ordering.lt ↦ true | _ ↦ false ]

abbrev pub leb : ℕ → ℕ → Bool
leb a b = elim (compare a b) [ Ordering.gt ↦ false | _ ↦ true ]

infix 1 if◌then◌else◌
abbrev pub if◌then◌else◌ {ℓ} : {A : Type ℓ} → Bool → A → A → A
if true then x else y = x
if false then x else y = y

-- To split on a computed value and keep the equation.
pub Bool-cases : (b : Bool) → (b ≡ true) ⊎ (b ≡ false)
Bool-cases true = inl refl
Bool-cases false = inr refl

pub Option-cases {ℓ} : {A : Type ℓ} (o : Option A) → (o ≡ none) ⊎ ((a : A) × (o ≡ some a))
Option-cases none = inl refl
Option-cases (some a) = inr (a, refl)

abbrev of_test {ℓ} : {P : Type ℓ} (b : Bool) → ((b ≡ true) ↔ P) → Dec P
of_test true e = yes (e.0 refl)
of_test false e = no (λ p. false≢true (e.1 p))

-- Python's `==` on texts, as a decision.
unfoldable pub str_discrete : Discrete String
str_discrete s t = of_test (s == t) (eq_iff s t)

-- Python's `==` on `str | None`.
unfoldable pub opt_discrete : Discrete (Option String)
unfolding str_discrete
opt_discrete none none = yes refl
opt_discrete none (some b) = no (λ h. cc)
opt_discrete (some a) none = no (λ h. cc)
opt_discrete (some a) (some b) = elim (str_discrete a b) [
  | yes p ↦ yes (λ i. some (p i))
  | no d ↦ no (λ h. d (cc))
]
