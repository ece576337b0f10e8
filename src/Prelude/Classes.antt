-- ===== src/Prelude/Classes.antt =====
-- Equality tests: one operator for numbers, texts and the enumerations of the program.
use text.Mathlib.TextEquality.{eq_iff}
use text.Mathlib.Text.{◌==◌ as text_test}
use workforce.Prelude.Tests.{◌==◌ as number_test, ==_iff}
use mathlib.Core.Bool.{Bool, true}
use mathlib.Core.Logic.{◌↔◌}
use mathlib.Core.Path.{◌≡◌}
use Prim.Native.Nat.{ℕ}
use Prim.Native.String.{String}

-- A test, and that it holds for equal values only.
pub record Eq {ℓ} (K : Type ℓ) : Type ℓ where
  pub test : K → K → Bool
  pub decides : (k j : K) → (test k j ≡ true) ↔ (k ≡ j)

instance abbrev pub string_eq : Eq String
string_eq = record { test = text_test; decides = eq_iff }

instance abbrev pub nat_eq : Eq ℕ
nat_eq = record { test = number_test; decides = ==_iff }

module _ {ℓ} {K : Type ℓ} ⦃eq : Eq K⦄ where
  infix 50 ◌==◌
  abbrev pub ◌==◌ : K → K → Bool
  k == j = eq.test k j
