-- ===== src/Prelude/Classes.antt =====
-- The constraints of Go's type parameters: `cmp.Ordered` and `comparable`.
use Prim.Native.Nat.{ℕ}
use mathlib.Core.Path.{◌≡◌}
use mathlib.Core.Bool.{Bool, true, false, not, ◌&&◌}
use native.Mathlib.Omega.{arith}
use arcgo.Prelude.Tests.{ltb as nat_ltb, ◌==◌ as nat_beq}

-- `cmp.Ordered` with `<` a strict total order (every value but a floating-point NaN).
pub record Ordered {ℓ} (T : Type ℓ) : Type ℓ where
  pub lt : T → T → Bool
  pub lt_irrefl : (a : T) → lt a a ≡ false
  pub lt_trans : (a b c : T) → lt a b ≡ true → lt b c ≡ true → lt a c ≡ true
  pub lt_total : (a b : T) → lt a b ≡ false → lt b a ≡ false → a ≡ b

infix 50 ◌<?◌ ◌≤?◌ ◌=?◌
abbrev pub ◌<?◌ {ℓ} : {T : Type ℓ} ⦃o : Ordered T⦄ → T → T → Bool
◌<?◌ ⦃o⦄ = o.lt

abbrev pub ◌≤?◌ {ℓ} : {T : Type ℓ} ⦃o : Ordered T⦄ → T → T → Bool
◌≤?◌ ⦃o⦄ a b = not (o.lt b a)

abbrev pub ◌=?◌ {ℓ} : {T : Type ℓ} ⦃o : Ordered T⦄ → T → T → Bool
◌=?◌ ⦃o⦄ a b = not (o.lt a b) && not (o.lt b a)

pub nat_lt_total : (a b : ℕ) → nat_ltb a b ≡ false → nat_ltb b a ≡ false → a ≡ b
nat_lt_total a b h k = ground arith

pub nat_lt_trans : (a b c : ℕ) → nat_ltb a b ≡ true → nat_ltb b c ≡ true → nat_ltb a c ≡ true
nat_lt_trans a b c h k = ground arith

pub nat_lt_irrefl : (a : ℕ) → nat_ltb a a ≡ false
nat_lt_irrefl a = ground arith

instance abbrev pub nat_ordered : Ordered ℕ
nat_ordered = record {
  lt = nat_ltb;
  lt_irrefl = nat_lt_irrefl;
  lt_trans = nat_lt_trans;
  lt_total = nat_lt_total;
}

-- `comparable`: keys with a test that decides which of them are the same.
pub record Comparable {ℓ} (K : Type ℓ) : Type ℓ where
  pub same : K → K → Bool
  pub same_refl : (k : K) → same k k ≡ true
  pub same_sound : (j k : K) → same j k ≡ true → j ≡ k

pub nat_same_refl : (k : ℕ) → nat_beq k k ≡ true
nat_same_refl k = ground arith

pub nat_same_sound : (j k : ℕ) → nat_beq j k ≡ true → j ≡ k
nat_same_sound j k h = ground arith

instance abbrev pub nat_comparable : Comparable ℕ
nat_comparable = record { same = nat_beq; same_refl = nat_same_refl; same_sound = nat_same_sound }

-- Go's zero value of a type, which the code writes over removed entries.
pub record Zero {ℓ} (A : Type ℓ) : Type ℓ where
  pub zero_value : A

instance abbrev pub nat_zero : Zero ℕ
nat_zero = record { zero_value = 0 }
