-- ===== src/Common/Int.antt =====
-- Signed integers over the native numbers, under the library's names.
use Prim.Native.Nat.{ℕ, zero, suc, ◌/◌, ◌+◌, ◌-◌, ◌*◌, ◌^◌, ◌≤◌, ◌<◌}
use mathlib.Core.Path.{◌≡◌, refl}
use mathlib.Core.Logic.{◌⊎◌, inl, inr, ◌↔◌}
use mathlib.Core.Bool.{Bool, true}
use native.Mathlib.Omega.{arith}
use govertone.Common.Tests.{ltb, leb, ◌==◌, if◌then◌else◌}

-- The values of a uint64 are the numbers below this one.
abbrev pub u64_mod : ℕ
u64_mod = 2 ^ 64

-- `negsuc n` is -(n + 1).
pub data ℤ : Type 0 where
  pos : ℕ → ℤ
  negsuc : ℕ → ℤ

abbrev pub pos_part : ℤ → ℕ
pos_part (pos n) = n
pos_part (negsuc n) = 0

abbrev pub neg_part : ℤ → ℕ
neg_part (pos n) = 0
neg_part (negsuc n) = suc n

-- a - b, as an integer.
abbrev pub sub_ℕ : ℕ → ℕ → ℤ
sub_ℕ a b = if leb b a then pos (a - b) else negsuc (b - a - 1)

infixl 65 ◌+ℤ◌ ◌-ℤ◌
infixl 70 ◌*ℤ◌
infix 50 ◌≤ℤ◌ ◌<ℤ◌
unfoldable pub ◌+ℤ◌ : ℤ → ℤ → ℤ
a +ℤ b = sub_ℕ (pos_part a + pos_part b) (neg_part a + neg_part b)

unfoldable pub ◌-ℤ◌ : ℤ → ℤ → ℤ
a -ℤ b = sub_ℕ (pos_part a + neg_part b) (neg_part a + pos_part b)

unfoldable pub ◌*ℤ◌ : ℤ → ℤ → ℤ
a *ℤ b =
    sub_ℕ (pos_part a * pos_part b + neg_part a * neg_part b)
      (pos_part a * neg_part b + neg_part a * pos_part b)

abbrev pub ◌≤ℤ◌ : ℤ → ℤ → Type 0
a ≤ℤ b = pos_part a + neg_part b ≤ pos_part b + neg_part a

abbrev pub ◌<ℤ◌ : ℤ → ℤ → Type 0
a <ℤ b = pos_part a + neg_part b < pos_part b + neg_part a

abbrev pub ltb_ℤ : ℤ → ℤ → Bool
ltb_ℤ a b = ltb (pos_part a + neg_part b) (pos_part b + neg_part a)

abbrev pub eqb_ℤ : ℤ → ℤ → Bool
eqb_ℤ a b = pos_part a + neg_part b == pos_part b + neg_part a

-- One lemma for each operation lets `omega` work with the operations shut, at any depth.
pub +ℤ_parts :
    (a b : ℤ)
    → pos_part (a +ℤ b) + neg_part a + neg_part b ≡ neg_part (a +ℤ b) + pos_part a + pos_part b
unfolding ◌+ℤ◌
+ℤ_parts a b = ground arith

pub -ℤ_parts :
    (a b : ℤ)
    → pos_part (a -ℤ b) + neg_part a + pos_part b ≡ neg_part (a -ℤ b) + pos_part a + neg_part b
unfolding ◌-ℤ◌
-ℤ_parts a b = ground arith

pub eq_of_parts : (a b : ℤ) → pos_part a + neg_part b ≡ pos_part b + neg_part a → a ≡ b
eq_of_parts a b h = ground arith

pub ruleset int_laws = (arith, +ℤ_parts, -ℤ_parts, eq_of_parts)

abbrev pub nat_abs : ℤ → ℕ
nat_abs (pos n) = n
nat_abs (negsuc n) = suc n

abbrev pub neg_ℤ : ℤ → ℤ
neg_ℤ (pos zero) = pos zero
neg_ℤ (pos (suc n)) = negsuc n
neg_ℤ (negsuc n) = pos (suc n)

-- An integer times a number that is not negative.
unfoldable pub scale : ℤ → ℕ → ℤ
scale a n = sub_ℕ (pos_part a * n) (neg_part a * n)

-- Go's division by a positive number, which rounds towards zero.
unfoldable pub quot : ℤ → ℕ → ℤ
quot (pos n) g = pos (n / g)
quot (negsuc n) g = neg_ℤ (pos (suc n / g))

pub scale_pos : (a : ℤ) (n : ℕ) → pos_part (scale a n) ≡ pos_part a * n
unfolding scale
scale_pos (pos m) n = ground arith
scale_pos (negsuc m) n = ground arith

pub scale_neg : (a : ℤ) (n : ℕ) → neg_part (scale a n) ≡ neg_part a * n
unfolding scale
scale_neg (pos m) n = ground arith
scale_neg (negsuc m) n = ground arith

pub neg_ℤ_pos : (a : ℤ) → pos_part (neg_ℤ a) ≡ neg_part a
neg_ℤ_pos (pos zero) = refl
neg_ℤ_pos (pos (suc n)) = refl
neg_ℤ_pos (negsuc n) = refl

pub neg_ℤ_neg : (a : ℤ) → neg_part (neg_ℤ a) ≡ pos_part a
neg_ℤ_neg (pos zero) = refl
neg_ℤ_neg (pos (suc n)) = refl
neg_ℤ_neg (negsuc n) = refl

pub nat_abs_parts : (a : ℤ) → nat_abs a ≡ pos_part a + neg_part a
nat_abs_parts (pos n) = omega arith
nat_abs_parts (negsuc n) = omega arith

-- One of the parts is zero.
pub part_zero : (a : ℤ) → (pos_part a ≡ 0) ⊎ (neg_part a ≡ 0)
part_zero (pos n) = inr refl
part_zero (negsuc n) = inl refl

pub ruleset scale_laws = (scale_pos, scale_neg, neg_ℤ_pos, neg_ℤ_neg)

pub nat_abs-scale : (a : ℤ) (n : ℕ) → nat_abs (scale a n) ≡ nat_abs a * n
nat_abs-scale a n =
    rw (nat_abs_parts (scale a n), nat_abs_parts a, scale_pos, scale_neg) (omega arith)

pub nat_abs-quot : (a : ℤ) (g : ℕ) → nat_abs (quot a g) ≡ nat_abs a / g
unfolding quot
nat_abs-quot (pos n) g = refl
nat_abs-quot (negsuc n) g = ground arith

-- A division that leaves no remainder is undone by the multiplication.
pub scale-quot : (a : ℤ) (g : ℕ) → nat_abs a / g * g ≡ nat_abs a → scale (quot a g) g ≡ a
unfolding quot
scale-quot (pos n) g h = eq_of_parts _ _ (rw (scale_pos, scale_neg) (omega (arith, h)))
scale-quot (negsuc n) g h =
    eq_of_parts _ _ (rw (scale_pos, scale_neg, neg_ℤ_pos, neg_ℤ_neg) (omega (arith, h)))

pub eqb_ℤ_iff : (a b : ℤ) → (eqb_ℤ a b ≡ true) ↔ (a ≡ b)
eqb_ℤ_iff a b = ground arith
