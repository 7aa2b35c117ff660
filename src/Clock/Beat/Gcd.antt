-- ===== src/Clock/Beat/Gcd.antt =====
-- The loop of gcd returns the greatest common divisor (internal/clock/beat.go).
use Prim.Native.Nat.{◌∣◌}
use native.Mathlib.Nat
use govertone.Common.{
  ℕ, zero, suc, ◌+◌, ◌*◌, ◌/◌, ◌%◌, ◌<◌, ◌≡◌, ◌≢◌, refl, ap, subst, inl, inr, Bool-cases, ◌==◌,
  arith,
}
use govertone.Clock.Beat.{gcd_loop, gcd}

gcd_loop-dvd : (k a b : ℕ) → b < k → (gcd_loop k a b ∣ a) × (gcd_loop k a b ∣ b)
unfolding gcd_loop
gcd_loop-dvd zero a b f = absurd (omega arith)
gcd_loop-dvd (suc k) a b f = elim (Bool-cases (b == 0)) [
  | inl e ↦ let z : b ≡ 0 = ground arith in rw e (Nat.dvd_refl a, rw z (Nat.dvd-zero a))
  | inr e ↦
      let pos : 0 < b = ground arith in
      let (left, right) = gcd_loop-dvd k b (a % b) (grind arith) in
      rw e ((Nat.dvd-mod_iff _ left).0 right, left)
]

-- A divisor of both multiples divides the multiple of the result.
dvd-gcd_loop : (d c k a b : ℕ) → b < k → d ∣ a * c → d ∣ b * c → d ∣ gcd_loop k a b * c
unfolding gcd_loop
dvd-gcd_loop d c zero a b f p q = absurd (omega arith)
dvd-gcd_loop d c (suc k) a b f p q = elim (Bool-cases (b == 0)) [
  | inl e ↦ rw e p
  | inr e ↦
      let pos : 0 < b = ground arith in
      let split : a * c ≡ b * c * (a / b) + a % b * c =
        omega (arith, ap (λ (t : ℕ). t * c) (Nat.div-add-mod a b)) in
      let rest =
        (Nat.dvd-add_iff_right d (Nat.dvd-mul_right_of_dvd d q (a / b))).1
          (subst (◌∣◌ d) split p) in
      rw e (dvd-gcd_loop d c k b (a % b) (grind arith) q rest)
]

module _ (a b : ℕ) (h : a ≢ 0) where
  gcd_eq : gcd a b ≡ gcd_loop (suc b) a b
  unfolding gcd
  gcd_eq = ground arith

  pub gcd-dvd : (gcd a b ∣ a) × (gcd a b ∣ b)
  gcd-dvd = rw gcd_eq (gcd_loop-dvd (suc b) a b (omega arith))

  pub dvd-gcd-mul : (d c : ℕ) → d ∣ a * c → d ∣ b * c → d ∣ gcd a b * c
  dvd-gcd-mul d c p q = rw gcd_eq (dvd-gcd_loop d c (suc b) a b (omega arith) p q)

  pub gcd_pos : 0 < gcd a b
  gcd_pos = Nat.pos_of_dvd_of_pos gcd-dvd.0 (omega arith)

pub gcd-zero : (b : ℕ) → gcd 0 b ≡ 1
unfolding gcd
gcd-zero b = refl
