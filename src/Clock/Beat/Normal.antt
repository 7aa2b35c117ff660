-- ===== src/Clock/Beat/Normal.antt =====
-- Beats in lowest terms (internal/clock/beat.go): what NewBeat returns, and that a value has one
-- such beat.
use Prim.Native.Nat.{◌∣◌}
use native.Mathlib.Nat
use native.Mathlib.Decide.{ℕ_discrete}
use govertone.Common.{
  ℕ, ◌*◌, ◌/◌, ◌<◌, ◌≡◌, ◌≢◌, sym, ap, subst, ◌∙◌, inl, inr, Bool-cases, if◌then◌else◌, arith,
}
use govertone.Common.Int.{
  ℤ, pos, pos_part, neg_part, nat_abs, neg_ℤ, scale, quot, scale_pos, scale_neg, nat_abs-scale,
  nat_abs-quot, scale-quot, eq_of_parts, ltb_ℤ,
}
use govertone.Common.Result.{ok}
use govertone.Clock.Beat.{Beat, gcd, divide, new_beat, min_int64}
use govertone.Clock.Beat.Gcd.{gcd-dvd, dvd-gcd-mul, gcd_pos, gcd-zero}

-- A positive denominator that has no factor but one in common with the numerator.
pub record IsNormal (b : Beat) : Type 0 where
  pub positive : 0 < b.denominator
  pub coprime : (k : ℕ) → k ∣ nat_abs b.numerator → k ∣ b.denominator → k ≡ 1

-- The beat has the value n / d.
abbrev pub HasValue : ℤ → ℕ → Beat → Type 0
HasValue n d b = scale b.numerator d ≡ scale n b.denominator

scale_cross : (q : ℤ) (g e : ℕ) {n : ℤ} {d : ℕ} → scale q g ≡ n → e * g ≡ d → scale q d ≡ scale n e
scale_cross q g e {n} {d} p r =
    eq_of_parts _ _ (rw (← p, ← r) (simp (scale_pos, scale_neg) (omega arith)))

divide_factor :
    (n : ℤ) (d : ℕ)
    → 0 < d
    → let g = gcd (nat_abs n) d in (nat_abs n / g * g ≡ nat_abs n) × (d / g * g ≡ d) × (0 < g)
divide_factor n d p = elim (ℕ_discrete (nat_abs n) 0) [
  | yes z ↦ rw (z, gcd-zero d) (omega arith, omega arith, omega arith)
  | no h ↦
      let (gn, gd) = gcd-dvd (nat_abs n) d h in
      (Nat.div-mul_cancel _ gn, Nat.div-mul_cancel _ gd, gcd_pos (nat_abs n) d h)
]

pub divide-HasValue :
    (n : ℤ) (d : ℕ) → 0 < d → HasValue n d (divide n d) × (0 < (divide n d).denominator)
unfolding divide
divide-HasValue n d p =
    let g = gcd (nat_abs n) d in
    let (en, ed, pos_g) = divide_factor n d p in
    (scale_cross (quot n g) g (d / g) (scale-quot n g en) ed, grind (arith, ed))

divide-coprime :
    (n : ℤ) (d : ℕ)
    → 0 < d
    → nat_abs n ≢ 0
    → (k : ℕ) → k ∣ nat_abs (divide n d).numerator
    → k ∣ (divide n d).denominator
    → k ≡ 1
unfolding divide
divide-coprime n d p h k hn hd =
    let g = gcd (nat_abs n) d in
    let (gn, gd) = gcd-dvd (nat_abs n) d h in
    let up : (m : ℕ) → g ∣ m → k ∣ m / g → k * g ∣ m =
      λ m hg hk. subst (◌∣◌ (k * g)) (Nat.div-mul_cancel g hg) (Nat.mul-dvd-mul_right k hk g) in
    let both =
      dvd-gcd-mul (nat_abs n) d h (k * g) 1
        (Nat.dvd-mul_right_of_dvd (k * g) (up (nat_abs n) gn (subst (◌∣◌ k) (nat_abs-quot n g) hn))
          1)
        (Nat.dvd-mul_right_of_dvd (k * g) (up d gd hd) 1) in
    Nat.eq-one_of_dvd-one (
      Nat.dvd_of_mul-dvd-mul_right k (gcd_pos (nat_abs n) d h)
        (subst (◌∣◌ (k * g)) (Nat.mul_comm g 1) both))

den-dvd :
    (x y : Beat) → IsNormal x → HasValue y.numerator y.denominator x → x.denominator ∣ y.denominator
den-dvd x y v e = elim (ℕ_discrete (nat_abs x.numerator) 0) [
  | yes z ↦
      let one = v.coprime x.denominator (rw z (Nat.dvd-zero _)) (Nat.dvd_refl _) in
      rw one (Nat.one-dvd _)
  | no h ↦
      let d = gcd-dvd (nat_abs x.numerator) x.denominator h in
      let one = v.coprime _ d.0 d.1 in
      let crossed : nat_abs x.numerator * y.denominator ≡ nat_abs y.numerator * x.denominator =
        sym (nat_abs-scale x.numerator y.denominator)
        ∙ ap nat_abs e
        ∙ nat_abs-scale y.numerator x.denominator in
      let both =
        dvd-gcd-mul (nat_abs x.numerator) x.denominator h x.denominator y.denominator
          (rw crossed (Nat.dvd-mul_left _ _)) (Nat.dvd-mul_right _ _) in
      rw (one, Nat.one-mul) at both
]

-- Two beats in lowest terms with the same value are the same.
pub IsNormal-unique :
    (x y : Beat) → IsNormal x → IsNormal y → HasValue y.numerator y.denominator x → x ≡ y
IsNormal-unique x y u v e =
    let same = Nat.dvd_antisymm (den-dvd x y u e) (den-dvd y x v (sym e)) in
    record_eq same (
      eq_of_parts _ _ (
        Nat.eq_of_mul-eq-mul_right y.denominator v.positive _ _ (
          omega (
            arith,
            simp (scale_pos, same) at (ap pos_part e),
            simp (scale_neg, same) at (ap neg_part e),
          ))))
  where
    record_eq : x.denominator ≡ y.denominator → x.numerator ≡ y.numerator → x ≡ y
    record_eq p q = ground arith

-- Of two beats with the value n / d each has the value of the other.
pub HasValue-same :
    (n : ℤ) (d : ℕ) (x y : Beat)
    → 0 < d
    → HasValue n d x
    → HasValue n d y
    → HasValue y.numerator y.denominator x
HasValue-same n d x y p e f = eq_of_parts _ _ (
    simp (scale_pos, scale_neg)
      (Nat.eq_of_mul-eq-mul_right d p _ _ (
        omega (
          arith,
          ap (λ (t : ℕ). t * y.denominator) (simp scale_pos at (ap pos_part e)),
          ap (λ (t : ℕ). t * y.denominator) (simp scale_neg at (ap neg_part e)),
          ap (λ (t : ℕ). t * x.denominator) (simp scale_pos at (ap pos_part f)),
          ap (λ (t : ℕ). t * x.denominator) (simp scale_neg at (ap neg_part f)),
        ))))

-- What the beat b owes to NewBeat n d.
pub record Makes (n d : ℤ) (b : Beat) : Type 0 where
  pub made : new_beat n d ≡ ok b
  pub value : HasValue (if ltb_ℤ d (pos 0) then neg_ℤ n else n) (nat_abs d) b
  pub positive : 0 < b.denominator
  pub normal : n ≢ pos 0 → IsNormal b

pub divide-IsNormal : (n : ℤ) (d : ℕ) → 0 < d → nat_abs n ≢ 0 → IsNormal (divide n d)
divide-IsNormal n d p h = record {
  positive = (divide-HasValue n d p).1;
  coprime = divide-coprime n d p h;
}

-- NewBeat of a nonzero denominator, neither argument being the least int64, returns a beat of the
-- value n / d with a positive denominator, in lowest terms if n is not zero.
pub new_beat-Makes :
    (n d : ℤ) → d ≢ pos 0 → n ≢ min_int64 → d ≢ min_int64 → (b : Beat) × Makes n d b
unfolding new_beat
new_beat-Makes n d h p q =
    let pos_d : 0 < nat_abs d = ground arith in
    elim (Bool-cases (ltb_ℤ d (pos 0))) [
      | inl less ↦ (
        divide (neg_ℤ n) (nat_abs d),
        record {
          made = ground arith;
          value = rw less (divide-HasValue (neg_ℤ n) (nat_abs d) pos_d).0;
          positive = (divide-HasValue (neg_ℤ n) (nat_abs d) pos_d).1;
          normal = λ z. divide-IsNormal (neg_ℤ n) (nat_abs d) pos_d (λ t. z (ground arith));
        },
      )
      | inr more ↦ (
        divide n (nat_abs d),
        record {
          made = ground arith;
          value = rw more (divide-HasValue n (nat_abs d) pos_d).0;
          positive = (divide-HasValue n (nat_abs d) pos_d).1;
          normal = λ z. divide-IsNormal n (nat_abs d) pos_d (λ t. z (ground arith));
        },
      )
    ]
