-- ===== src/Clock/Beat/Arithmetic.antt =====
-- Add, Sub and Cmp of beats are exact (internal/clock/beat.go).
use Prim.Native.Nat.{◌∣◌}
use native.Mathlib.Nat
use native.Mathlib.Decide.{ℕ_discrete}
use govertone.Common.{
  ℕ, zero, suc, ◌*◌, ◌^◌, ◌<◌, ◌≡◌, ◌≢◌, refl, ap, subst, inl, inr, Bool-cases, true, false, ◌==◌,
  Bool, ltb, if◌then◌else◌, ◌&&◌, ◌||◌, arith, ◌↔◌,
}
use govertone.Common.Int.{
  ℤ, pos, negsuc, pos_part, neg_part, nat_abs, neg_ℤ, scale, scale_pos, scale_neg, quot, +ℤ_parts,
  ◌≤ℤ◌, ◌<ℤ◌, eq_of_parts, eqb_ℤ, part_zero, neg_ℤ_pos, neg_ℤ_neg, scale_laws,
}
use govertone.Common.Result.{err, ok}
use govertone.Clock.Beat.{
  Beat, gcd, divide, new_beat, must_beat, is_int64, rat, add, sub, cmp, sum_numerator, negate_int64,
  overflow, min_int64,
}
use govertone.Clock.Beat.Normal.{
  IsNormal, HasValue, HasValue-same, IsNormal-unique, divide-HasValue, divide-IsNormal,
}

-- A numerator and a denominator that NewBeat takes.
pub record Fits (b : Beat) : Type 0 where
  pub above : neg_part b.numerator < 2 ^ 63
  pub below : pos_part b.numerator < 2 ^ 63
  pub small : b.denominator < 2 ^ 63

divide-zero : divide (pos 0) 1 ≡ record { numerator = pos 0; denominator = 1 }
unfolding divide gcd quot
divide-zero = refl

rat-HasValue : (n : ℤ) (d : ℕ) → 0 < d → IsNormal (rat n d) × HasValue n d (rat n d)
unfolding rat
rat-HasValue n d p = elim (Bool-cases (eqb_ℤ n (pos 0))) [
  | inl e ↦
      let z : n ≡ pos 0 = ground arith in
      rw e (
        record { positive = omega arith; coprime = λ k a b. Nat.eq-one_of_dvd-one b },
        rw z (eq_of_parts _ _ (simp (scale_pos, scale_neg) (omega arith))),
      )
  | inr e ↦ rw e (divide-IsNormal n d p (λ t. absurd (ground arith)), (divide-HasValue n d p).0)
]

-- The reduction gives a beat in lowest terms back.
divide-normal : (b : Beat) → IsNormal b → divide b.numerator b.denominator ≡ b
divide-normal b v = elim (ℕ_discrete (nat_abs b.numerator) 0) [
  | no h ↦
      IsNormal-unique (divide b.numerator b.denominator) b
        (divide-IsNormal b.numerator b.denominator v.positive h) v
        (divide-HasValue b.numerator b.denominator v.positive).0
  | yes z ↦
      let one = v.coprime b.denominator (rw z (Nat.dvd-zero _)) (Nat.dvd_refl _) in
      let zero_num : b.numerator ≡ pos 0 = ground arith in
      let zero_beat : b ≡ record { numerator = pos 0; denominator = 1 } = ground arith in
      rw zero_beat divide-zero
]

-- NewBeat gives a beat in lowest terms back.
new_beat-normal : (b : Beat) → IsNormal b → Fits b → new_beat b.numerator (pos b.denominator) ≡ ok b
unfolding new_beat
new_beat-normal b v f =
    let above = f.above in
    let small = f.small in let positive = v.positive in ground (arith, divide-normal b v)

new_beat-least : (n d : ℤ) → d ≢ pos 0 → eqb_ℤ n min_int64 ≡ true → new_beat n d ≡ err overflow
unfolding new_beat
new_beat-least n d h e = ground arith

-- Of two beats with positive denominators, Add returns the beat in lowest terms with the value of
-- the sum, if NewBeat takes its parts.
add-ok :
    (b c r : Beat)
    → 0 < b.denominator
    → 0 < c.denominator
    → IsNormal r
    → Fits r
    → HasValue (sum_numerator b c) (b.denominator * c.denominator) r
    → add b c ≡ ok r
unfolding add
add-ok b c r p q v f e =
    let pos_d : 0 < b.denominator * c.denominator = Nat.mul-pos p q in
    let (w, g) = rat-HasValue (sum_numerator b c) (b.denominator * c.denominator) pos_d in
    let same =
      IsNormal-unique (rat (sum_numerator b c) (b.denominator * c.denominator)) r w v
        (HasValue-same (sum_numerator b c) (b.denominator * c.denominator) _ r pos_d g e) in
    let made = new_beat-normal r v f in
    let above = f.above in let below = f.below in let small = f.small in rw same (ground arith)

Fits-of_tests :
    (b : Beat)
    → is_int64 b.numerator ≡ true
    → is_int64 (pos b.denominator) ≡ true
    → eqb_ℤ b.numerator min_int64 ≡ false
    → Fits b
Fits-of_tests b p q r = ground (arith, part_zero b.numerator)

-- The numerator is above the least int64 and at most the greatest, and the denominator is at most
-- the greatest.
abbrev pub is_taken : Beat → Bool
is_taken r =
    ltb (neg_part r.numerator) (2 ^ 63)
    && ltb (pos_part r.numerator) (2 ^ 63)
    && ltb r.denominator (2 ^ 63)

-- Of two beats with positive denominators whose sum in lowest terms is `r`, Add returns `r` if its
-- numerator is above the least int64 and both parts are at most the greatest int64, and an
-- overflow otherwise.
pub add-outcome :
    (b c r : Beat)
    → 0 < b.denominator
    → 0 < c.denominator
    → IsNormal r
    → HasValue (sum_numerator b c) (b.denominator * c.denominator) r
    → add b c ≡ (if is_taken r then ok r else err overflow)
unfolding add
add-outcome b c r p q v e = elim (Bool-cases (is_taken r)) [
  | inl taken ↦ rw taken (
      add-ok b c r p q v
        (record { above = ground arith; below = ground arith; small = ground arith }) e)
  | inr refused ↦
      let n = sum_numerator b c in
      let d = b.denominator * c.denominator in
      let (w, g) = rat-HasValue n d (Nat.mul-pos p q) in
      let same = IsNormal-unique (rat n d) r w v (HasValue-same n d _ r (Nat.mul-pos p q) g e) in
      elim (Bool-cases (is_int64 r.numerator && is_int64 (pos r.denominator))) [
        | inr out ↦ rw (refused, same) (ground arith)
        | inl within ↦ elim (Bool-cases (eqb_ℤ r.numerator min_int64)) [
          | inl least ↦
              let over = new_beat-least r.numerator (pos r.denominator) in
              rw (refused, same) (ground arith)
          | inr not_least ↦
              let f = Fits-of_tests r (ground arith) (ground arith) not_least in
              let above = f.above in
              let below = f.below in let small = f.small in absurd (ground arith)
        ]
      ]
]

-- What Add returns is in lowest terms, within int64, and exactly the sum.
pub add-exact :
    (b c r : Beat)
    → add b c ≡ ok r
    → IsNormal r × Fits r × HasValue (sum_numerator b c) (b.denominator * c.denominator) r
unfolding add
add-exact b c r e =
    let n = sum_numerator b c in
    let d = b.denominator * c.denominator in
    elim (Bool-cases (b.denominator == 0 || c.denominator == 0)) [
      | inl zero_den ↦ absurd (ground arith)
      | inr _ ↦
          let p : 0 < b.denominator = ground arith in
          let q : 0 < c.denominator = ground arith in
          let (v, g) = rat-HasValue n d (Nat.mul-pos p q) in
          elim (Bool-cases (is_int64 (rat n d).numerator && is_int64 (pos (rat n d).denominator))) [
            | inr out ↦ absurd (ground arith)
            | inl within ↦ elim (Bool-cases (eqb_ℤ (rat n d).numerator min_int64)) [
              | inl least ↦
                  absurd
                    (ground (arith, new_beat-least (rat n d).numerator (pos (rat n d).denominator)))
              | inr not_least ↦
                  let f = Fits-of_tests (rat n d) (ground arith) (ground arith) (ground arith) in
                  let same : rat n d ≡ r = ground (arith, new_beat-normal (rat n d) v f) in
                  subst (λ x. IsNormal x × Fits x × HasValue n d x) same (v, f, g)
            ]
          ]
    ]

abbrev negated : Beat → Beat
negated c = record c { numerator = neg_ℤ c.numerator }

nat_abs-neg_ℤ : (a : ℤ) → nat_abs (neg_ℤ a) ≡ nat_abs a
nat_abs-neg_ℤ (pos zero) = refl
nat_abs-neg_ℤ (pos (suc n)) = refl
nat_abs-neg_ℤ (negsuc n) = refl

negated-IsNormal : (c : Beat) → IsNormal c → IsNormal (negated c)
negated-IsNormal c v = record {
  positive = v.positive;
  coprime = λ k p q. v.coprime k (subst (◌∣◌ k) (nat_abs-neg_ℤ c.numerator) p) q;
}

negated-Fits : (c : Beat) → Fits c → Fits (negated c)
negated-Fits c f = record {
  above = rw (neg_ℤ_neg c.numerator) f.below;
  below = rw (neg_ℤ_pos c.numerator) f.above;
  small = f.small;
}

-- The beat that Sub hands to Add.
must_beat-negated :
    (c : Beat)
    → IsNormal c
    → Fits c
    → must_beat (negate_int64 c.numerator) (pos c.denominator) ≡ ok (negated c)
unfolding must_beat negate_int64
must_beat-negated c v f =
    let above = f.above in
    ground (arith, new_beat-normal (negated c) (negated-IsNormal c v) (negated-Fits c f))

-- If r is b + c, then b is r - c.
HasValue-sub :
    (b c r : Beat)
    → HasValue (sum_numerator b c) (b.denominator * c.denominator) r
    → HasValue (sum_numerator r (negated c)) (r.denominator * c.denominator) b
HasValue-sub b c r h =
    let added =
      simp scale_laws at
        (+ℤ_parts (scale b.numerator c.denominator) (scale c.numerator b.denominator)) in
    let taken =
      simp scale_laws at
        (+ℤ_parts (scale r.numerator c.denominator) (scale (neg_ℤ c.numerator) r.denominator)) in
    eq_of_parts _ _ (
      simp scale_laws (
        omega (
          arith,
          simp scale_laws at (ap pos_part h),
          simp scale_laws at (ap neg_part h),
          ap (λ (t : ℕ). t * r.denominator) added,
          ap (λ (t : ℕ). t * b.denominator) taken,
        )))

-- For beats in lowest terms within int64, Sub of the second from the sum that Add returned is the
-- first.
pub sub-add :
    (b c r : Beat) → IsNormal b → IsNormal c → Fits b → Fits c → add b c ≡ ok r → sub r c ≡ ok b
unfolding sub
sub-add b c r v w f g e =
    let (x, y, h) = add-exact b c r e in
    rw (must_beat-negated c w g)
      (add-ok r (negated c) b x.positive w.positive v f (HasValue-sub b c r h))

module _ (b c : Beat) where
  -- Cmp returns -1, 0 or 1 as the fractions compare.
  pub cmp-lt :
      (cmp b c ≡ negsuc 0) ↔ (scale b.numerator c.denominator <ℤ scale c.numerator b.denominator)
  unfolding cmp
  cmp-lt = ground arith

-- Cmp is antisymmetric.
pub cmp_swap : (b c : Beat) → cmp c b ≡ neg_ℤ (cmp b c)
unfolding cmp
cmp_swap b c = ground arith

cmp-le :
    (b c : Beat)
    → cmp b c ≤ℤ pos 0
    → scale b.numerator c.denominator ≤ℤ scale c.numerator b.denominator
unfolding cmp
cmp-le b c h = ground arith

cmp-le_of :
    (b c : Beat)
    → scale b.numerator c.denominator ≤ℤ scale c.numerator b.denominator
    → cmp b c ≤ℤ pos 0
unfolding cmp
cmp-le_of b c h = ground arith

-- Cmp at most 0 is transitive among beats with positive denominators.
pub cmp_trans :
    (a b c : Beat)
    → 0 < a.denominator
    → 0 < b.denominator
    → 0 < c.denominator
    → cmp a b ≤ℤ pos 0
    → cmp b c ≤ℤ pos 0
    → cmp a c ≤ℤ pos 0
cmp_trans a b c p q r e f =
    let g = cmp-le a b e in
    let h = cmp-le b c f in
    cmp-le_of a c (
      simp (scale_pos, scale_neg)
        (Nat.le_of_mul-le-mul_right
          (omega (
            arith,
            Nat.mul-le-mul_right c.denominator (simp (scale_pos, scale_neg) at g),
            Nat.mul-le-mul_right a.denominator (simp (scale_pos, scale_neg) at h),
          ))
          q))

-- Cmp is 0 between beats in lowest terms only if they are the same.
pub cmp-zero : (b c : Beat) → IsNormal b → IsNormal c → cmp b c ≡ pos 0 → b ≡ c
cmp-zero b c v w e =
    let one = cmp-le b c (omega (arith, ap pos_part e)) in
    let other = cmp-le c b (rw (cmp_swap b c, e) (omega arith)) in
    IsNormal-unique b c v w (eq_of_parts _ _ (omega arith))

-- NewBeat does not reduce a zero numerator: over a denominator above 1 it returns a beat that is
-- not in lowest terms.
pub new_beat-zero :
    (d : ℕ)
    → 1 < d
    → (new_beat (pos 0) (pos d) ≡ ok (record { numerator = pos 0; denominator = d }))
      × (¬ IsNormal (record { numerator = pos 0; denominator = d }))
unfolding new_beat divide gcd quot
new_beat-zero d h =
    (ground arith, λ v. absurd (omega (arith, v.coprime d (Nat.dvd-zero d) (Nat.dvd_refl d))))
