-- ===== src/Clock/Beat/Tests.antt =====
-- Beats at concrete values (internal/clock/clock_test.go and more).
use native.Mathlib.Nat
use govertone.Common.{◌*◌, ◌≡◌, refl, arith}
use govertone.Common.Int.{pos, negsuc, scale, ◌+ℤ◌, quot}
use govertone.Common.Result.{err, ok}
use govertone.Clock.Beat.{
  Beat, new_beat, divide, gcd, rat, add, cmp, sum_numerator, zero_denominator, overflow, min_int64,
}
use govertone.Clock.Beat.Normal.{IsNormal, HasValue, IsNormal-unique, Makes, new_beat-Makes}
use govertone.Clock.Beat.Arithmetic.{Fits, add-outcome, add-exact, cmp-zero, new_beat-zero}

abbrev third : Beat
third = record { numerator = pos 1; denominator = 3 }

abbrev minus_half : Beat
minus_half = record { numerator = negsuc 0; denominator = 2 }

abbrev minus_sixth : Beat
minus_sixth = record { numerator = negsuc 0; denominator = 6 }

new_beat_negative :
    new_beat (pos 6) (negsuc 8) ≡ ok (record { numerator = negsuc 1; denominator = 3 })
unfolding new_beat divide gcd quot
new_beat_negative = refl

new_beat_errors :
    (new_beat (pos 6) (pos 0) ≡ err zero_denominator) × (new_beat min_int64 (pos 2) ≡ err overflow)
unfolding new_beat
new_beat_errors = (refl, refl)

add_fractions : add third minus_half ≡ ok minus_sixth
unfolding add rat divide gcd quot new_beat scale ◌+ℤ◌
add_fractions = refl

third-IsNormal : IsNormal third
third-IsNormal = record { positive = omega arith; coprime = λ k p q. Nat.eq-one_of_dvd-one p }

minus_half-IsNormal : IsNormal minus_half
minus_half-IsNormal = record { positive = omega arith; coprime = λ k p q. Nat.eq-one_of_dvd-one p }

third-Fits : Fits third
third-Fits = record { above = omega arith; below = omega arith; small = omega arith }

minus_half-Fits : Fits minus_half
minus_half-Fits = record { above = omega arith; below = omega arith; small = omega arith }

minus_sixth-IsNormal : IsNormal minus_sixth
minus_sixth-IsNormal = record { positive = omega arith; coprime = λ k p q. Nat.eq-one_of_dvd-one p }

minus_sixth-Fits : Fits minus_sixth
minus_sixth-Fits = record { above = omega arith; below = omega arith; small = omega arith }

new_beat-Makes_example : (b : Beat) × Makes (pos 6) (negsuc 8) b
new_beat-Makes_example =
    new_beat-Makes (pos 6) (negsuc 8) (λ e. absurd (ground arith)) (λ e. absurd (ground arith))
      (λ e. absurd (ground arith))

IsNormal-unique_example : third ≡ third
IsNormal-unique_example = IsNormal-unique third third third-IsNormal third-IsNormal refl

add-outcome_example : add third minus_half ≡ ok minus_sixth
unfolding scale ◌+ℤ◌
add-outcome_example =
    add-outcome third minus_half minus_sixth (omega arith) (omega arith) minus_sixth-IsNormal refl

add-exact_example :
    IsNormal minus_sixth
    × Fits minus_sixth
    × HasValue
        (sum_numerator third minus_half)
        (third.denominator * minus_half.denominator)
        minus_sixth
add-exact_example = add-exact third minus_half minus_sixth add_fractions

cmp-zero_example : third ≡ third
unfolding cmp scale
cmp-zero_example = cmp-zero third third third-IsNormal third-IsNormal refl

new_beat-zero_example :
    (new_beat (pos 0) (pos 5) ≡ ok (record { numerator = pos 0; denominator = 5 }))
    × (¬ IsNormal (record { numerator = pos 0; denominator = 5 }))
new_beat-zero_example = new_beat-zero 5 (omega arith)
