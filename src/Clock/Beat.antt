-- ===== src/Clock/Beat.antt =====
-- internal/clock/beat.go. An int64 is an integer; where the code can leave its range, the model
-- tests the range. A denominator is never negative: every Beat of the program comes from NewBeat
-- or is Beat{}. Float64 and String only print and are left out.
pub mod Gcd
pub mod Normal
pub mod Arithmetic
mod Tests
use govertone.Common.{
  ℕ, zero, suc, ◌+◌, ◌-◌, ◌*◌, ◌/◌, ◌%◌, ◌^◌, ◌≡◌, refl, Bool, true, false, ◌&&◌, ◌||◌, ltb, leb,
  ◌==◌, if◌then◌else◌,
}
use govertone.Common.Result.{Result, ok, err, panic, ◌>>=◌}
use govertone.Common.Int.{
  ℤ, pos, negsuc, pos_part, neg_part, nat_abs, neg_ℤ, scale, quot, ◌+ℤ◌, ltb_ℤ, eqb_ℤ,
}

-- The errors of the package: those of Beat, and those of Transport.
pub data Error : Type 0 where
  zero_denominator overflow invalid_tempo negative_beat conversion_overflow : Error

abbrev pub Checked {ℓ} : Type ℓ → Type ℓ
Checked A = Result Error A

pub record Beat : Type 0 where
  pub numerator : ℤ
  pub denominator : ℕ

-- The bounds of int64, and `math.MinInt64`.
abbrev pub is_int64 : ℤ → Bool
is_int64 n = ltb (pos_part n) (2 ^ 63) && leb (neg_part n) (2 ^ 63)

abbrev pub min_int64 : ℤ
min_int64 = negsuc (2 ^ 63 - 1)

-- The loop `for b != 0 { a, b = b, a%b }`; its arguments are absolute values. The second one falls
-- in every round, so that one round more than it is enough.
gcd_loop : ℕ → ℕ → ℕ → ℕ
gcd_loop zero a b = a
gcd_loop (suc k) a b = let rest = gcd_loop k b (a % b) in if b == 0 then a else rest

unfoldable pub gcd : ℕ → ℕ → ℕ
unfolding gcd_loop
gcd a b = if a == 0 then 1 else gcd_loop (suc b) a b

-- `Beat{n / g, d / g}` for a positive d
unfoldable pub divide : ℤ → ℕ → Beat
divide n d = let g = gcd (nat_abs n) d in record { numerator = quot n g; denominator = d / g }

unfoldable pub new_beat : ℤ → ℤ → Checked Beat
new_beat n d =
    if eqb_ℤ d (pos 0)
    then err zero_denominator
    else if eqb_ℤ n min_int64 || eqb_ℤ d min_int64
    then err overflow
    else if ltb_ℤ d (pos 0)
    then ok (divide (neg_ℤ n) (nat_abs d))
    else ok (divide n (nat_abs d))

unfoldable pub must_beat : ℤ → ℤ → Checked Beat
must_beat n d = elim (new_beat n d) [ ok b ↦ ok b | err e ↦ panic | panic ↦ panic ]

unfoldable pub sign : Beat → ℤ
sign b =
    if ltb_ℤ b.numerator (pos 0)
    then negsuc 0
    else if ltb_ℤ (pos 0) b.numerator
    then pos 1
    else pos 0

-- `x.Cmp(y)` of two products; big.Int does not overflow.
unfoldable pub cmp : Beat → Beat → ℤ
cmp b c =
    let x = scale b.numerator c.denominator in
    let y = scale c.numerator b.denominator in
    if ltb_ℤ x y then negsuc 0 else if ltb_ℤ y x then pos 1 else pos 0

-- A big.Rat is kept in lowest terms, and zero as 0/1.
unfoldable pub rat : ℤ → ℕ → Beat
rat n d = if eqb_ℤ n (pos 0) then record { numerator = pos 0; denominator = 1 } else divide n d

-- The exact sum of two fractions, before it is reduced.
abbrev pub sum_numerator : Beat → Beat → ℤ
sum_numerator b c = scale b.numerator c.denominator +ℤ scale c.numerator b.denominator

-- `SetFrac64` panics on a zero denominator.
unfoldable pub add : Beat → Beat → Checked Beat
add b c =
    let r = rat (sum_numerator b c) (b.denominator * c.denominator) in
    if b.denominator == 0 || c.denominator == 0
    then panic
    else if is_int64 r.numerator && is_int64 (pos r.denominator)
    then new_beat r.numerator (pos r.denominator)
    else err overflow

-- `-c.Numerator` wraps at the least int64.
unfoldable pub negate_int64 : ℤ → ℤ
negate_int64 n = if eqb_ℤ n min_int64 then min_int64 else neg_ℤ n

unfoldable pub sub : Beat → Beat → Checked Beat
sub b c = must_beat (negate_int64 c.numerator) (pos c.denominator) >>= add b
