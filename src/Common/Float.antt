-- ===== src/Common/Float.antt =====
-- float64, as a parameter: a type with the operations that the program uses. The theorems assume
-- nothing of them but what they name.
use mathlib.Core.Bool.{Bool, true, false}
use govertone.Common.Tests.{if◌then◌else◌}
use govertone.Common.Int.{ℤ, pos, ◌+ℤ◌, neg_ℤ, scale, quot, nat_abs, ltb_ℤ}

pub record Float64 : Type 1 where
  pub Float : Type 0
  -- `float64(n)` for an integer, and integer constants
  pub of_int : ℤ → Float
  pub add : Float → Float → Float
  pub sub : Float → Float → Float
  pub mul : Float → Float → Float
  pub div : Float → Float → Float
  pub lt : Float → Float → Bool
  pub le : Float → Float → Bool
  -- the built-in `min` and `max`
  pub min : Float → Float → Float
  pub max : Float → Float → Float
  pub is_nan : Float → Bool
  pub is_inf : Float → Bool
  pub round : Float → Float
  -- `math.Pow`
  pub pow : Float → Float → Float
  -- `float32(x)`
  pub single : Float → Float
  -- `int64(x)` and `uint64(x)`
  pub to_int : Float → ℤ

-- The operations on whole numbers, for runs at concrete inputs.
abbrev pub whole : Float64
whole = record {
  Float = ℤ;
  of_int = λ n. n;
  add = ◌+ℤ◌;
  sub = λ a b. a +ℤ neg_ℤ b;
  mul = λ a b. if ltb_ℤ b (pos 0) then neg_ℤ (scale a (nat_abs b)) else scale a (nat_abs b);
  div = λ a b. if ltb_ℤ b (pos 0) then neg_ℤ (quot a (nat_abs b)) else quot a (nat_abs b);
  lt = ltb_ℤ;
  le = λ a b. if ltb_ℤ b a then false else true;
  min = λ a b. if ltb_ℤ b a then b else a;
  max = λ a b. if ltb_ℤ a b then b else a;
  is_nan = λ a. false;
  is_inf = λ a. false;
  round = λ a. a;
  pow = λ a b. a;
  single = λ a. a;
  to_int = λ a. a;
}
