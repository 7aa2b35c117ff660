-- ===== src/Patch/Compiler/Normalize.antt =====
-- internal/patch/compiler.go: `normalize`, which checks a specification and completes it.
use Prim.Native.String.{String, slice, ◌++◌ as join}
use govertone.Common.{
  ℕ, zero, suc, ◌+◌, ◌/◌, ◌%◌, ltb, Bool, true, false, not, ◌&&◌, ◌||◌, Option, none, some, List,
  [], ◌∷◌, if◌then◌else◌,
}
use govertone.Common.Float.{Float64}
use govertone.Common.Int.{ℤ, pos, negsuc}
use govertone.Common.Maps.{string_key}
use govertone.Common.Result.{Result, ok, err, panic, ◌>>=◌}
use govertone.Common.Text.{str_eq}
use govertone.Patch.Names.{
  normalize_name, validate_id, normalize_instrument_id, normalize_unit_id, contains,
}
use govertone.Patch.Model.{
  integer, boolean, enum, reference, Content, ParameterValue, SynthParameter, UnitReference,
  int_param, enum_param, ref_param,
}
use govertone.Patch.Schema.{ParameterSchema, member}
use govertone.Patch.Sointu.{UnitParameter}

-- Compiler, less its schemas.
pub record Limits : Type 0 where
  pub portable : Bool
  pub max_instruments : ℕ
  pub max_units_per_instrument : ℕ
  pub max_aggregate_units : ℕ
  pub max_voices : ℤ
  pub max_portable_stack : ℤ

-- NewCompiler
abbrev pub default_limits : Limits
default_limits = record {
  portable = true;
  max_instruments = 64;
  max_units_per_instrument = 63;
  max_aggregate_units = 4096;
  max_voices = pos 32;
  max_portable_stack = pos 8;
}

-- A number in decimal; it has at most as many digits as the fuel, one more than the number.
unfoldable pub decimal : ℕ → ℕ → String
decimal zero n = ""
decimal (suc fuel) n =
    let rest = decimal fuel (n / 10) in
    join (if ltb n 10 then "" else rest) (slice "0123456789" (n % 10) (n % 10 + 1))

-- `fmt.Sprintf("unit-%d", index)`
unfoldable pub unit_name : ℕ → String
unit_name index = join "unit-" (decimal (suc index) index)

-- The errors of `normalizeParameter`, as their messages have it.
pub data ParameterError : Type 0 where
  inexact wrong_kind out_of_range not_allowed unsupported : ParameterError
  bad_name : String → ParameterError

-- Which code an error gets: the messages are searched for "range" and for "one of".
unfoldable pub error_code : ParameterError → String
error_code inexact = "parameter-out-of-range"
error_code wrong_kind = "invalid-parameter-type"
error_code out_of_range = "parameter-out-of-range"
error_code not_allowed = "invalid-enum-value"
error_code unsupported = "invalid-parameter-type"
error_code (bad_name message) =
    if contains message "one of"
    then "invalid-enum-value"
    else if contains message "range"
    then "parameter-out-of-range"
    else "invalid-parameter-type"

abbrev name_or_error : Result String String → Result ParameterError String
name_or_error panic = panic
name_or_error (err message) = err (bad_name message)
name_or_error (ok name) = ok name

-- `controllableParameter`
unfoldable pub controllable : List UnitParameter → String → Bool
controllable [] name = false
controllable (p ∷ ps) name =
    let rest = controllable ps name in
    if str_eq p.name name then p.can_set && p.can_modulate else rest

unfoldable pub bool_int : Bool → ℤ
bool_int b = if b then pos 1 else pos 0

module _ (fl : Float64) where
  open fl use {Float, of_int, add, mul, lt, le, is_nan, is_inf, round, to_int}

  abbrev infinite : Float → Bool
  infinite x = is_nan x || is_inf x

  abbrev below : Option Float → Float → Bool
  below none x = false
  below (some least) x = lt x least

  abbrev above : Option Float → Float → Bool
  above none x = false
  above (some most) x = lt most x

  abbrev max_int : Float
  max_int = of_int (pos 9223372036854775807)

  abbrev min_int : Float
  min_int = of_int (negsuc 9223372036854775807)

  -- The integer of a value, in the first case of `normalizeParameter`. `math.Trunc(x) == x` is read
  -- as: x is the float64 of its integer.
  unfoldable pub integer_of : Content Float → Result ParameterError ℤ
  integer_of (Content.integer n) = ok n
  integer_of (Content.float x) =
      if infinite x || (not (le (of_int (to_int x)) x && le x (of_int (to_int x))))
      then err inexact
      else if lt x min_int || lt max_int x
      then err inexact
      else ok (to_int x)
  integer_of (Content.boolean b) = err wrong_kind
  integer_of (Content.enum e) = err wrong_kind
  integer_of (Content.reference r) = err wrong_kind
  integer_of (Content.control c) = err wrong_kind

  unfoldable pub normalize_reference : UnitReference → Result ParameterError UnitReference
  normalize_reference r = name_or_error (normalize_unit_id r.unit) >>= λ unit.
      (if str_eq r.instrument ""
        then ok ""
        else name_or_error (normalize_instrument_id r.instrument))
      >>= λ instrument.
          ok (record { instrument = instrument; unit = unit; port = normalize_name r.port })

  unfoldable pub normalize_enum :
      ParameterSchema Float → String → Result ParameterError (ParameterValue Float)
  normalize_enum schema e =
      let named = normalize_name e in
      let value = if str_eq named "trisaw" then "saw" else named in
      if member value schema.enum_values then ok (enum_param value) else err not_allowed

  -- `normalizeParameter`
  unfoldable pub normalize_parameter :
      ParameterSchema Float → ParameterValue Float → Result ParameterError (ParameterValue Float)
  normalize_parameter schema v = elim schema.kind [
    | integer ↦ integer_of v.content >>= λ n.
        if below schema.minimum (of_int n) || above schema.maximum (of_int n)
        then err out_of_range
        else ok (int_param n)
    | boolean ↦ elim v.content [ Content.boolean b ↦ ok v | _ ↦ err wrong_kind ]
    | enum ↦ elim v.content [ Content.enum e ↦ normalize_enum schema e | _ ↦ err wrong_kind ]
    | reference ↦ elim v.content [
      | Content.reference r ↦ normalize_reference r >>= λ ref. ok (ref_param ref)
      | _ ↦ err wrong_kind
    ]
    | _ ↦ err unsupported
  ]

  -- One declared control, or the code of its error and the name that the diagnostic has.
  unfoldable pub normalize_descriptor :
      String → SynthParameter Float → Result (String × String) (SynthParameter Float)
  normalize_descriptor raw d =
      let id = normalize_name raw in
      let scope = if str_eq d.scope "" then "instrument" else d.scope in
      let curve = if str_eq d.curve "" then "linear" else d.curve in
      if not (validate_id id)
      then err ("invalid-parameter-id", raw)
      else if infinite d.default || (infinite d.minimum || infinite d.maximum)
      then err ("invalid-control-value", id)
      else if le d.maximum d.minimum || (lt d.default d.minimum || lt d.maximum d.default)
      then err ("control-out-of-range", id)
      else if not (str_eq scope "instrument" || str_eq scope "voice")
      then err ("invalid-control-scope", id)
      else if lt d.smoothing (of_int (pos 0)) || infinite d.smoothing
      then err ("invalid-control-smoothing", id)
      else if not (str_eq curve "linear" || str_eq curve "exponential")
      then err ("invalid-control-curve", id)
      else ok (record d { id = id; scope = scope; curve = curve })
