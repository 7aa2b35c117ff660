-- ===== src/Patch/Compiler/Operands.antt =====
-- internal/patch/compiler.go: a normalized unit as a unit of Sointu, and what is read back from the
-- bytecode.
use Prim.Native.String.{String, compare}
use text.Mathlib.Text.{is_lt}
use govertone.Common.{
  ℕ, suc, ◌+◌, Bool, true, false, not, ◌&&◌, ◌||◌, Option, none, some, List, [], ◌∷◌, ◌++◌, length,
  if◌then◌else◌,
}
use govertone.Common.Int.{ℤ, pos, ◌+ℤ◌}
use govertone.Common.Maps.{lookup, lookup_or, put, string_key, nat_key, pair_key}
use govertone.Common.Result.{Result, ok, err, panic}
use govertone.Common.Text.{str_eq}
use govertone.Patch.Names.{normalize_name}
use govertone.Patch.Model.{
  Content, ParameterValue, ParameterMap, UnitReference, UnitSpec, InstrumentSpec, Diagnostic, diag,
}
use govertone.Patch.Sointu.{Sointu, SointuUnit, UnitParameter, ParameterAddress}
use govertone.Patch.Compiler.Normalize.{bool_int}

-- The three tables of Compile, which are written together: the number of a unit, its type, and
-- whether its ID is explicit.
pub record UnitEntry : Type 0 where
  pub number : ℤ
  pub unit_type : String
  pub explicit : Bool

abbrev pub UnitTable : Type 0
UnitTable = List (String × List (String × UnitEntry))

-- `modulationPort`, less the normalization of the port
unfoldable pub modulation_port : List UnitParameter → String → ℤ → Option ℤ
modulation_port [] port index = none
modulation_port (p ∷ ps) port index =
    let skipped = modulation_port ps port index in
    let next = modulation_port ps port (index +ℤ pos 1) in
    if not p.can_modulate then skipped else if str_eq p.name port then some index else next

-- `outputGainParameters`
unfoldable pub output_gain_parameters : String → List String
output_gain_parameters t =
    if str_eq t "out"
    then "gain" ∷ []
    else if str_eq t "outaux"
    then "outgain" ∷ "auxgain" ∷ []
    else if str_eq t "aux"
    then "gain" ∷ []
    else []

-- `sort.Strings`
unfoldable pub insert_name : String → List String → List String
insert_name s [] = s ∷ []
insert_name s (t ∷ ts) =
    let rest = insert_name s ts in if is_lt (compare t s) then t ∷ rest else s ∷ t ∷ ts

unfoldable pub sort_names : List String → List String
sort_names [] = []
sort_names (s ∷ ss) = insert_name s (sort_names ss)

-- The operands of the parameters that the bytecode has.
unfoldable pub operands_of : List (ParameterAddress × ℤ) → ℕ × ℕ → List String → List ℤ
operands_of table at [] = []
operands_of table at (name ∷ names) =
    let rest = operands_of table at names in
    elim (lookup (at, name) table) [ none ↦ rest | some operand ↦ operand ∷ rest ]

module _ {F : Type 0} where
  unfoldable pub number_units :
      List (UnitSpec F) → ℕ → List (String × UnitEntry) → List (String × UnitEntry) × ℕ
  number_units [] next table = (table, next)
  number_units (u ∷ us) next table = number_units us (suc next) (
      put u.id (record { number = pos next; unit_type = u.unit_type; explicit = u.explicit_id })
        table)

  unfoldable pub number_instruments : List (InstrumentSpec F) → ℕ → UnitTable → UnitTable
  number_instruments [] next table = table
  number_instruments (i ∷ is) next table =
      let numbered = number_units i.units next [] in
      number_instruments is numbered.1 (put i.id numbered.0 table)

  unfoldable pub total_units : List (InstrumentSpec F) → ℕ
  total_units [] = 0
  total_units (i ∷ is) = length i.units + total_units is

  -- `hasEnabledEnvelope`
  unfoldable pub has_enabled_envelope : List (UnitSpec F) → Bool
  has_enabled_envelope [] = false
  has_enabled_envelope (u ∷ us) =
      let rest = has_enabled_envelope us in
      if str_eq u.unit_type "envelope" && not u.disabled then true else rest

  unfoldable pub hard_release_operands :
      List (ParameterAddress × ℤ) → ℕ → List (UnitSpec F) → ℕ → List ℤ
  hard_release_operands table instrument [] index = []
  hard_release_operands table instrument (u ∷ us) index =
      let rest = hard_release_operands table instrument us (suc index) in
      if u.disabled
      then rest
      else operands_of table (instrument, index) (output_gain_parameters u.unit_type) ++ rest

  unfoldable pub unit_indices : List (UnitSpec F) → ℕ → List (String × ℕ) → List (String × ℕ)
  unit_indices [] index table = table
  unit_indices (u ∷ us) index table = unit_indices us (suc index) (put u.id index table)

module _ {F : Type 0} (so : Sointu F) where
  -- `parameterInt`; `none` is its false.
  unfoldable pub parameter_int : String → String → Content F → Option ℤ
  parameter_int unit name (Content.integer n) = some n
  parameter_int unit name (Content.boolean b) = some (bool_int b)
  parameter_int unit name (Content.enum e) =
      if str_eq unit "oscillator" && str_eq name "type"
      then if str_eq e "sine"
        then some so.sine
        else if str_eq e "saw" || str_eq e "trisaw"
        then some so.trisaw
        else if str_eq e "pulse"
        then some so.pulse
        else if str_eq e "gate"
        then some so.gate
        else if str_eq e "sample"
        then some so.sample
        else none
      else none
  parameter_int unit name (Content.float x) = none
  parameter_int unit name (Content.reference r) = none
  parameter_int unit name (Content.control c) = none

  -- The target and the port of a reference, or the code of its error.
  unfoldable pub resolve : UnitTable → String → UnitReference → Result String (ℤ × ℤ)
  resolve table instrument r =
      let target = if str_eq r.instrument "" then instrument else r.instrument in
      elim (lookup target table) [
        | none ↦ err "unknown-reference-instrument"
        | some units ↦ elim (lookup r.unit units) [
          | none ↦ err "unknown-reference-unit"
          | some entry ↦
              if not entry.explicit
              then err "unknown-reference-unit"
              else elim (modulation_port (lookup_or [] entry.unit_type so.unit_types)
                  (normalize_name r.port) (pos 0)) [
                    | none ↦ err "unknown-reference-port"
                    | some port ↦ ok (entry.number, port)
                  ]
        ]
      ]

  -- What the loop over a unit's parameters makes.
  pub record Conversion : Type 0 where
    pub parameters : List (String × ℤ)
    pub var_args : List ℤ
    pub found : List Diagnostic

  unfoldable pub convert_parameter :
      UnitTable → String → ℕ → UnitSpec F → String → ParameterValue F → Conversion → Conversion
  convert_parameter table instrument index u name value s =
      let complain = λ (code : String). record s {
        found = s.found ++ diag code instrument (pos index) u.id name ∷ [];
      } in
      elim value.content [
        | Content.reference r ↦ elim (resolve table instrument r) [
          | ok (target, port) ↦ record s {
            parameters = put "port" port (put "target" target s.parameters);
          }
          | err code ↦ complain code
          | panic ↦ s
        ]
        | other ↦ elim (parameter_int u.unit_type name other) [
          | none ↦ complain "invalid-parameter-type"
          | some n ↦
              if str_eq u.unit_type "delay" && str_eq name "delaytime"
              then record s { var_args = n ∷ [] }
              else record s { parameters = put name n s.parameters }
        ]
      ]

  unfoldable pub convert_parameters :
      UnitTable → String → ℕ → UnitSpec F → ParameterMap F → Conversion → Conversion
  convert_parameters table instrument index u [] s = s
  convert_parameters table instrument index u (entry ∷ entries) s =
      convert_parameters table instrument index u entries
        (convert_parameter table instrument index u entry.0 entry.1 s)

  -- The units of an instrument for Sointu, with the diagnostics.
  unfoldable pub convert_units :
      UnitTable → String → ℕ → List (UnitSpec F) → List SointuUnit × List Diagnostic
  convert_units table instrument index [] = ([], [])
  convert_units table instrument index (u ∷ us) =
      let done =
        convert_parameters table instrument index u u.parameters
          (record { parameters = []; var_args = []; found = [] }) in
      let number : ℤ = elim (lookup u.id (lookup_or [] instrument table)) [
        | none ↦ pos 0
        | some entry ↦ entry.number
      ] in
      let rest = convert_units table instrument (suc index) us in
      (
        record {
          unit_type = u.unit_type;
          id = number;
          parameters = put "stereo" (bool_int u.stereo) done.parameters;
          var_args = done.var_args;
          disabled = u.disabled;
        }
            ∷ rest.0,
        done.found ++ rest.1,
      )
