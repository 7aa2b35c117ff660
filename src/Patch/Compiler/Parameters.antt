-- ===== src/Patch/Compiler/Parameters.antt =====
-- internal/patch/compiler.go: the loops of `normalize` over a unit's parameters.
use Prim.Native.String.{String}
use govertone.Common.{not, ◌||◌, Option, none, some, List, [], ◌∷◌, ◌++◌, if◌then◌else◌}
use govertone.Common.Float.{Float64}
use govertone.Common.Int.{ℤ}
use govertone.Common.Maps.{lookup, lookup_or, put, delete, string_key}
use govertone.Common.Result.{ok, err, panic}
use govertone.Common.Text.{str_eq}
use govertone.Patch.Model.{
  Content, ParameterValue, ParameterMap, SynthParameter, ControlReference, UnitSpec, Diagnostic,
  diag, int_param, float_param, bool_param,
}
use govertone.Patch.Schema.{ParameterSchema, UnitSchema, zero_schema, canonical_parameter, member}
use govertone.Patch.Sointu.{Sointu}
use govertone.Patch.Compiler.Normalize.{error_code, controllable, bool_int, normalize_parameter}

-- What the loop over a unit's parameters changes.
pub record UnitProgress (F : Type 0) : Type 0 where
  pub parameters : ParameterMap F
  pub bindings : List (String × ControlReference F)
  pub provided : List String
  pub used : List String
  pub diagnostics : List Diagnostic

-- Where a diagnostic points.
pub record Place : Type 0 where
  pub instrument : String
  pub index : ℤ
  pub unit : String

abbrev pub at : Place → String → String → Diagnostic
at p code name = diag code p.instrument p.index p.unit name

module _ {F : Type 0} where
  abbrev complain : UnitProgress F → Diagnostic → UnitProgress F
  complain s d = record s { diagnostics = s.diagnostics ++ d ∷ [] }

  abbrev enum_of : Option (ParameterValue F) → String
  enum_of none = ""
  enum_of (some v) = elim v.content [ Content.enum e ↦ e | _ ↦ "" ]

  -- `normalizeVirtualParameters`
  unfoldable pub normalize_virtual_parameters : UnitSpec F → UnitSpec F
  normalize_virtual_parameters u =
      let kind = enum_of (lookup "type" u.parameters) in
      let notch = str_eq kind "notch" in
      let low =
        put "lowpass" (bool_param (str_eq kind "lowpass" || notch)) (delete "type" u.parameters) in
      let band = put "bandpass" (int_param (bool_int (str_eq kind "bandpass"))) low in
      if str_eq u.unit_type "filter"
      then record u {
        parameters = put "highpass" (int_param (bool_int (str_eq kind "highpass" || notch))) band;
      }
      else u

  -- The defaults of what is not provided.
  unfoldable pub add_defaults :
      Place → List (String × ParameterSchema F) → UnitProgress F → UnitProgress F
  add_defaults place [] s = s
  add_defaults place (entry ∷ entries) s =
      let required = complain s (at place "missing-parameter" entry.0) in
      let filled : UnitProgress F = elim entry.1.default [
        | none ↦ s
        | some v ↦ record s { parameters = put entry.0 v s.parameters }
      ] in
      add_defaults place entries
        (if member entry.0 s.provided then s else if entry.1.required then required else filled)

module _ (fl : Float64) (so : Sointu fl.Float) where
  open fl use {Float, of_int, add, mul, is_nan, is_inf, round}

  abbrev pub Progress : Type 0
  Progress = UnitProgress Float

  unfoldable pub store_parameter :
      Place → UnitSchema Float → String → ParameterValue Float → Progress → Progress
  store_parameter place schema name value s =
      elim (normalize_parameter fl (lookup_or zero_schema name schema.parameters) value) [
        | ok v ↦ record s { parameters = put name v s.parameters }
        | err e ↦ complain s (at place (error_code e) name)
        | panic ↦ s
      ]

  -- A parameter whose value is a control of the instrument.
  unfoldable pub bind_control :
      Place
      → UnitSchema Float
      → List (String × SynthParameter Float)
      → String
      → ControlReference Float
      → Progress
      → Progress
  bind_control place schema declared name c s = elim (lookup c.parameter declared) [
    | none ↦ complain s (at place "unknown-control" name)
    | some d ↦
        let used = record s { used = c.parameter ∷ s.used } in
        let t = c.transform in
        let mapped = add (mul d.default t.scale) t.offset in
        if not (controllable (lookup_or [] schema.unit_type so.unit_types) name)
        then complain used (at place "control-binding-missing" name)
        else if (is_nan t.scale || is_inf t.scale) || (is_nan t.offset || is_inf t.offset)
        then complain used (at place "invalid-control-value" name)
        else store_parameter place schema name (float_param (round mapped))
            (record used { bindings = put name c s.bindings })
  ]

  unfoldable pub add_parameter :
      Place
      → UnitSchema Float
      → List (String × SynthParameter Float)
      → String
      → ParameterValue Float
      → Progress
      → Progress
  add_parameter place schema declared raw value s = elim (canonical_parameter schema raw) [
    | none ↦ complain s (at place "unknown-parameter" raw)
    | some name ↦
        let seen = record s { provided = name ∷ s.provided } in
        elim value.content [
          | Content.control c ↦ bind_control place schema declared name c seen
          | _ ↦ store_parameter place schema name value seen
        ]
  ]

  unfoldable pub add_parameters :
      Place
      → UnitSchema Float
      → List (String × SynthParameter Float)
      → ParameterMap Float
      → Progress
      → Progress
  add_parameters place schema declared [] s = s
  add_parameters place schema declared (entry ∷ entries) s =
      add_parameters place schema declared entries
        (add_parameter place schema declared entry.0 entry.1 s)
