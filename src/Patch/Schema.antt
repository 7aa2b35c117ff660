-- ===== src/Patch/Schema.antt =====
-- internal/patch/schema.go: what the compiler knows of each type of unit.
use Prim.Native.String.{String}
use govertone.Common.{
  Bool, true, false, not, ◌&&◌, Option, none, some, List, [], ◌∷◌, ◌++◌, if◌then◌else◌,
}
use govertone.Common.Float.{Float64}
use govertone.Common.Int.{pos, ltb_ℤ, eqb_ℤ}
use govertone.Common.Maps.{lookup, lookup_or, put, string_key}
use govertone.Common.Text.{str_eq}
use govertone.Patch.Names.{normalize_name}
use govertone.Patch.Model.{
  ParameterKind, ParameterValue, integer, boolean, enum, reference, int_param, bool_param,
  enum_param,
}
use govertone.Patch.Sointu.{Sointu, UnitParameter}

pub record ParameterSchema (F : Type 0) : Type 0 where
  pub name : String
  pub aliases : List String
  pub kind : ParameterKind
  pub required : Bool
  pub default : Option (ParameterValue F)
  pub minimum : Option F
  pub maximum : Option F
  pub enum_values : List String
  pub sointu_name : String

-- `unset` is the empty string.
pub data StackBehavior : Type 0 where
  producer transform binary_keep binary_pop push pop sink noop unset : StackBehavior

pub record UnitSchema (F : Type 0) : Type 0 where
  pub unit_type : String
  pub parameters : List (String × ParameterSchema F)
  pub stack : StackBehavior
  pub stereo_allowed : Bool
  pub stereo_default : Bool

abbrev pub member : String → List String → Bool
member s [] = false
member s (t ∷ ts) = if str_eq s t then true else member s ts

unfoldable pub behavior : String → StackBehavior
behavior t =
    if member t
      ("envelope" ∷ "oscillator" ∷ "noise" ∷ "loadval" ∷ "loadnote" ∷ "receive" ∷ "in" ∷ [])
    then producer
    else if member t ("add" ∷ "mul" ∷ "xch" ∷ [])
    then binary_keep
    else if member t ("addp" ∷ "mulp" ∷ [])
    then binary_pop
    else if str_eq t "push"
    then push
    else if str_eq t "pop"
    then pop
    else if member t ("out" ∷ "outaux" ∷ "aux" ∷ [])
    then sink
    else if member t ("speed" ∷ "sync" ∷ [])
    then noop
    else transform

abbrev pub default_stereo : String → Bool
default_stereo t = true

module _ {F : Type 0} where
  abbrev pub zero_schema : ParameterSchema F
  zero_schema = record {
    name = "";
    aliases = [];
    kind = integer;
    required = false;
    default = none;
    minimum = none;
    maximum = none;
    enum_values = [];
    sointu_name = "";
  }

  -- What a read of a missing type gives.
  abbrev pub zero_unit : UnitSchema F
  zero_unit = record {
    unit_type = "";
    parameters = [];
    stack = unset;
    stereo_allowed = false;
    stereo_default = false;
  }

  -- `defaultParam`
  unfoldable pub default_param : ParameterValue F → Option (ParameterValue F)
  default_param v = some (record v { explicit = false })

  unfoldable pub set_default : String → ParameterValue F → UnitSchema F → UnitSchema F
  set_default name v s = elim (lookup name s.parameters) [
    | none ↦ s
    | some p ↦ record s {
      parameters = put name (record p { default = default_param v }) s.parameters;
    }
  ]

  -- A change of one parameter, the zero value where it is missing.
  abbrev pub change : String → (ParameterSchema F → ParameterSchema F) → UnitSchema F → UnitSchema F
  change name f s = record s {
    parameters = put name (f (lookup_or zero_schema name s.parameters)) s.parameters;
  }

  unfoldable pub alias : String → List String → UnitSchema F → UnitSchema F
  alias name aliases s = change name (λ p. record p { aliases = p.aliases ++ aliases }) s

  -- SchemaRegistry.update
  unfoldable pub update_type :
      String
      → (UnitSchema F → UnitSchema F)
      → List (String × UnitSchema F)
      → List (String × UnitSchema F)
  update_type t f units = put t (f (lookup_or zero_unit t units)) units

  -- SchemaRegistry.Schema
  unfoldable pub schema_of : List (String × UnitSchema F) → String → Option (UnitSchema F)
  schema_of units t = lookup (normalize_name t) units

  -- The loop over the aliases in CanonicalParameter.
  unfoldable pub find_alias : String → List (String × ParameterSchema F) → Option String
  find_alias name [] = none
  find_alias name (entry ∷ entries) =
      let rest = find_alias name entries in
      if member name entry.1.aliases then some entry.0 else rest

  unfoldable pub canonical_parameter : UnitSchema F → String → Option String
  canonical_parameter s raw =
      let name = normalize_name raw in
      elim (lookup name s.parameters) [ some p ↦ some name | none ↦ find_alias name s.parameters ]

module _ (fl : Float64) where
  open fl use {Float, of_int}

  -- One parameter of Sointu, in the loop of NewSchemaRegistry.
  unfoldable pub parameter_schema : UnitParameter → ParameterSchema Float
  parameter_schema up =
      let ranged = not (ltb_ℤ up.max_value up.min_value) in
      let flag = eqb_ℤ up.min_value (pos 0) && eqb_ℤ up.max_value (pos 1) in
      record zero_schema {
        name = up.name;
        sointu_name = up.name;
        minimum = if ranged then some (of_int up.min_value) else none;
        maximum = if ranged then some (of_int up.max_value) else none;
        kind = if flag then boolean else integer;
        default = default_param (if flag then bool_param false else int_param up.neutral);
      }

  unfoldable pub add_parameters : List UnitParameter → UnitSchema Float → UnitSchema Float
  add_parameters [] s = s
  add_parameters (up ∷ ups) s =
      let added = record s { parameters = put up.name (parameter_schema up) s.parameters } in
      add_parameters ups
        (if str_eq up.name "stereo" then record s { stereo_allowed = true } else added)

  unfoldable pub sointu_schemas :
      List (String × List UnitParameter)
      → List (String × UnitSchema Float)
      → List (String × UnitSchema Float)
  sointu_schemas [] units = units
  sointu_schemas (entry ∷ entries) units =
      let bare = record zero_unit { unit_type = entry.0; stack = behavior entry.0 } in
      let s = record (add_parameters entry.1 bare) { stereo_default = default_stereo entry.0 } in
      sointu_schemas entries (put entry.0 s units)

  unfoldable pub oscillator_views : UnitSchema Float → UnitSchema Float
  oscillator_views s =
      let waves = "sine" ∷ "saw" ∷ "trisaw" ∷ "pulse" ∷ "gate" ∷ "sample" ∷ [] in
      let typed =
        change "type"
          (λ p. record p {
            kind = enum;
            enum_values = waves;
            default = default_param (enum_param "sine");
          })
          s in
      let s1 = set_default "transpose" (int_param (pos 64)) typed in
      let s2 = set_default "detune" (int_param (pos 64)) s1 in
      let s3 = set_default "color" (int_param (pos 128)) s2 in
      let s4 = set_default "shape" (int_param (pos 64)) s3 in
      let s5 = set_default "gain" (int_param (pos 128)) s4 in alias "transpose" ("pitch" ∷ []) s5

  unfoldable pub envelope_defaults : UnitSchema Float → UnitSchema Float
  envelope_defaults s =
      let s1 = set_default "attack" (int_param (pos 4)) s in
      let s2 = set_default "decay" (int_param (pos 32)) s1 in
      let s3 = set_default "sustain" (int_param (pos 100)) s2 in
      let s4 = set_default "release" (int_param (pos 40)) s3 in
      set_default "gain" (int_param (pos 128)) s4

  unfoldable pub filter_views : UnitSchema Float → UnitSchema Float
  filter_views s =
      let passes = "lowpass" ∷ "bandpass" ∷ "highpass" ∷ "notch" ∷ [] in
      let typed =
        change "type"
          (λ p. record zero_schema {
            name = "type";
            kind = enum;
            enum_values = passes;
            default = default_param (enum_param "lowpass");
          })
          s in
      let s1 = set_default "frequency" (int_param (pos 64)) typed in
      let s2 = set_default "resonance" (int_param (pos 128)) s1 in
      alias "resonance" ("res" ∷ []) (alias "frequency" ("freq" ∷ "cutoff" ∷ []) s2)

  unfoldable pub delay_range : UnitSchema Float → UnitSchema Float
  delay_range = change "delaytime" (λ p. record p {
    kind = integer;
    minimum = some (of_int (pos 1));
    maximum = some (of_int (pos 65535));
    default = default_param (int_param (pos 11025));
  })

  unfoldable pub send_target : UnitSchema Float → UnitSchema Float
  send_target s =
      let target =
        change "target" (λ p. record p { kind = reference; required = true; default = none }) s in
      set_default "sendpop" (bool_param false) (set_default "amount" (int_param (pos 64)) target)

  -- NewSchemaRegistry
  unfoldable pub new_schema_registry : Sointu Float → List (String × UnitSchema Float)
  new_schema_registry so =
      let r0 = sointu_schemas so.unit_types [] in
      let r1 = update_type "oscillator" oscillator_views r0 in
      let r2 =
        update_type "noise"
          (λ s.
            set_default "gain" (int_param (pos 128)) (set_default "shape" (int_param (pos 64)) s))
          r1 in
      let r3 = update_type "envelope" envelope_defaults r2 in
      let r4 = update_type "filter" filter_views r3 in
      let r5 = update_type "delay" delay_range r4 in
      let r6 = update_type "out" (set_default "gain" (int_param (pos 80))) r5 in
      let r7 =
        update_type "outaux"
          (λ s.
            set_default "auxgain" (int_param (pos 0))
              (set_default "outgain" (int_param (pos 80)) s))
          r6 in
      let r8 = update_type "pan" (set_default "panning" (int_param (pos 64))) r7 in
      update_type "send" send_target r8
