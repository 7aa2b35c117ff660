-- ===== src/Patch/Model.antt =====
-- The data of a patch (internal/patch/model.go, errors.go, fingerprint.go). A reference and a control
-- reference are there whenever the kind says so, as the constructors RefParam and ControlParam make
-- them. Texts for a reader are left out, but for the documentation, whose length has a limit.
pub mod Errors
use Prim.Native.String.{String}
use govertone.Common.{ℕ, Bool, true, false, Option, List, [], ◌∷◌, map}
use govertone.Common.Text.{str_eq}
use govertone.Common.Int.{ℤ, pos}
use govertone.Audio.State.{Transform}
use govertone.Patch.Names.{normalize_name}

pub data ParameterKind : Type 0 where
  integer float boolean enum reference control_reference : ParameterKind

pub record SourceInfo : Type 0 where
  pub namespace : String
  pub file : String
  pub line : ℤ
  pub column : ℤ

abbrev pub no_source : SourceInfo
no_source = record { namespace = ""; file = ""; line = pos 0; column = pos 0 }

pub record UnitReference : Type 0 where
  pub instrument : String
  pub unit : String
  pub port : String

pub record ControlReference (F : Type 0) : Type 0 where
  pub parameter : String
  pub transform : Transform F

pub data Content (F : Type 0) : Type 0 where
  integer : ℤ → Content F
  float : F → Content F
  boolean : Bool → Content F
  enum : String → Content F
  reference : UnitReference → Content F
  control : ControlReference F → Content F

-- A value, and whether it was written or is a default.
pub record ParameterValue (F : Type 0) : Type 0 where
  pub content : Content F
  pub explicit : Bool

abbrev pub ParameterMap : Type 0 → Type 0
ParameterMap F = List (String × ParameterValue F)

module _ {F : Type 0} where
  unfoldable pub int_param : ℤ → ParameterValue F
  int_param v = record { content = Content.integer v; explicit = true }

  unfoldable pub float_param : F → ParameterValue F
  float_param v = record { content = Content.float v; explicit = true }

  unfoldable pub bool_param : Bool → ParameterValue F
  bool_param v = record { content = Content.boolean v; explicit = true }

  unfoldable pub enum_param : String → ParameterValue F
  enum_param v = record { content = Content.enum (normalize_name v); explicit = true }

  unfoldable pub ref_param : UnitReference → ParameterValue F
  ref_param v = record { content = Content.reference v; explicit = true }

-- SynthParameter
pub record SynthParameter (F : Type 0) : Type 0 where
  pub id : String
  pub default : F
  pub minimum : F
  pub maximum : F
  pub scope : String
  pub smoothing : F
  pub curve : String

pub record UnitSpec (F : Type 0) : Type 0 where
  pub id : String
  pub explicit_id : Bool
  pub unit_type : String
  pub parameters : ParameterMap F
  pub control_bindings : List (String × ControlReference F)
  pub stereo : Bool
  pub stereo_set : Bool
  pub disabled : Bool
  pub source : SourceInfo

pub record InstrumentMetadata : Type 0 where
  pub doc : String
  pub source : SourceInfo
  pub tags : List String

pub record InstrumentSpec (F : Type 0) : Type 0 where
  pub id : String
  pub voices : ℤ
  pub parameters : List (String × SynthParameter F)
  pub units : List (UnitSpec F)
  pub metadata : InstrumentMetadata

pub record PatchSpec (F : Type 0) : Type 0 where
  pub instruments : List (InstrumentSpec F)
  pub source : SourceInfo

pub data Severity : Type 0 where
  error warning info : Severity

pub record Diagnostic : Type 0 where
  pub severity : Severity
  pub code : String
  pub instrument : String
  pub unit_id : String
  pub unit_index : ℤ
  pub parameter : String
  pub source : SourceInfo

-- `diag`
unfoldable pub diag : String → String → ℤ → String → String → Diagnostic
diag code id index uid param = record {
  severity = error;
  code = code;
  instrument = id;
  unit_id = uid;
  unit_index = index;
  parameter = param;
  source = no_source;
}

abbrev pub is_error : Severity → Bool
is_error error = true
is_error warning = false
is_error info = false

unfoldable pub has_errors : List Diagnostic → Bool
has_errors [] = false
has_errors (d ∷ ds) =
    let rest = has_errors ds in elim (is_error d.severity) [ true ↦ true | false ↦ rest ]

-- What the fingerprint is taken of: `canonicalPatch`.
pub record CanonicalUnit (F : Type 0) : Type 0 where
  pub id : String
  pub unit_type : String
  pub parameters : ParameterMap F
  pub stereo : Bool
  pub disabled : Bool

pub record CanonicalInstrument (F : Type 0) : Type 0 where
  pub id : String
  pub voices : ℤ
  pub units : List (CanonicalUnit F)

module _ {F : Type 0} where
  unfoldable pub canonical_unit : UnitSpec F → CanonicalUnit F
  canonical_unit u = record {
    id = u.id;
    unit_type = u.unit_type;
    parameters = u.parameters;
    stereo = u.stereo;
    disabled = u.disabled;
  }

  unfoldable pub canonical_instrument : InstrumentSpec F → CanonicalInstrument F
  canonical_instrument i = record {
    id = i.id;
    voices = i.voices;
    units = map canonical_unit i.units;
  }

  unfoldable pub canonical : PatchSpec F → List (CanonicalInstrument F)
  canonical spec = map canonical_instrument spec.instruments
