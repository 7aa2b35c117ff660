-- ===== src/Patch/Sointu.antt =====
-- third_party/sointu, as far as the compiler uses it: its types, and the parameter of the model.
use Prim.Native.String.{String}
use govertone.Common.{ℕ, Bool, Option, List}
use govertone.Common.Int.{ℤ}
use govertone.Patch.Model.{CanonicalInstrument}

-- `sointu.UnitParameter`
pub record UnitParameter : Type 0 where
  pub name : String
  pub min_value : ℤ
  pub max_value : ℤ
  pub neutral : ℤ
  pub can_set : Bool
  pub can_modulate : Bool

-- `sointu.Unit` and `sointu.Instrument`
pub record SointuUnit : Type 0 where
  pub unit_type : String
  pub id : ℤ
  pub parameters : List (String × ℤ)
  pub var_args : List ℤ
  pub disabled : Bool

pub record SointuInstrument : Type 0 where
  pub name : String
  pub num_voices : ℤ
  pub units : List SointuUnit

-- A ParameterAddress: the instrument, the unit and the parameter.
abbrev pub ParameterAddress : Type 0
ParameterAddress = (ℕ × ℕ) × String

-- The data and functions of Sointu, and the digest of the JSON form. `none` is an error.
pub record Sointu (F : Type 0) : Type 0 where
  pub unit_types : List (String × List UnitParameter)
  pub sine : ℤ
  pub trisaw : ℤ
  pub pulse : ℤ
  pub gate : ℤ
  pub sample : ℤ
  pub stack_need : SointuUnit → ℤ
  pub stack_change : SointuUnit → ℤ
  -- `vm.NewBytecode`: its ParameterOperands
  pub bytecode : List SointuInstrument → Option (List (ParameterAddress × ℤ))
  -- whether `GoSynther.Synth` takes the patch
  pub synth : List SointuInstrument → Bool
  -- sha256 of the JSON form
  pub digest : List (CanonicalInstrument F) → Option String
