-- ===== src/Patch/Compiler/Compile.antt =====
-- internal/patch/compiler.go: Compile.
pub mod Voices
pub mod Returned
use Prim.Native.String.{String}
use govertone.Common.{
  ℕ, zero, suc, ◌+◌, ltb, Bool, true, false, Option, none, some, List, [], ◌∷◌, ◌++◌, map, length,
  if◌then◌else◌,
}
use govertone.Common.Float.{Float64}
use govertone.Common.Int.{ℤ, pos, ◌+ℤ◌, ltb_ℤ}
use govertone.Common.Maps.{lookup, lookup_or, string_key, nat_key, pair_key}
use govertone.Common.Result.{Result, ok, err, panic, ◌>>=◌}
use govertone.Audio.State.{ControlBinding}
use govertone.Patch.Model.{
  SynthParameter, UnitSpec, InstrumentSpec, PatchSpec, Diagnostic, diag, has_errors, canonical,
  canonical_instrument,
}
use govertone.Patch.Sointu.{Sointu, SointuUnit, SointuInstrument, ParameterAddress}
use govertone.Patch.Schema.{new_schema_registry}
use govertone.Patch.Compiler.Normalize.{Limits}
use govertone.Patch.Compiler.Spec.{normalize}
use govertone.Patch.Compiler.Stack.{analyze_stack}
use govertone.Patch.Compiler.Operands.{
  UnitTable, sort_names, number_instruments, total_units, has_enabled_envelope,
  hard_release_operands, convert_units, unit_indices,
}

pub record CompiledInstrument : Type 0 where
  pub id : String
  pub index : ℕ
  pub first_voice : ℤ
  pub num_voices : ℤ
  pub unit_ids : List (String × ℕ)
  pub fingerprint : String
  pub hard_release_operands : List ℤ

-- InstrumentLayout. The IDs are distinct, so that an entry is added and none is replaced.
pub record InstrumentLayout : Type 0 where
  pub instruments : List (String × CompiledInstrument)
  pub ordered_ids : List String
  pub total_voices : ℤ

-- ControlBinding: what the engine reads of it, and the rest.
pub record CompiledBinding (F : Type 0) : Type 0 where
  pub binding : ControlBinding F
  pub index : ℕ
  pub unit_id : String
  pub unit_index : ℕ
  pub unit_parameter : String

pub record CompiledPatch (F : Type 0) : Type 0 where
  pub patch : List SointuInstrument
  pub spec : PatchSpec F
  pub layout : InstrumentLayout
  pub fingerprint : String
  pub diagnostics : List Diagnostic
  pub bindings : List (CompiledBinding F)
  pub generation : ℕ

-- What the loop over the instruments makes.
pub record LaidOut : Type 0 where
  pub layout : InstrumentLayout
  pub patch : List SointuInstrument
  pub diagnostics : List Diagnostic

abbrev pub when : Bool → Diagnostic → List Diagnostic
when b d = if b then d ∷ [] else []

abbrev text_or_empty : Option String → String
text_or_empty none = ""
text_or_empty (some s) = s

module _ {F : Type 0} (so : Sointu F) (limits : Limits) where
  -- The diagnostics of an instrument and its units, before and after those of its stack.
  unfoldable pub limit_diagnostics : InstrumentSpec F → ℤ → List Diagnostic
  limit_diagnostics i first =
      when (ltb limits.max_units_per_instrument (length i.units))
        (diag "unit-limit-exceeded" i.id (pos 0) "" "")
      ++ when (ltb_ℤ limits.max_voices (first +ℤ i.voices))
          (diag "voice-limit-exceeded" i.id (pos 0) "" "")

  unfoldable pub with_stack : String → List SointuUnit → List Diagnostic → List Diagnostic
  with_stack id units found =
      if has_errors found then found else found ++ analyze_stack so limits id units

  unfoldable pub lay_out : UnitTable → List (InstrumentSpec F) → ℕ → ℤ → List Diagnostic → LaidOut
  lay_out table [] index first found = record {
    layout = record { instruments = []; ordered_ids = []; total_voices = first };
    patch = [];
    diagnostics = found;
  }
  lay_out table (i ∷ is) index first found =
      let converted = convert_units so table i.id 0 i.units in
      let checked = found ++ (limit_diagnostics i first ++ converted.1) in
      let rest =
        lay_out table is (suc index) (first +ℤ i.voices) (with_stack i.id converted.0 checked) in
      record {
        layout = record {
          instruments =
              (
                i.id,
                record {
                  id = i.id;
                  index = index;
                  first_voice = first;
                  num_voices = i.voices;
                  unit_ids = unit_indices i.units 0 [];
                  fingerprint = text_or_empty (so.digest (canonical_instrument i ∷ []));
                  hard_release_operands = [];
                },
              )
              ∷ rest.layout.instruments;
          ordered_ids = i.id ∷ rest.layout.ordered_ids;
          total_voices = rest.layout.total_voices;
        };
        patch = record { name = i.id; num_voices = i.voices; units = converted.0 } ∷ rest.patch;
        diagnostics = rest.diagnostics;
      }

module _ {F : Type 0} where
  -- The entry of an instrument is the one at its place.
  unfoldable pub add_hard_release :
      List (ParameterAddress × ℤ)
      → List (InstrumentSpec F)
      → ℕ
      → List (String × CompiledInstrument)
      → List (String × CompiledInstrument)
  add_hard_release table [] index entries = entries
  add_hard_release table (i ∷ is) index [] = []
  add_hard_release table (i ∷ is) index (entry ∷ entries) =
      let operands =
        if has_enabled_envelope i.units then [] else hard_release_operands table index i.units 0 in
      (entry.0, record entry.1 { hard_release_operands = operands })
      ∷ add_hard_release table is (suc index) entries

module _ (fl : Float64) where
  open fl use {Float, of_int}

  abbrev zero_descriptor : SynthParameter Float
  zero_descriptor =
      let z = of_int (pos 0) in
      record {
        id = "";
        default = z;
        minimum = z;
        maximum = z;
        scope = "";
        smoothing = z;
        curve = "";
      }

  -- A unit with its instrument, and the places of both.
  pub record UnitAt : Type 0 where
    pub instrument : InstrumentSpec Float
    pub instrument_index : ℕ
    pub unit : UnitSpec Float
    pub unit_index : ℕ

  unfoldable pub bind_names :
      List (ParameterAddress × ℤ)
      → UnitAt
      → List String
      → List (CompiledBinding Float)
      → Result (List Diagnostic) (List (CompiledBinding Float))
  bind_names table at [] bound = ok bound
  bind_names table at (name ∷ names) bound = elim (lookup name at.unit.control_bindings) [
    | none ↦ bind_names table at names bound
    | some c ↦
        let d = lookup_or zero_descriptor c.parameter at.instrument.parameters in
        elim (lookup ((at.instrument_index, at.unit_index), name) table) [
          | none ↦ err (
              diag "control-binding-missing" at.instrument.id (pos at.unit_index) at.unit.id name
              ∷ [])
          | some operand ↦ bind_names table at names (
              bound
              ++ record {
                binding = record {
                  instrument = at.instrument.id;
                  parameter = c.parameter;
                  operand = operand;
                  scope = d.scope;
                  minimum = d.minimum;
                  maximum = d.maximum;
                  default = d.default;
                  smoothing = d.smoothing;
                  transform = c.transform;
                };
                index = length bound;
                unit_id = at.unit.id;
                unit_index = at.unit_index;
                unit_parameter = name;
              }
                ∷ [])
        ]
  ]

  unfoldable pub bind_units :
      List (ParameterAddress × ℤ)
      → InstrumentSpec Float
      → ℕ
      → List (UnitSpec Float)
      → ℕ
      → List (CompiledBinding Float)
      → Result (List Diagnostic) (List (CompiledBinding Float))
  bind_units table i index [] unit_index bound = ok bound
  bind_units table i index (u ∷ us) unit_index bound =
      let at : UnitAt = record {
        instrument = i;
        instrument_index = index;
        unit = u;
        unit_index = unit_index;
      } in
      bind_names table at (sort_names (map (λ e. e.0) u.control_bindings)) bound >>= λ next.
      bind_units table i index us (suc unit_index) next

  unfoldable pub bind_instruments :
      List (ParameterAddress × ℤ)
      → List (InstrumentSpec Float)
      → ℕ
      → List (CompiledBinding Float)
      → Result (List Diagnostic) (List (CompiledBinding Float))
  bind_instruments table [] index bound = ok bound
  bind_instruments table (i ∷ is) index bound = bind_units table i index i.units 0 bound >>= λ next.
      bind_instruments table is (suc index) next

module _ (fl : Float64) (so : Sointu fl.Float) (limits : Limits) where
  open fl use {Float}

  abbrev pub Compiled : Type 0
  Compiled = Result (List Diagnostic) (CompiledPatch Float)

  -- Compile from the bytecode on.
  unfoldable pub link : PatchSpec Float → LaidOut → String → List (ParameterAddress × ℤ) → Compiled
  link spec laid fingerprint table = bind_instruments fl table spec.instruments 0 [] >>= λ bindings.
      if so.synth laid.patch
      then ok (record {
        patch = laid.patch;
        spec = spec;
        layout = record laid.layout {
          instruments = add_hard_release table spec.instruments 0 laid.layout.instruments;
        };
        fingerprint = fingerprint;
        diagnostics = laid.diagnostics;
        bindings = bindings;
        generation = 0;
      })
      else err (diag "patch-compile-failed" "" (pos 0) "" "" ∷ [])

  unfoldable pub assemble : PatchSpec Float → LaidOut → Compiled
  assemble spec laid =
      if has_errors laid.diagnostics
      then err laid.diagnostics
      else elim (so.digest (canonical spec)) [
        | none ↦ err []
        | some fingerprint ↦ elim (so.bytecode laid.patch) [
          | none ↦ err (diag "patch-compile-failed" "" (pos 0) "" "" ∷ [])
          | some table ↦ link spec laid fingerprint table
        ]
      ]

  unfoldable pub compile : PatchSpec Float → Compiled
  compile input =
      let normalized = normalize fl so limits (new_schema_registry fl so) input in
      let spec = normalized.0 in
      let counted =
        normalized.1
        ++ (when (ltb limits.max_instruments (length spec.instruments))
              (diag "instrument-limit-exceeded" "" (pos 0) "" "")
            ++ when (ltb limits.max_aggregate_units (total_units spec.instruments))
                (diag "unit-limit-exceeded" "" (pos 0) "" "")) in
      if has_errors normalized.1
      then err normalized.1
      else assemble spec (
          lay_out so limits (number_instruments spec.instruments 1 []) spec.instruments 0 (pos 0)
            counted)
