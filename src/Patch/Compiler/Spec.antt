-- ===== src/Patch/Compiler/Spec.antt =====
-- internal/patch/compiler.go: the loops of `normalize` over units and instruments.
use Prim.Native.String.{String, len}
use govertone.Common.{
  ℕ, zero, suc, ◌*◌, ltb, Bool, false, not, ◌&&◌, ◌||◌, none, some, List, [], ◌∷◌, ◌++◌, map,
  if◌then◌else◌,
}
use govertone.Common.Float.{Float64}
use govertone.Common.Int.{pos, negsuc, ltb_ℤ, eqb_ℤ, pos_part}
use govertone.Common.Maps.{put, string_key}
use govertone.Common.Result.{ok, err}
use govertone.Common.Text.{str_eq}
use govertone.Patch.Names.{normalize_instrument_id, normalize_unit_id}
use govertone.Patch.Model.{
  SynthParameter, UnitSpec, InstrumentSpec, PatchSpec, Diagnostic, SourceInfo, warning, diag,
}
use govertone.Patch.Schema.{UnitSchema, schema_of, member}
use govertone.Patch.Sointu.{Sointu}
use govertone.Patch.Compiler.Normalize.{Limits, unit_name, normalize_descriptor}
use govertone.Patch.Compiler.Parameters.{
  UnitProgress, Place, at, normalize_virtual_parameters, add_defaults, add_parameters,
}

abbrev is_zero_source : SourceInfo → Bool
is_zero_source s =
    (str_eq s.namespace "" && str_eq s.file "") && (eqb_ℤ s.line (pos 0) && eqb_ℤ s.column (pos 0))

module _ {F : Type 0} where
  unfoldable pub unused_controls :
      String → List String → List (String × SynthParameter F) → List Diagnostic
  unused_controls id used [] = []
  unused_controls id used (entry ∷ entries) =
      let rest = unused_controls id used entries in
      if member entry.0 used
      then rest
      else record (diag "unused-control" id (negsuc 0) "" entry.0) { severity = warning } ∷ rest

  -- The source of the unit that a diagnostic names, or of its instrument.
  unfoldable pub unit_source : List (UnitSpec F) → ℕ → SourceInfo → SourceInfo
  unit_source [] i given = given
  unit_source (u ∷ us) zero given = if is_zero_source u.source then given else u.source
  unit_source (u ∷ us) (suc i) given = unit_source us i given

  unfoldable pub locate : List (InstrumentSpec F) → Diagnostic → Diagnostic
  locate [] d = d
  locate (i ∷ is) d =
      let rest = locate is d in
      let given = i.metadata.source in
      let found =
        if ltb_ℤ d.unit_index (pos 0)
        then given
        else unit_source i.units (pos_part d.unit_index) given in
      if str_eq i.id d.instrument then record d { source = found } else rest

module _ (fl : Float64) (so : Sointu fl.Float) where
  open fl use {Float, of_int, add, mul, is_nan, is_inf, round}

  -- What the loop over an instrument's units changes.
  pub record InstrumentProgress : Type 0 where
    pub units : List (UnitSpec Float)
    pub seen : List String
    pub controls : List String
    pub found : List Diagnostic

  -- A unit whose type and name are known.
  unfoldable pub complete_unit :
      Place
      → UnitSchema Float
      → List (String × SynthParameter Float)
      → UnitSpec Float
      → InstrumentProgress
      → InstrumentProgress
  complete_unit place schema declared raw s =
      let repeated =
        if member place.unit s.seen then at place "duplicate-unit-id" "" ∷ [] else [] in
      let flat =
        if raw.stereo_set && (raw.stereo && not schema.stereo_allowed)
        then at place "unsupported-stereo" "" ∷ []
        else [] in
      let start : UnitProgress Float = record {
        parameters = [];
        bindings = [];
        provided = [];
        used = s.controls;
        diagnostics = s.found ++ (repeated ++ flat);
      } in
      let given = add_parameters fl so place schema declared raw.parameters start in
      let done = add_defaults place schema.parameters given in
      let u = normalize_virtual_parameters (record {
        id = place.unit;
        explicit_id = raw.explicit_id;
        unit_type = schema.unit_type;
        parameters = done.parameters;
        control_bindings = done.bindings;
        stereo =
            if raw.stereo_set then raw.stereo else schema.stereo_default && schema.stereo_allowed;
        stereo_set = false;
        disabled = raw.disabled;
        source = raw.source;
      }) in
      record {
        units = s.units ++ u ∷ [];
        seen = place.unit ∷ s.seen;
        controls = done.used;
        found = done.diagnostics;
      }

  unfoldable pub normalize_unit :
      List (String × UnitSchema Float)
      → String
      → ℕ
      → List (String × SynthParameter Float)
      → UnitSpec Float
      → InstrumentProgress
      → InstrumentProgress
  normalize_unit schemas id index declared raw s =
      let name = if raw.explicit_id then normalize_unit_id raw.id else ok (unit_name index) in
      let refuse = λ (code : String). record s {
        found = s.found ++ diag code id (pos index) raw.id "" ∷ [];
      } in
      elim (schema_of schemas raw.unit_type) [
        | none ↦ refuse "unknown-unit-type"
        | some schema ↦ elim name [
          | ok uid ↦
              complete_unit (record { instrument = id; index = pos index; unit = uid }) schema
                declared raw s
          | _ ↦ refuse "invalid-unit-id"
        ]
      ]

  unfoldable pub normalize_units :
      List (String × UnitSchema Float)
      → String
      → ℕ
      → List (String × SynthParameter Float)
      → List (UnitSpec Float)
      → InstrumentProgress
      → InstrumentProgress
  normalize_units schemas id index declared [] s = s
  normalize_units schemas id index declared (u ∷ us) s =
      normalize_units schemas id (suc index) declared us
        (normalize_unit schemas id index declared u s)

  -- The controls that an instrument declares, and the diagnostics of those that are refused.
  unfoldable pub normalize_descriptors :
      String
      → List (String × SynthParameter Float)
      → List (String × SynthParameter Float)
      → List (String × SynthParameter Float) × List Diagnostic
  normalize_descriptors id [] kept = (kept, [])
  normalize_descriptors id (entry ∷ entries) kept =
      let checked = normalize_descriptor fl entry.0 entry.1 in
      let next : List (String × SynthParameter Float) = elim checked [
        | ok d ↦ put d.id d kept
        | _ ↦ kept
      ] in
      let complaint : List Diagnostic = elim checked [
        | err (code, name) ↦ diag code id (negsuc 0) "" name ∷ []
        | _ ↦ []
      ] in
      let rest = normalize_descriptors id entries next in (rest.0, complaint ++ rest.1)

  unfoldable pub normalize_instrument :
      Limits
      → List (String × UnitSchema Float)
      → String
      → InstrumentSpec Float
      → InstrumentSpec Float × List Diagnostic
  normalize_instrument limits schemas id raw =
      let plain = λ (code : String). diag code id (pos 0) "" "" ∷ [] in
      let few =
        if ltb_ℤ raw.voices (pos 1) || ltb_ℤ limits.max_voices raw.voices
        then plain "invalid-voice-count"
        else [] in
      let long =
        if ltb (64 * 1024) (len raw.metadata.doc) then plain "metadata-limit-exceeded" else [] in
      let declared = normalize_descriptors id raw.parameters [] in
      let done =
        normalize_units schemas id 0 declared.0 raw.units
          (record { units = []; seen = []; controls = []; found = [] }) in
      (
        record raw { id = id; parameters = declared.0; units = done.units },
        few
            ++ (long
                ++ (declared.1 ++ (done.found ++ unused_controls id done.controls declared.0))),
      )

  unfoldable pub normalize_instruments :
      Limits
      → List (String × UnitSchema Float)
      → List (InstrumentSpec Float)
      → List String
      → List (InstrumentSpec Float) × List Diagnostic
  normalize_instruments limits schemas [] seen = ([], [])
  normalize_instruments limits schemas (raw ∷ raws) seen = elim (normalize_instrument_id raw.id) [
    | ok id ↦
        let skipped = normalize_instruments limits schemas raws seen in
        let here = normalize_instrument limits schemas id raw in
        let rest = normalize_instruments limits schemas raws (id ∷ seen) in
        if member id seen
        then (skipped.0, diag "duplicate-instrument-id" id (pos 0) "" "" ∷ skipped.1)
        else (here.0 ∷ rest.0, here.1 ++ rest.1)
    | _ ↦
        let rest = normalize_instruments limits schemas raws seen in
        (rest.0, diag "invalid-instrument-id" raw.id (pos 0) "" "" ∷ rest.1)
  ]

  -- `normalize`
  unfoldable pub normalize :
      Limits
      → List (String × UnitSchema Float)
      → PatchSpec Float
      → PatchSpec Float × List Diagnostic
  normalize limits schemas input =
      let done = normalize_instruments limits schemas input.instruments [] in
      (record input { instruments = done.0 }, map (locate input.instruments) done.1)
