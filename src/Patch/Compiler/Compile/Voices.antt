-- ===== src/Patch/Compiler/Compile/Voices.antt =====
-- The voices of the instruments of a compiled patch (internal/patch/compiler.go).
use Prim.Native.String.{String}
use govertone.Common.{
  ℕ, suc, ltb, length, ◌≡◌, refl, sym, ◌∙◌, inl, inr, Bool-cases, false, ◌||◌, List, [], ◌∷◌, ◌++◌,
  map, arith, if◌then◌else◌,
}
use govertone.Common.Float.{Float64}
use govertone.Common.Int.{ℤ, pos, ◌+ℤ◌, ◌≤ℤ◌, ltb_ℤ}
use govertone.Common.Result.{ok, outcome, returned, failed, panicked}
use govertone.Patch.Names.{normalize_instrument_id}
use govertone.Patch.Model.{InstrumentSpec, PatchSpec, Diagnostic, diag, has_errors}
use govertone.Patch.Model.Errors.{has_errors-append, has_errors-map}
use govertone.Patch.Schema.{UnitSchema, new_schema_registry, member}
use govertone.Patch.Sointu.{Sointu, SointuUnit, ParameterAddress}
use govertone.Patch.Compiler.Normalize.{Limits}
use govertone.Patch.Compiler.Spec.{locate, normalize_instrument, normalize_instruments, normalize}
use govertone.Patch.Compiler.Operands.{UnitTable, convert_units, number_instruments}
use govertone.Patch.Compiler.Compile.{
  CompiledInstrument, CompiledPatch, when, limit_diagnostics, with_stack, lay_out, add_hard_release,
  compile,
}
use govertone.Patch.Compiler.Compile.Returned.{assemble-IsFrom}

-- The instruments have at least one voice each, follow one another without a gap from the first
-- voice on, end within the limit, and reach the total.
abbrev pub Tiles : ℤ → ℤ → List (String × CompiledInstrument) → ℤ → Type 0
Tiles most first [] total = first ≡ total
Tiles most first (e ∷ es) total =
    (e.1.first_voice ≡ first)
    × (pos 1 ≤ℤ e.1.num_voices)
    × (first +ℤ e.1.num_voices ≤ℤ most)
    × Tiles most (first +ℤ e.1.num_voices) es total

module _ {F : Type 0} where
  abbrev HasVoices : List (InstrumentSpec F) → Type 0
  HasVoices [] = Unit {0}
  HasVoices (i ∷ is) = (pos 1 ≤ℤ i.voices) × HasVoices is

  locate-severity :
      (is : List (InstrumentSpec F)) (d : Diagnostic) → (locate is d).severity ≡ d.severity
  unfolding locate
  locate-severity [] d = refl
  locate-severity (i ∷ is) d = ground (arith, locate-severity is d)

  release-Tiles :
      (table : List (ParameterAddress × ℤ)) (is : List (InstrumentSpec F)) (index : ℕ)
      (entries : List (String × CompiledInstrument)) (most first total : ℤ)
      → Tiles most first entries total
      → Tiles most first (add_hard_release table is index entries) total
  unfolding add_hard_release
  release-Tiles table [] index entries most first total t = t
  release-Tiles table (i ∷ is) index [] most first total t = t
  release-Tiles table (i ∷ is) index (e ∷ es) most first total (a, b, c, t) =
      (a, b, c, release-Tiles table is (suc index) es most (first +ℤ e.1.num_voices) total t)

  module _ (so : Sointu F) (limits : Limits) where
    stack-found :
        (id : String) (units : List SointuUnit) (found : List Diagnostic)
        → has_errors (with_stack so limits id units found) ≡ false
        → has_errors found ≡ false
    unfolding with_stack
    stack-found id units found h = elim (Bool-cases (has_errors found)) [
      | inl wrong ↦ rw wrong at h
      | inr right ↦ right
    ]

    layout-found :
        (table : UnitTable) (is : List (InstrumentSpec F)) (index : ℕ) (first : ℤ)
        (found : List Diagnostic)
        → has_errors (lay_out so limits table is index first found).diagnostics ≡ false
        → has_errors found ≡ false
    unfolding lay_out
    layout-found table [] index first found h = h
    layout-found table (i ∷ is) index first found h =
        let converted = convert_units so table i.id 0 i.units in
        let checked = found ++ (limit_diagnostics so limits i first ++ converted.1) in
        (has_errors-append found _ (
          stack-found i.id converted.0 checked (
            layout-found table is (suc index) (first +ℤ i.voices)
              (with_stack so limits i.id converted.0 checked) h))).0

    limit-le :
        (i : InstrumentSpec F) (first : ℤ)
        → has_errors (limit_diagnostics so limits i first) ≡ false
        → first +ℤ i.voices ≤ℤ limits.max_voices
    unfolding limit_diagnostics has_errors diag
    limit-le i first h =
        let over = ltb_ℤ limits.max_voices (first +ℤ i.voices) in
        let quiet =
          (has_errors-append
            (when (ltb limits.max_units_per_instrument (length i.units))
              (diag "unit-limit-exceeded" i.id (pos 0) "" ""))
            (when over (diag "voice-limit-exceeded" i.id (pos 0) "" "")) h).1 in
        elim (Bool-cases over) [ inl big ↦ absurd (cc (rw big at quiet)) | inr fits ↦ ground arith ]

    layout-Tiles :
        (table : UnitTable) (is : List (InstrumentSpec F)) (index : ℕ) (first : ℤ)
        (found : List Diagnostic)
        → HasVoices is
        → has_errors (lay_out so limits table is index first found).diagnostics ≡ false
        → let laid = (lay_out so limits table is index first found).layout in
          Tiles limits.max_voices first laid.instruments laid.total_voices
    unfolding lay_out
    layout-Tiles table [] index first found v h = refl
    layout-Tiles table (i ∷ is) index first found (one, v) h =
        let converted = convert_units so table i.id 0 i.units in
        let checked = found ++ (limit_diagnostics so limits i first ++ converted.1) in
        let next = with_stack so limits i.id converted.0 checked in
        let quiet =
          stack-found i.id converted.0 checked
            (layout-found table is (suc index) (first +ℤ i.voices) next h) in
        let limited = (has_errors-append _ converted.1 (has_errors-append found _ quiet).1).0 in
        (
          refl,
          one,
          limit-le i first limited,
          layout-Tiles table is (suc index) (first +ℤ i.voices) next v h,
        )

module _ (fl : Float64) (so : Sointu fl.Float) (limits : Limits) where
  open fl use {Float}

  instrument-voices :
      (schemas : List (String × UnitSchema Float)) (id : String) (raw : InstrumentSpec Float)
      → has_errors (normalize_instrument fl so limits schemas id raw).1 ≡ false
      → pos 1 ≤ℤ (normalize_instrument fl so limits schemas id raw).0.voices
  unfolding normalize_instrument has_errors diag
  instrument-voices schemas id raw h =
      let few = ltb_ℤ raw.voices (pos 1) || ltb_ℤ limits.max_voices raw.voices in
      let quiet =
        (has_errors-append (if few then diag "invalid-voice-count" id (pos 0) "" "" ∷ [] else []) _
          h).0 in
      elim (Bool-cases few) [
        | inl wrong ↦ absurd (cc (rw wrong at quiet))
        | inr right ↦ ground arith
      ]

  instruments-HasVoices :
      (schemas : List (String × UnitSchema Float)) (raws : List (InstrumentSpec Float))
      (seen : List String)
      → has_errors (normalize_instruments fl so limits schemas raws seen).1 ≡ false
      → HasVoices (normalize_instruments fl so limits schemas raws seen).0
  unfolding normalize_instruments has_errors diag
  instruments-HasVoices schemas [] seen h = tt
  instruments-HasVoices schemas (raw ∷ raws) seen h =
      elim (outcome (normalize_instrument_id raw.id)) [
        | returned id named ↦ elim (Bool-cases (member id seen)) [
          | inl again ↦ absurd (cc (rw (named, normalize_instruments, again) at h))
          | inr new ↦
              let here = normalize_instrument fl so limits schemas id raw in
              let quiet =
                has_errors-append here.1 _ (rw (named, normalize_instruments, new) at h) in
              rw (named, normalize_instruments, new)
                (
                  instrument-voices schemas id raw quiet.0,
                  instruments-HasVoices schemas raws (id ∷ seen) quiet.1,
                )
        ]
        | failed why named ↦ absurd (cc (rw (named, normalize_instruments) at h))
        | panicked named ↦ absurd (cc (rw (named, normalize_instruments) at h))
      ]

  -- In a patch that Compile returns every instrument has at least one voice, the first starts at
  -- voice 0 and each next one where the last ended, none ends beyond the limit of voices, and their
  -- end is the total.
  pub compile-Tiles :
      (input : PatchSpec Float) (c : CompiledPatch Float)
      → compile fl so limits input ≡ ok c
      → Tiles limits.max_voices (pos 0) c.layout.instruments c.layout.total_voices
  unfolding compile normalize
  compile-Tiles input c h =
      let schemas = new_schema_registry fl so in
      let raw = normalize_instruments fl so limits schemas input.instruments [] in
      let spec : PatchSpec Float = record input { instruments = raw.0 } in
      let located = map (locate input.instruments) raw.1 in
      elim (Bool-cases (has_errors located)) [
        | inl wrong ↦ absurd (cc (rw wrong at h))
        | inr right ↦
            let made = assemble-IsFrom fl so limits spec _ c (rw right at h) in
            let voices = instruments-HasVoices schemas input.instruments [] (
              sym (
                has_errors-map (locate input.instruments) (locate-severity input.instruments) raw.1)
              ∙ right) in
            let tiles =
              layout-Tiles so limits (number_instruments raw.0 1 []) raw.0 0 (pos 0) _ voices
                made.checked in
            rw (made.instruments, made.total)
              (release-Tiles made.table raw.0 0 _ limits.max_voices (pos 0) _ tiles)
      ]
