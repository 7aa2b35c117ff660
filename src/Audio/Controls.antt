-- ===== src/Audio/Controls.antt =====
-- internal/audio/controlled_synth.go: the controls of instruments and of voices.
use Prim.Native.String.{String}
use govertone.Common.{Bool, false, not, ◌||◌, Option, none, some, List, [], ◌∷◌, if◌then◌else◌}
use govertone.Common.Int.{ℤ, pos, ◌+ℤ◌, ltb_ℤ}
use govertone.Common.Float.{Float64}
use govertone.Common.Text.{str_eq}
use govertone.Common.Maps.{lookup, lookup_or, put, delete, pair_key, string_key, int_key}
use govertone.Instruments.Voices.{Definition}
use govertone.Audio.Synth.{Synth}
use govertone.Audio.State.{ControlKey, ControlBinding, ControlState, Engine}

pub data ControlError : Type 0 where
  unknown_control control_binding_missing control_scope_mismatch invalid_control_value
        control_out_of_range :
      ControlError

module _ (fl : Float64) (sy : Synth fl.Float) where
  open fl use {Float, of_int, add, mul, lt, min, max, is_nan, is_inf, single}
  open sy use {
    State, release, controlled, set_control, set_instrument_control, clear_control,
    clear_instrument_control,
  }

  -- The state after a call, and the error it returned, if any.
  abbrev pub Outcome : Type 0
  Outcome = Engine Float State × Option ControlError

  abbrev pub in_range : ControlBinding Float → Float → Bool
  in_range b value = not (lt value b.minimum || lt b.maximum value)

  abbrev pub mapped_value : ControlBinding Float → Float → Float
  mapped_value b value =
      let mapped = add (mul value b.transform.scale) b.transform.offset in
      if b.transform.clamp then min (of_int (pos 128)) (max (of_int (pos 0)) mapped) else mapped

  -- The float32 for the synth; none is an error.
  unfoldable pub transformed_control : ControlBinding Float → Float → Option Float
  transformed_control b value =
      if is_nan value || is_inf value
      then none
      else if not (in_range b value)
      then none
      else if lt (mapped_value b value) (of_int (pos 0))
          || lt (of_int (pos 128)) (mapped_value b value)
      then none
      else some (single (mapped_value b value))

  -- The error of transformed_control where it returns one.
  unfoldable pub transform_error : ControlBinding Float → Float → ControlError
  transform_error b value =
      if is_nan value || is_inf value then invalid_control_value else control_out_of_range

  -- The loop over the bindings that writes the value; it stops at the first error, and what it wrote
  -- before stays.
  unfoldable pub write_bindings :
      String
      → (State → ℤ → Float → State × Bool)
      → Float
      → State
      → List (ControlBinding Float)
      → State × Option ControlError
  write_bindings scope write value s [] = (s, none)
  write_bindings scope write value s (b ∷ bs) = elim (transformed_control b value) [
    | none ↦
        if not (str_eq b.scope scope)
        then (s, some control_scope_mismatch)
        else (s, some (transform_error b value))
    | some mapped ↦
        let written = write s b.operand mapped in
        let rest = write_bindings scope write value written.0 bs in
        if not (str_eq b.scope scope)
        then (s, some control_scope_mismatch)
        else if written.1
        then rest
        else (written.0, some control_binding_missing)
  ]

  unfoldable pub clear_bindings :
      String
      → (State → ℤ → State)
      → State
      → List (ControlBinding Float)
      → State × Option ControlError
  clear_bindings scope clear s [] = (s, none)
  clear_bindings scope clear s (b ∷ bs) =
      let rest = clear_bindings scope clear (clear s b.operand) bs in
      if not (str_eq b.scope scope) then (s, some control_scope_mismatch) else rest

  abbrev pub bindings_of : Engine Float State → ControlKey → List (ControlBinding Float)
  bindings_of e key = lookup_or [] key e.controls.bindings

  abbrev pub with_synth : Engine Float State → State → Engine Float State
  with_synth e s = record e { synth = s }

  -- The checks that every setter starts with.
  unfoldable pub checked : Engine Float State → List (ControlBinding Float) → Outcome → Outcome
  checked e [] out = (e, some unknown_control)
  checked e (b ∷ bs) out = if controlled then out else (e, some control_binding_missing)

  -- What a setter leaves: the synth as written, and the controls as changed if there was no error.
  unfoldable pub settle :
      Engine Float State → State × Option ControlError → ControlState Float → Outcome
  settle e (s, some err) controls = (with_synth e s, some err)
  settle e (s, none) controls = (record e { synth = s; controls = controls }, none)

  unfoldable pub set_instrument_control_locked : Engine Float State → ControlKey → Float → Outcome
  set_instrument_control_locked e key value =
      let bindings = bindings_of e key in
      let written = write_bindings "instrument" set_instrument_control value e.synth bindings in
      checked e bindings
        (settle e written (record e.controls { explicit = put key value e.controls.explicit }))

  abbrev pub voice_values : Engine Float State → ℤ → List (ControlKey × Float)
  voice_values e voice = lookup_or [] voice e.controls.voice_value

  unfoldable pub set_voice_control_locked : Engine Float State → ℤ → ControlKey → Float → Outcome
  set_voice_control_locked e voice key value =
      let bindings = bindings_of e key in
      let written = write_bindings "voice" (λ s. set_control s voice) value e.synth bindings in
      let values = put key value (voice_values e voice) in
      checked e bindings (
        settle e written
          (record e.controls { voice_value = put voice values e.controls.voice_value }))

  unfoldable pub reset_instrument_control_locked : Engine Float State → ControlKey → Outcome
  reset_instrument_control_locked e key =
      let bindings = bindings_of e key in
      let cleared = clear_bindings "instrument" clear_instrument_control e.synth bindings in
      checked e bindings
        (settle e cleared (record e.controls { explicit = delete key e.controls.explicit }))

  -- A voice without values keeps none.
  unfoldable pub forget_value : ControlState Float → ℤ → ControlKey → ControlState Float
  forget_value c voice key = elim (lookup voice c.voice_value) [
    | none ↦ c
    | some values ↦ record c { voice_value = put voice (delete key values) c.voice_value }
  ]

  unfoldable pub reset_voice_control_locked : Engine Float State → ℤ → ControlKey → Outcome
  reset_voice_control_locked e voice key =
      let bindings = bindings_of e key in
      let cleared = clear_bindings "voice" (λ s. clear_control s voice) e.synth bindings in
      checked e bindings (settle e cleared (forget_value e.controls voice key))

  -- ControlValue: the value set, or the default of the first binding, with its scope.
  unfoldable pub control_value : Engine Float State → ControlKey → Option (Float × String)
  control_value e key = elim (bindings_of e key) [
    | [] ↦ none
    | b ∷ bs ↦ elim (lookup key e.controls.explicit) [
      | some value ↦ some (value, b.scope)
      | none ↦ some (b.default, b.scope)
    ]
  ]

  unfoldable pub voice_control_value : Engine Float State → ℤ → ControlKey → Option Float
  voice_control_value e voice key = lookup key (voice_values e voice)

  -- The loop over the operands that silence a voice; errors are ignored.
  unfoldable pub silence : State → ℤ → List ℤ → State
  silence s voice [] = s
  silence s voice (operand ∷ operands) =
      silence (set_control s voice operand (of_int (pos 0))).0 voice operands

  unfoldable pub release_voice : Engine Float State → ℤ → String → Engine Float State
  release_voice e voice instrument =
      let released = release e.synth voice in
      let operands = lookup_or [] instrument e.hard_release in
      if controlled then with_synth e (silence released voice operands) else with_synth e released

  -- `voice >= first && voice < first+definition.Voices`
  abbrev pub plays_voice : Definition → ℤ → Bool
  plays_voice d voice =
      if ltb_ℤ voice d.first_voice then false else ltb_ℤ voice (d.first_voice +ℤ d.voices)

  unfoldable pub instrument_at_voice : List (String × Definition) → ℤ → String
  instrument_at_voice [] voice = ""
  instrument_at_voice (entry ∷ layout) voice =
      let rest = instrument_at_voice layout voice in
      if plays_voice entry.1 voice then entry.0 else rest
