-- ===== src/Audio/PatchUpdate.antt =====
-- internal/audio/patch_update.go: the engine takes a compiled patch between two blocks.
pub mod Owners
use Prim.Native.String.{String}
use govertone.Common.{
  ℕ, zero, suc, ◌+◌, ◌%◌, ◌==◌, ltb, Bool, not, true, false, Option, none, some, List, [], ◌∷◌,
  ◌++◌, length, if◌then◌else◌,
}
use govertone.Common.Int.{ℤ, pos, pos_part, ◌+ℤ◌}
use govertone.Common.Float.{Float64}
use govertone.Common.Text.{str_eq}
use govertone.Common.Maps.{lookup, lookup_or, put, pair_key, string_key}
use govertone.Instruments.Voices.{Definition}
use govertone.Audio.Synth.{Synth}
use govertone.Audio.State.{
  ControlKey, ControlBinding, ControlState, Engine, Running, bump, new_automation_state,
}
use govertone.Audio.Controls.{silence, with_synth}
use govertone.Audio.Engine.{stop_voices}
use govertone.Audio.Render.{Run}

-- Of the compiled patch, what the engine reads.
pub record CompiledInstrument : Type 0 where
  pub first_voice : ℤ
  pub num_voices : ℤ
  pub hard_release_operands : List ℤ

pub record CompiledPatch (F P : Type 0) : Type 0 where
  pub patch : P
  pub instruments : List (String × CompiledInstrument)
  pub bindings : List (ControlBinding F)
  pub fingerprint : String
  pub generation : ℕ

pub record PatchUpdateTrace : Type 0 where
  pub request_id : ℕ
  pub requested_frame : ℕ
  pub applied_frame : ℕ
  pub old_generation : ℕ
  pub new_generation : ℕ
  pub old_fingerprint : String
  pub new_fingerprint : String
  pub changed : List String
  pub removed : List String
  pub invalidated : ℕ
  pub result : String

pub record PatchUpdateResult : Type 0 where
  pub generation : ℕ
  pub applied_frame : ℕ
  pub invalidated : ℕ
  pub changed : Bool

-- The fields of the engine that only an update of the patch writes.
pub record Patched (F S : Type 0) : Type 0 where
  pub run : Running F S
  pub generation : ℕ
  pub fingerprint : String
  pub request : ℕ
  pub trace : List PatchUpdateTrace

module _ {F : Type 0} where
  unfoldable pub collect_bindings :
      List (ControlKey × List (ControlBinding F))
      → List (ControlBinding F)
      → List (ControlKey × List (ControlBinding F))
  collect_bindings m [] = m
  collect_bindings m (b ∷ bs) =
      let key : ControlKey = (b.instrument, b.parameter) in
      collect_bindings (put key (lookup_or [] key m ++ b ∷ []) m) bs

  unfoldable pub new_control_state : List (ControlBinding F) → ControlState F
  new_control_state bindings = record {
    bindings = collect_bindings [] bindings;
    explicit = [];
    voice_value = [];
  }

unfoldable pub new_hard_release : List (String × CompiledInstrument) → List (String × List ℤ)
new_hard_release [] = []
new_hard_release (entry ∷ entries) =
    let rest = new_hard_release entries in
    if length entry.1.hard_release_operands == 0
    then rest
    else (entry.0, entry.1.hard_release_operands) ∷ rest

unfoldable pub layout_of : List (String × CompiledInstrument) → List (String × Definition)
layout_of [] = []
layout_of (entry ∷ entries) =
    let c = entry.1 in
    (entry.0, record { id = entry.0; first_voice = c.first_voice; voices = c.num_voices })
    ∷ layout_of entries

-- `if owner != 0 { ... invalidated++ }`
abbrev pub owned_count : List ℕ → ℕ
owned_count [] = 0
owned_count (id ∷ ids) = if id == 0 then owned_count ids else suc (owned_count ids)

module _ (fl : Float64) (sy : Synth fl.Float) where
  open fl use {Float, to_int}
  open sy use {State, Patch, controlled, update}

  abbrev pub EngineState : Type 0
  EngineState = Patched Float State

  unfoldable pub silence_voices : State → ℤ → ℕ → List ℤ → State
  silence_voices s first zero operands = s
  silence_voices s first (suc k) operands =
      silence_voices (silence fl sy s first operands) (first +ℤ pos 1) k operands

  unfoldable pub initialize_hard_release :
      State → List (String × Definition) → List (String × List ℤ) → State
  initialize_hard_release s layout [] = s
  initialize_hard_release s layout (entry ∷ entries) =
      let skipped = initialize_hard_release s layout entries in
      elim (lookup entry.0 layout) [
        | none ↦ skipped
        | some d ↦
            initialize_hard_release (silence_voices s d.first_voice (pos_part d.voices) entry.1)
              layout entries
      ]

  -- The engine with the patch in the synth, before the voices are released.
  unfoldable pub install :
      Engine Float State → State → CompiledPatch Float Patch → Engine Float State
  install e s c =
      let layout = layout_of c.instruments in
      let hard_release = new_hard_release c.instruments in
      let silenced = initialize_hard_release s layout hard_release in
      record e {
        synth = if controlled then silenced else s;
        layout = layout;
        controls = new_control_state c.bindings;
        hard_release = hard_release;
        automation = new_automation_state;
      }

  abbrev pub trace_entry :
      EngineState → CompiledPatch Float Patch → List String → List String → PatchUpdateTrace
  trace_entry p c changed removed = record {
    request_id = bump p.request;
    requested_frame = p.run.frame;
    applied_frame = p.run.frame;
    old_generation = p.generation;
    new_generation = c.generation;
    old_fingerprint = p.fingerprint;
    new_fingerprint = c.fingerprint;
    changed = changed;
    removed = removed;
    invalidated = owned_count p.run.engine.owners;
    result = "applied";
  }

  -- What a refused patch leaves: only the synth may have changed, and the trace says so.
  abbrev pub refused : EngineState → State → PatchUpdateTrace → EngineState
  refused p s entry = record p {
    run = record p.run { engine = with_synth fl sy p.run.engine s };
    request = bump p.request;
    trace =
        p.trace
        ++ record entry { new_generation = p.generation; invalidated = 0; result = "failed" } ∷ [];
  }

  abbrev pub applied :
      EngineState → State → CompiledPatch Float Patch → PatchUpdateTrace → EngineState
  applied p s c entry =
      let installed = install p.run.engine s c in
      record {
        run = record p.run { engine = stop_voices fl sy installed installed.owners 0 };
        generation = c.generation;
        fingerprint = c.fingerprint;
        request = bump p.request;
        trace = p.trace ++ entry ∷ [];
      }

  -- UpdatePatch; `none` is an error.
  unfoldable pub update_patch :
      EngineState
      → CompiledPatch Float Patch
      → Float
      → List String
      → List String
      → EngineState × Option PatchUpdateResult
  update_patch p c bpm changed removed =
      let updated = update p.run.engine.synth c.patch (to_int bpm) in
      let entry = trace_entry p c changed removed in
      if str_eq c.fingerprint p.fingerprint
      then (
        p,
        some (record {
          generation = p.generation;
          applied_frame = p.run.frame;
          invalidated = 0;
          changed = false;
        }),
      )
      else if updated.1
      then (
        applied p updated.0 c entry,
        some (record {
          generation = c.generation;
          applied_frame = p.run.frame;
          invalidated = owned_count p.run.engine.owners;
          changed = true;
        }),
      )
      else (refused p updated.0 entry, none)
