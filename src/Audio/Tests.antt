-- ===== src/Audio/Tests.antt =====
-- The engine on a small synth: its state is a counter, a frame is the count, and a call of Render
-- makes at most two frames.
use govertone.Common.{
  ℕ, ◌+◌, ◌==◌, ◌≡◌, refl, inl, inr, Bool-cases, true, Option, some, List, [], ◌∷◌, arith,
  if◌then◌else◌,
}
use govertone.Common.Int.{ℤ, pos, ◌+ℤ◌}
use govertone.Common.Float.{whole}
use govertone.Common.Result.{Result, ok, err, panic, ◌>>=◌}
use govertone.Scheduler.{Scheduler, Event, zero_event, trigger, stop_all}
use govertone.Audio.Synth.{Synth, IsFramewise, frames}
use govertone.Audio.State.{Engine, new_automation_state}
use govertone.Heap
use govertone.Scheduler.{peek_before, pop, less, event_priority, kind_string}
use govertone.Common.Maps.{lookup, lookup_or, delete}
use govertone.Audio.State.{record_event}
use govertone.Audio.Controls.{release_voice, silence, instrument_at_voice}
use govertone.Audio.Engine.{RenderError, apply, dispatch, stop_voices}
use govertone.Audio.Render.{
  prepend, Run, render_block, render, render_each, render_all, render_events, apply_due,
}
use govertone.Audio.Render.Frames.{render_all-frames, render-each}
use govertone.Audio.Offline.{render_offline, render_offline-block}
use govertone.Audio.PatchUpdate.{CompiledPatch, Patched, update_patch}
use govertone.Audio.PatchUpdate.Owners.{update_patch-stops}
use govertone.Audio.Render.Blocks.{render_block-add}

abbrev tick : ℕ → ℕ × ℕ
tick s = (s + 1, s)

abbrev toy_render : ℕ → ℕ → ℕ × Option (List ℕ)
toy_render s n = if n == 1 then (s + 1, some (s ∷ [])) else (s + 1 + 1, some (s ∷ (s + 1) ∷ []))

abbrev toy : Synth ℤ
toy = record {
  State = ℕ;
  Sample = ℕ;
  Patch = ℕ;
  update = λ s patch bpm. (patch, true);
  render = toy_render;
  trigger = λ s voice note. s + note;
  release = λ s voice. s;
  controlled = true;
  set_control = λ s voice operand value. (s, true);
  set_instrument_control = λ s operand value. (s, true);
  clear_control = λ s voice operand. s;
  clear_instrument_control = λ s operand. s;
  clear_voice_controls = λ s voice. s;
}

toy-IsFramewise : IsFramewise toy tick
unfolding frames
toy-IsFramewise = record {
  made = λ s n. if n == 1 then 1 else 2;
  some_made = λ s n h. ground arith;
  most = λ s n h. ground arith;
  makes = λ s n h. elim (Bool-cases (n == 1)) [ inl one ↦ rw one refl | inr more ↦ rw more refl ];
}

abbrev note_on : Event ℤ
note_on = record (zero_event (pos 0)) {
  frame = 3;
  kind = trigger;
  instrument = "lead";
  note = 88;
  handle_id = 1;
}

abbrev silence_all : Event ℤ
silence_all = record (zero_event (pos 0)) { frame = 5; kind = stop_all }

abbrev queue : Scheduler ℤ
queue = record {
  h = note_on ∷ silence_all ∷ [];
  capacity = 8;
  next_id = 2;
  next_seq = 2;
  max_depth = 2;
  overflows = 0;
}

abbrev engine : Engine ℤ ℕ
engine = record {
  synth = 0;
  scheduler = queue;
  owners = 0 ∷ 0 ∷ [];
  layout = ("lead", record { id = "lead"; first_voice = pos 0; voices = pos 2 }) ∷ [];
  trace = [];
  trace_cap = 65536;
  late = 0;
  dropped = 0;
  control_applied = 0;
  control_rejected = 0;
  controls = record { bindings = []; explicit = []; voice_value = [] };
  hard_release = [];
  automation = new_automation_state;
}

abbrev run : Run whole toy
run = record { engine = engine; frame = 0 }

render_block-add_example : render_block whole toy run (2 + 4) ≡ (
    render_block whole toy run 2 >>= λ r. (render_block whole toy r.0 4 >>= prepend whole toy r.1))
render_block-add_example = render_block-add whole toy tick toy-IsFramewise run 2 4 (omega arith)

render-each_example : render whole toy engine 0 5 ≡ render_each whole toy 5 engine 0
render-each_example = render-each whole toy tick toy-IsFramewise engine 0 5

render_all-frames_example : render_all whole toy 5 0 5 ≡ ok (frames toy tick 0 5)
render_all-frames_example = render_all-frames whole toy tick toy-IsFramewise 5 0 5 (omega arith)

-- The note of frame 3 moves the counter by an octave more than its number.
abbrev samples : Result RenderError (Run whole toy × List ℕ) → List ℕ
samples (ok r) = r.1
samples (err why) = []
samples panic = []

block_samples : samples (render_block whole toy run 6) ≡ 0 ∷ 1 ∷ 2 ∷ 103 ∷ 104 ∷ 105 ∷ []
unfolding render_block render_events render render_each render_all apply_due apply dispatch
    record_event stop_voices release_voice silence instrument_at_voice lookup lookup_or delete
    peek_before pop Heap.pop Heap.down less event_priority kind_string ◌+ℤ◌
block_samples = refl

render_offline-block_example :
    render_offline whole toy run (pos 6) (pos 4) ≡ render_block whole toy run 6
render_offline-block_example =
    render_offline-block whole toy tick toy-IsFramewise run 6 4 (omega arith) (omega arith)
      (omega arith)

-- A voice with an owner, and a patch that gives the instrument one voice and an operand.
abbrev patched : Patched ℤ ℕ
patched = record {
  run = record { engine = record engine { owners = 7 ∷ 0 ∷ [] }; frame = 3 };
  generation = 1;
  fingerprint = "old";
  request = 0;
  trace = [];
}

abbrev compiled : CompiledPatch ℤ ℕ
compiled = record {
  patch = 50;
  instruments =
      (
        "lead",
        record { first_voice = pos 0; num_voices = pos 1; hard_release_operands = pos 2 ∷ [] },
      )
      ∷ [];
  bindings = [];
  fingerprint = "new";
  generation = 2;
}

update_patch-stops_example :
    let after = (update_patch whole toy patched compiled (pos 120) ("lead" ∷ []) []).0 in
    (after.run.engine.owners ≡ 0 ∷ 0 ∷ [])
    × (after.generation ≡ 2)
    × (after.fingerprint ≡ "new")
    × (after.run.frame ≡ 3)
    × (after.run.engine.scheduler ≡ queue)
update_patch-stops_example =
    update_patch-stops whole toy patched compiled (pos 120) ("lead" ∷ []) [] refl refl
