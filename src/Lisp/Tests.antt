-- ===== src/Lisp/Tests.antt =====
-- The installation of patches, with a synth that keeps the last patch.
use Prim.Native.String.{String}
use govertone.Common.{ℕ, ◌≡◌, ◌≢◌, sym, ap, ◌∙◌, true, none, some, List, [], ◌∷◌}
use govertone.Common.Float.{whole}
use govertone.Common.Int.{ℤ, pos}
use govertone.Common.Text.{str_eq_iff}
use govertone.Instruments.Voices.{Allocator}
use govertone.Scheduler.{Scheduler}
use govertone.Audio.Synth.{Synth}
use govertone.Audio.State.{Engine, new_automation_state}
use govertone.Patch.Sointu.{SointuInstrument}
use govertone.Patch.Compiler.Normalize.{default_limits}
use govertone.Patch.Compiler.Compile.{CompiledPatch}
use govertone.Patch.Registry.Consistent.{upsert}
use govertone.Patch.Tests.{
  small, tone, controlled_tone, solo, with_bass, with_control, control_patch, fingerprint_of, runs,
  bass_made, control_made, control_given, solo-IsConsistent,
}
use govertone.Lisp.Install.{Runtime, install_candidate}
use govertone.Lisp.Install.InSync.{IsInSync, install_candidate-IsInSync}
use govertone.Lisp.Install.Controls.{install_candidate-controls}

abbrev keeper : Synth ℤ
keeper = record {
  State = List SointuInstrument;
  Sample = ℕ;
  Patch = List SointuInstrument;
  update = λ s patch bpm. (patch, true);
  render = λ s n. (s, none);
  trigger = λ s voice note. s;
  release = λ s voice. s;
  controlled = true;
  set_control = λ s voice operand value. (s, true);
  set_instrument_control = λ s operand value. (s, true);
  clear_control = λ s voice operand. s;
  clear_instrument_control = λ s operand. s;
  clear_voice_controls = λ s voice. s;
}

abbrev queue : Scheduler ℤ
queue = record { h = []; capacity = 8; next_id = 0; next_seq = 0; max_depth = 0; overflows = 0 }

abbrev engine : Engine ℤ (List SointuInstrument)
engine = record {
  synth = [];
  scheduler = queue;
  owners = 0 ∷ 7 ∷ [];
  layout = [];
  trace = [];
  trace_cap = 65536;
  late = 0;
  dropped = 0;
  control_applied = 0;
  control_rejected = 0;
  controls = record { bindings = []; explicit = []; voice_value = [] };
  hard_release = [];
  automation = new_automation_state;
}

abbrev allocator : Allocator
allocator = record {
  defs = [];
  voices = [];
  handles = [];
  next = 0;
  generation = 1;
  epochs = [];
  high_water = 0;
}

abbrev to_patch : List SointuInstrument → List SointuInstrument
to_patch patch = patch

abbrev runtime : Runtime whole keeper to_patch
runtime = record {
  engine = record {
    run = record { engine = engine; frame = 3 };
    generation = 1;
    fingerprint = "lead/";
    request = 0;
    trace = [];
  };
  registry = solo;
  allocator = allocator;
}

in_sync : IsInSync whole keeper to_patch small default_limits runtime
in_sync = record {
  generation = sym runs.generations.0;
  fingerprint = sym runs.fingerprints.0;
  allocator = sym runs.generations.0;
  registry = solo-IsConsistent;
}

bass_differs :
    (c : CompiledPatch ℤ)
    → with_bass.changed ≡ true
    → with_bass.compiled ≡ some c
    → c.fingerprint ≢ solo.compiled.fingerprint
bass_differs c changed given e =
    let texts : ◌≡◌ {A = String} "lead/bass/" "lead/" =
      sym runs.fingerprints.1 ∙ ap fingerprint_of given ∙ e ∙ runs.fingerprints.0 in
    absurd (cc ((str_eq_iff "lead/bass/" "lead/").1 texts))

install_candidate-IsInSync_example :
    IsInSync whole keeper to_patch small default_limits
      (install_candidate whole keeper to_patch runtime with_bass (pos 120)).0
install_candidate-IsInSync_example =
    install_candidate-IsInSync whole keeper to_patch small default_limits runtime with_bass
      (pos 120) in_sync (upsert (tone "bass" (pos 4)) bass_made) runs.bass_given bass_differs

install_candidate-controls_example :
    let after = (install_candidate whole keeper to_patch runtime with_control (pos 120)).0 in
    (after.engine ≡ runtime.engine) × (after.registry.compiled.bindings ≡ control_patch.bindings)
install_candidate-controls_example =
    install_candidate-controls whole keeper to_patch small default_limits runtime controlled_tone
      with_control control_patch (pos 120) in_sync control_made control_given runs.canonical_kept
