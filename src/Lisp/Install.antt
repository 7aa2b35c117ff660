-- ===== src/Lisp/Install.antt =====
-- internal/lisp/patch_bindings.go: a prepared update goes to the engine, the registry and the allocator
-- of voices (installCandidate). One evaluation runs at a time, so that the calls follow one another.
pub mod InSync
pub mod Controls
use Prim.Native.String.{String}
use govertone.Common.{ℕ, Bool, true, false, Option, none, some, List, [], ◌∷◌, map, if◌then◌else◌}
use govertone.Common.Float.{Float64}
use govertone.Common.Maps.{lookup_or, put, string_key}
use govertone.Common.Result.{Result, ok, err, panic}
use govertone.Instruments.Voices.{Definition, Allocator, reset}
use govertone.Audio.Synth.{Synth}
use govertone.Audio.PatchUpdate
use govertone.Audio.PatchUpdate.{EngineState, PatchUpdateResult, update_patch}
use govertone.Patch.Sointu.{Sointu, SointuInstrument}
use govertone.Patch.Compiler.Compile.{CompiledPatch, CompiledInstrument, InstrumentLayout}
use govertone.Patch.Registry.{
  Registry, PreparedRegistryUpdate, RegistryError, commit, zero_compiled,
}

-- What the engine reads of a compiled instrument.
abbrev pub engine_instrument : String × CompiledInstrument → String × PatchUpdate.CompiledInstrument
engine_instrument e = (
  e.0,
  record {
    first_voice = e.1.first_voice;
    num_voices = e.1.num_voices;
    hard_release_operands = e.1.hard_release_operands;
  },
)

-- The loop that makes the definitions for the allocator.
unfoldable pub voice_definitions :
    InstrumentLayout → List String → List (String × Definition) → List (String × Definition)
voice_definitions layout [] defs = defs
voice_definitions layout (id ∷ ids) defs =
    let c = lookup_or zero_compiled id layout.instruments in
    voice_definitions layout ids
      (put id (record { id = id; first_voice = c.first_voice; voices = c.num_voices }) defs)

-- `to_patch` hands a Sointu patch to the synth.
module _ (fl : Float64) (sy : Synth fl.Float) (to_patch : List SointuInstrument → sy.Patch) where
  open fl use {Float}
  open sy use {Patch}

  unfoldable pub engine_patch : CompiledPatch Float → PatchUpdate.CompiledPatch Float Patch
  engine_patch c = record {
    patch = to_patch c.patch;
    instruments = map engine_instrument c.layout.instruments;
    bindings = map (λ b. b.binding) c.bindings;
    fingerprint = c.fingerprint;
    generation = c.generation;
  }

  -- The parts of the runtime that an installation changes.
  pub record Runtime : Type 0 where
    pub engine : EngineState fl sy
    pub registry : Registry Float
    pub allocator : Allocator

  abbrev pub Installed : Type 0
  Installed = Runtime × Option (ℕ × Bool)

  -- After the engine has taken the patch: the commit, and the reset of the allocator.
  unfoldable pub settle :
      Runtime
      → CompiledPatch Float
      → PatchUpdateResult
      → Result RegistryError (Registry Float)
      → Installed
  settle s c result (ok registry) =
      let defs = voice_definitions c.layout c.layout.ordered_ids [] in
      (
        record s { registry = registry; allocator = (reset s.allocator defs result.generation).0 },
        some (result.generation, true),
      )
  settle s c result (err why) = (s, none)
  settle s c result panic = (s, none)

  unfoldable pub acknowledge :
      Runtime
      → PreparedRegistryUpdate Float
      → CompiledPatch Float
      → Option PatchUpdateResult
      → Installed
  acknowledge s u c none = (s, none)
  acknowledge s u c (some result) = settle s c result (commit s.registry u)

  unfoldable pub install_changed :
      Runtime → PreparedRegistryUpdate Float → Float → Option (CompiledPatch Float) → Installed
  install_changed s u tempo none = (s, none)
  install_changed s u tempo (some c) =
      let updated = update_patch fl sy s.engine (engine_patch c) tempo u.changed_ids u.removed in
      acknowledge (record s { engine = updated.0 }) u c updated.1

  unfoldable pub install_unchanged :
      Runtime → PreparedRegistryUpdate Float → Result RegistryError (Registry Float) → Installed
  install_unchanged s u (ok registry) =
      (record s { registry = registry }, some (u.base_generation, false))
  install_unchanged s u (err why) = (s, none)
  install_unchanged s u panic = (s, none)

  -- installCandidate; `none` is an error.
  unfoldable pub install_candidate : Runtime → PreparedRegistryUpdate Float → Float → Installed
  install_candidate s u tempo =
      if u.changed
      then install_changed s u tempo u.compiled
      else install_unchanged s u (commit s.registry u)
