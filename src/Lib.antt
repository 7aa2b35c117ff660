-- ===== src/Lib.antt =====
-- govertone is an interactive music environment (lgs): a Lisp front end that schedules notes and
-- controls, and an audio engine that renders them with the Sointu virtual machine. This library
-- models its control side, the code under internal/, and proves it correct.
--
-- Parts and files.
-- - Heap, Scheduler: internal/scheduler/event.go and scheduler.go, the queue of future events. The
--   Lisp bindings call Add and the cancellations, the audio engine calls PeekBefore and Pop. The
--   methods of Go's container/heap are in Heap, as loops over a list; Scheduler holds the record and
--   its methods (Add is `add`, CancelHandle `cancel_handle`), Scheduler/Refinement the specification.
-- - Clock/Beat: internal/clock/beat.go, rational beats in int64 (NewBeat is `new_beat`, Add `add`).
--   The gcd loop has one round of fuel more than its second argument, which falls in every round.
-- - Clock/Transport: internal/clock/transport.go, the tempo map that takes beats to frames and back.
--   float64 is a record of operations that the theorems quantify over; the examples instantiate it.
-- - Instruments/Voices: internal/instruments/voices.go, the allocator of voices (Allocate is `allocate`).
--   The Lisp runtime calls it for every note; the engine plays the voices. Its maps are association
--   lists (Common/Maps), whose order stands for the order of a range loop.
-- - Audio/Offline: internal/audio/offline.go (RenderOffline is `render_offline`), on RenderBlock.
-- - Audio/PatchUpdate: internal/audio/patch_update.go (UpdatePatch is `update_patch`), which puts a
--   compiled patch into the engine between two blocks. The compiled patch is a record.
-- - Audio/State, Controls, Lanes, Automation, Engine, Render: internal/audio/engine.go (apply is `apply`,
--   RenderBlock `render_block`), automation.go and controlled_synth.go. The synth, third_party/sointu, is
--   the record Audio/Synth; what the theorems assume of it is IsFramewise. The engine takes events from
--   the Scheduler and plays the voices of the allocator. The loop over frames has as many rounds as
--   frames and the loop over events as many as events; a round makes a frame or takes an event.
-- - Patch/Names, Model, Schema, Compiler: internal/patch/model.go, errors.go, schema.go and compiler.go
--   (NormalizeInstrumentID is `normalize_instrument_id`, NewSchemaRegistry `new_schema_registry`,
--   `normalize` and Compile keep their names). What they use of third_party/sointu is the record
--   Patch/Sointu: the types of units, the stack effects, the bytecode; and the digest of the canonical
--   form (fingerprint.go). Maps are association lists here too.
-- - Patch/Registry: internal/patch/registry.go (PrepareUpsert is `prepare_upsert`, Commit `commit`), over
--   the compiler.
-- - Lisp/Install: internal/lisp/patch_bindings.go (installCandidate), where the registry, the engine and
--   the allocator of voices take a prepared update.
-- - Lisp/Notes: internal/lisp/runtime.go (play is `play_note`, release `release_note`, stopAll
--   `stop_all_notes`), over the allocator, the tempo map and the queue, for arguments that are
--   converted already.
-- - Lisp/Forms, Lisp/Evaluate: internal/lisp/runtime.go (splitTopLevelForms is `split_top_level_forms`,
--   EvalInNamespace `eval_in_namespace`). Forms/Grammar is a grammar of source texts, against which the
--   scan is proved. The interpreter is the record Interpreter; what is assumed of it is IsInterpreter.
-- - Lisp/Controls: internal/lisp/control_bindings.go (ctlFn is `ctl`, resetControlFn `reset_control`).
-- - Lisp/NoteNames: internal/lisp/notes.go (ParseNoteName is `parse_note_name`), with the wrap of int64.
-- - Nrepl: internal/nrepl/server.go (boundedBuffer is Buffer, `handle`, `clone`, `close` and `eval` keep
--   their names). An evaluation is two locked steps on the sessions (`begin_eval` and `end_eval`) around
--   EvalInNamespace; Server/Sessions has every order of the steps of all connections, Server/Lookups the
--   specification of what a message does to each session.
-- Not modelled: a run that fails is followed to its error or panic, not past it; measured times; the
-- readers that only print; the texts of messages. The conversion of Lisp values, bencode and the sockets
-- are not modelled.
pub mod Audio
pub mod Clock
pub mod Common
pub mod Heap
pub mod Instruments
pub mod Lisp
pub mod Nrepl
pub mod Patch
pub mod Scheduler
