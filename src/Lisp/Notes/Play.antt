-- ===== src/Lisp/Notes/Play.antt =====
-- play (internal/lisp/runtime.go): the allocator and the queue after it, on success and on a full
-- queue.
use Prim.Native.String.{String}
use mathlib.Core.List.{filter}
use govertone.Common.{
  ℕ, ◌+◌, ◌%◌, ◌<◌, ◌≤◌, ◌≡◌, refl, ap, false, ltb, Option, none, some, List, ◌∷◌, ◌++◌, length,
  if◌then◌else◌,
}
use govertone.Common.Float.{Float64}
use govertone.Common.Int.{u64_mod}
use govertone.Common.Result.{ok, err}
use govertone.Instruments.Voices.{NoteHandle, allocate}
use govertone.Instruments.Voices
use govertone.Instruments.Voices.Allocation.{allocate-new}
use govertone.Scheduler.{Scheduler, Event, release, trigger}
use govertone.Scheduler.Queue.{add-full}
use govertone.Scheduler.Dispatch.{dispatch}
use govertone.Scheduler.Refinement.{stays}
use govertone.Lisp.Notes.{
  NoteState, PlayOptions, queue_full, max_uint64, Plan, zero, note_event, note_events, add_all,
  after_steal, end_or_max, enqueue, play_planned, plan, play_note,
}
use govertone.Lisp.Notes.Queue.{HasRoom}

module _ (fl : Float64) where
  open fl use {Float}

  -- The specification: the events that a new note brings, after the release of the note whose voice it
  -- takes.
  unfoldable pub new_events :
      NoteState Float → Plan fl → NoteHandle → Option NoteHandle → List (Event Float)
  new_events s p h none = note_events fl s.instruments p h
  new_events s p h (some stolen) =
      note_event fl s.instruments p.start_frame release stolen ∷ note_events fl s.instruments p h

  -- The specification: of what waits, the later events of the note whose voice is taken go.
  unfoldable pub kept_events : NoteState Float → Plan fl → Option NoteHandle → List (Event Float)
  kept_events s p none = dispatch (zero fl) s.queue
  kept_events s p (some stolen) =
      let waiting = dispatch (zero fl) s.queue in
      if ltb p.start_frame max_uint64
      then filter (stays stolen.event_id (p.start_frame + 1)) waiting
      else waiting

  -- The queue when the events of the new note are added.
  record Ready (s : NoteState Float) (p : Plan fl) (h : NoteHandle) (stolen : Option NoteHandle)
      (out : Scheduler Float × List (Event Float)) : Type 0 where
    events : out.1 ++ note_events fl s.instruments p h ≡ new_events s p h stolen
    room : HasRoom fl out.0 (length (new_events s p h stolen))
    waiting : dispatch (zero fl) out.0 ≡ kept_events s p stolen
    id : out.0.next_id ≡ s.queue.next_id
    sequence : out.0.next_seq ≡ s.queue.next_seq

  abbrev pub refused : Scheduler Float → Scheduler Float
  refused q = record q { overflows = (q.overflows + 1) % u64_mod }

  add_all-full :
      (q : Scheduler Float) (e : Event Float) (es : List (Event Float))
      → q.capacity ≤ length q.h
      → add_all fl q (e ∷ es) ≡ (refused q, false)
  unfolding add_all
  add_all-full q e es full =
      rw (ap (λ a. a.1) (add-full (zero fl) q e full), add_all)
        (ap (λ a. (a.0, false)) (add-full (zero fl) q e full))

  -- A note which gets a voice without taking another's, while the queue is full: play fails and the
  -- queue only counts the refusal, but the voice stays reserved, so that the note which never sounds is
  -- found up to its end.
  pub play_note-full :
      (s : NoteState Float) (id : String) (note : ℕ) (options : PlayOptions Float) (p : Plan fl)
      (h : NoteHandle)
      → plan fl s id options ≡ ok p
      → (allocate s.allocator id note p.start_frame (end_or_max fl p.end_frame)).1 ≡ some (h, none)
      → s.queue.capacity ≤ length s.queue.h
      → let out = play_note fl s id note options in
        (out.1 ≡ err queue_full)
        × (out.0.queue ≡ refused s.queue)
        × ((t : ℕ)
            → t < end_or_max fl p.end_frame
            → Voices.handle out.0.allocator h.event_id t ≡ some h)
  unfolding play_note play_planned enqueue after_steal note_events
  play_note-full s id note options p h planned reserved full =
      let events = note_events fl s.instruments p h in
      let failed : add_all fl s.queue events ≡ (refused s.queue, false) =
        add_all-full s.queue (note_event fl s.instruments p.start_frame trigger h) _ full in
      rw (planned, play_note, play_planned, reserved, enqueue, failed)
        (
          refl,
          refl,
          λ t early.
              allocate-new s.allocator id note p.start_frame (end_or_max fl p.end_frame) t h none
                early reserved,
        )
