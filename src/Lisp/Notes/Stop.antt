-- ===== src/Lisp/Notes/Stop.antt =====
-- stop-all (internal/lisp/runtime.go): the allocator and the queue after it.
use mathlib.Core.List.{filter}
use govertone.Common.{
  ℕ, ◌+◌, ◌≤◌, ◌≡◌, ◌∙◌, refl, subst, Mem, inl, inr, Bool-cases, true, ltb, none, some, List, [],
  ◌∷◌, length, arith, if◌then◌else◌,
}
use govertone.Common.Float.{Float64}
use govertone.Common.Result.{ok}
use govertone.Instruments.Voices.{Definition, NoteHandle, stop_all}
use govertone.Instruments.Voices
use govertone.Instruments.Voices.Stopping.{
  playing_notes, stop_all-playing, stop_all-returns, stop_all-silent,
}
use govertone.Scheduler.{Scheduler, Event, add, cancel_handle, release}
use govertone.Scheduler.Dispatch.{dispatch}
use govertone.Scheduler.Refinement.{insert_ordered, stays, dispatch-cancel_handle}
use govertone.Lisp.Notes.{
  NoteState, zero, note_event, add_all, silence_handle, silence_all, stop_all_notes,
}
use govertone.Lisp.Notes.Queue.{
  HasRoom, HasRoom-of_le, HasRoom-dispatch, add-HasRoom, cancel_handle-HasRoom,
}

module _ (fl : Float64) where
  open fl use {Float}

  -- The specification: note by note, the events that are still to come go, and one release comes if
  -- the note has started.
  unfoldable pub stopped_queue :
      List Definition
      → (frame id sequence : ℕ) → List NoteHandle
      → List (Event Float)
      → List (Event Float)
  stopped_queue ds frame id sequence [] waiting = waiting
  stopped_queue ds frame id sequence (h ∷ hs) waiting =
      let rest = filter (stays h.event_id frame) waiting in
      let ended = record (note_event fl ds frame release h) {
        id = id + 1;
        sequence = sequence + 1;
      } in
      let future = stopped_queue ds frame id sequence hs rest in
      let started = stopped_queue ds frame (id + 1) (sequence + 1) hs (insert_ordered ended rest) in
      if ltb frame h.start_frame then future else started

  add_all-one :
      (q : Scheduler Float) (e e' : Event Float)
      → (add (zero fl) q e).1 ≡ some e'
      → add_all fl q (e ∷ []) ≡ ((add (zero fl) q e).0, true)
  unfolding add_all
  add_all-one q e e' out = rw (out, add_all) refl

  silence_all-dispatch :
      IsSet Float
      → (s : NoteState Float) (hs : List NoteHandle) → HasRoom fl s.queue (length hs)
      → ((silence_all fl s hs).1 ≡ true)
        × (dispatch (zero fl) (silence_all fl s hs).0
            ≡ stopped_queue s.instruments s.frame s.queue.next_id s.queue.next_seq hs
                (dispatch (zero fl) s.queue))
  unfolding silence_all silence_handle stopped_queue cancel_handle
  silence_all-dispatch set s [] r = (refl, refl)
  silence_all-dispatch set s (h ∷ hs) r =
      let q = (cancel_handle (zero fl) s.queue h.event_id s.frame).0 in
      let e = note_event fl s.instruments s.frame release h in
      let removed = dispatch-cancel_handle set (zero fl) s.queue h.event_id s.frame r.valid in
      let more =
        HasRoom-of_le fl q (length hs + 1) (length (h ∷ hs)) (omega arith)
          (cancel_handle-HasRoom fl s.queue h.event_id s.frame (length (h ∷ hs)) r) in
      elim (Bool-cases (ltb s.frame h.start_frame)) [
        | inl future ↦
            let next =
              silence_all-dispatch set (record s { queue = q }) hs
                (HasRoom-of_le fl q (length hs) (length hs + 1) (omega arith) more) in
            rw future (next.0, rw (← removed) next.1)
        | inr started ↦
            let (out, room, id, sequence) = add-HasRoom fl q e (length hs) more in
            let after = HasRoom-dispatch fl set q e (length hs) more in
            let next =
              silence_all-dispatch set (record s { queue = (add (zero fl) q e).0 }) hs room in
            rw (started, add_all-one q e _ out)
              (next.0, rw (← removed) (next.1 ∙ rw (id, sequence, after) refl))
      ]

  -- While the queue has room for one event of every note that plays at the current frame, stop-all
  -- answers how many notes these are. Every note whose handle is found at the current frame is one
  -- of them; afterwards no note is found at the current frame or later. The queue hands out what it
  -- held without their events from now on, and with a release now of those that have started.
  pub stop_all_notes_lem :
      IsSet Float
      → (s : NoteState Float)
      → HasRoom fl s.queue (length (playing_notes s.allocator.voices s.frame))
      → let playing = playing_notes s.allocator.voices s.frame in
        let out = stop_all_notes fl s in
        (out.1 ≡ ok (length playing))
        × ((id : ℕ) (h : NoteHandle)
            → Voices.handle s.allocator id s.frame ≡ some h
            → Mem (record h { end_frame = s.frame }) playing)
        × ((id t : ℕ) → s.frame ≤ t → Voices.handle out.0.allocator id t ≡ none)
        × (dispatch (zero fl) out.0.queue
            ≡ stopped_queue s.instruments s.frame s.queue.next_id s.queue.next_seq playing
                (dispatch (zero fl) s.queue))
  unfolding stop_all_notes
  stop_all_notes_lem set s r =
      let s' : NoteState Float = record s { allocator = (stop_all s.allocator s.frame).0 } in
      let same = stop_all-playing s.allocator s.frame in
      let (all, after) = silence_all-dispatch set s' (playing_notes s.allocator.voices s.frame) r in
      (
        rw (same, all) refl,
        λ id h found. subst (Mem _) same (stop_all-returns s.allocator s.frame id h found),
        λ id t later. stop_all-silent s.allocator s.frame id t later,
        rw same after,
      )
