-- ===== src/Lisp/Notes/Release.antt =====
-- release (internal/lisp/runtime.go): the allocator and the queue after it.
use mathlib.Core.List.{filter}
use govertone.Common.{
  ℕ, ◌≡◌, ◌≢◌, refl, ap, ◌∙◌, inl, inr, Bool-cases, true, ltb, none, some, List, [], ◌∷◌,
  if◌then◌else◌,
}
use govertone.Common.Float.{Float64}
use govertone.Common.Result.{ok}
use govertone.Instruments.Voices.{NoteHandle}
use govertone.Instruments.Voices
use govertone.Instruments.Voices.Releasing.{release_lem, release_self, returned, cut}
use govertone.Scheduler.{Event, cancel_handle, release}
use govertone.Scheduler.Queue.{stamp}
use govertone.Scheduler.Dispatch.{dispatch}
use govertone.Scheduler.Refinement.{insert_ordered, stays, dispatch-cancel_handle}
use govertone.Lisp.Notes.{NoteState, zero, note_event, silence_handle, release_note}
use govertone.Lisp.Notes.Queue.{HasRoom, schedule, cancel_handle-HasRoom, dispatch-add_all}

module _ (fl : Float64) where
  open fl use {Float}

  abbrev cut_off : NoteState Float → NoteHandle → NoteHandle
  cut_off s h = record h { end_frame = s.frame }

  -- The specification: of what waits, the events of the note that are still to come go, and one
  -- release comes if the note has started.
  unfoldable pub released_queue : NoteState Float → ℕ → NoteHandle → List (Event Float)
  released_queue s id h =
      let rest = filter (stays id s.frame) (dispatch (zero fl) s.queue) in
      if ltb s.frame h.start_frame
      then rest
      else insert_ordered
          (stamp s.queue (note_event fl s.instruments s.frame release (cut_off s h))) rest

  silence_handle-dispatch :
      IsSet Float
      → (s : NoteState Float) (id : ℕ) (h : NoteHandle) → HasRoom fl s.queue 1
      → ((silence_handle fl s id (cut_off s h)).1 ≡ true)
        × (dispatch (zero fl) (silence_handle fl s id (cut_off s h)).0 ≡ released_queue s id h)
  unfolding silence_handle released_queue schedule cancel_handle
  silence_handle-dispatch set s id h r =
      let removed = dispatch-cancel_handle set (zero fl) s.queue id s.frame r.valid in
      let (all, valid, after) =
        dispatch-add_all fl set (cancel_handle (zero fl) s.queue id s.frame).0
          (note_event fl s.instruments s.frame release (cut_off s h) ∷ [])
          (cancel_handle-HasRoom fl s.queue id s.frame 1 r) in
      elim (Bool-cases (ltb s.frame h.start_frame)) [
        | inl future ↦ rw future (refl, removed)
        | inr started ↦ rw started (all, rw (← removed) after)
      ]

  -- A note that plays at the current frame, while the queue has room for one event: release answers
  -- true, the note is found at no frame any more and the other notes as before, and the queue hands out what it held without the
  -- note's events from now on, and with a release now if the note has started.
  pub release_note_lem :
      IsSet Float
      → (s : NoteState Float) (id : ℕ) (h : NoteHandle)
      → Voices.handle s.allocator id s.frame ≡ some h
      → HasRoom fl s.queue 1
      → let out = release_note fl s id in
        (out.1 ≡ ok true)
        × ((t : ℕ) → Voices.handle out.0.allocator id t ≡ none)
        × ((other t : ℕ)
            → other ≢ id
            → Voices.handle out.0.allocator other t ≡ Voices.handle s.allocator other t)
        × (dispatch (zero fl) out.0.queue ≡ released_queue s id h)
  unfolding release_note released_queue
  release_note_lem set s id h found r =
      let given = returned s.allocator id s.frame ∙ ap (cut s.frame) found in
      let (added, after) =
        silence_handle-dispatch set
          (record s { allocator = (Voices.release s.allocator id s.frame).0 }) id h r in
      rw (given, release_note)
        (
          rw added refl,
          release_self s.allocator id s.frame,
          λ other t apart. (release_lem s.allocator id s.frame other t apart).2,
          after,
        )
