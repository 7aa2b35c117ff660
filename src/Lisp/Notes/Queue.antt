-- ===== src/Lisp/Notes/Queue.antt =====
-- The queue of events while play, release and stop-all cancel events and add some
-- (internal/lisp/runtime.go).
use govertone.Common.{
  ℕ, ◌+◌, ◌<◌, ◌≤◌, ◌≡◌, refl, true, some, List, [], ◌∷◌, length, length-perm, arith,
}
use govertone.Common.Float.{Float64}
use govertone.Common.Int.{u64_mod}
use govertone.Scheduler.{Scheduler, Event, add, cancel_handle}
use govertone.Scheduler.Queue.{IsValid, stamp, add-Takes}
use govertone.Scheduler.Dispatch.{dispatch}
use govertone.Scheduler.Refinement.{insert_ordered, dispatch-add, cancel_handle-Cancels}
use govertone.Lisp.Notes.{zero, add_all}

module _ (fl : Float64) where
  open fl use {Float}

  -- The events in dispatch order after some more are added, each under the next numbers.
  unfoldable pub schedule :
      (id sequence : ℕ) → List (Event Float) → List (Event Float) → List (Event Float)
  schedule id sequence [] waiting = waiting
  schedule id sequence (e ∷ es) waiting =
      schedule (id + 1) (sequence + 1) es
        (insert_ordered (record e { id = id + 1; sequence = sequence + 1 }) waiting)

  -- The queue takes some more events, without a wrap of its counters.
  pub record HasRoom (q : Scheduler Float) (count : ℕ) : Type 0 where
    pub valid : IsValid (zero fl) q
    pub room : length q.h + count ≤ q.capacity
    pub ids : q.next_id + count < u64_mod
    pub sequences : q.next_seq + count < u64_mod

  pub cancel_handle-HasRoom :
      (q : Scheduler Float) (id at count : ℕ)
      → HasRoom q count
      → HasRoom (cancel_handle (zero fl) q id at).0 count
  unfolding cancel_handle
  cancel_handle-HasRoom q id at count r =
      let (valid, perm, removed) = cancel_handle-Cancels (zero fl) q id at r.valid in
      record {
        valid = valid;
        room = omega (arith, removed, r.room);
        ids = r.ids;
        sequences = r.sequences;
      }

  pub HasRoom-of_le : (q : Scheduler Float) (m n : ℕ) → m ≤ n → HasRoom q n → HasRoom q m
  HasRoom-of_le q m n le r = record {
    valid = r.valid;
    room = omega (arith, r.room);
    ids = omega (arith, r.ids);
    sequences = omega (arith, r.sequences);
  }

  pub add-HasRoom :
      (q : Scheduler Float) (e : Event Float) (count : ℕ)
      → HasRoom q (count + 1)
      → ((add (zero fl) q e).1 ≡ some (stamp q e))
        × HasRoom (add (zero fl) q e).0 count
        × ((add (zero fl) q e).0.next_id ≡ q.next_id + 1)
        × ((add (zero fl) q e).0.next_seq ≡ q.next_seq + 1)
  add-HasRoom q e count r =
      let (out, takes) =
        add-Takes (zero fl) q e r.valid (omega (arith, r.room)) (omega (arith, r.ids))
          (omega (arith, r.sequences)) in
      (
        out,
        record {
          valid = takes.valid;
          room = omega (arith, r.room, length-perm takes.holds, takes.capacity);
          ids = omega (arith, r.ids, takes.next_id);
          sequences = omega (arith, r.sequences, takes.next_seq);
        },
        takes.next_id,
        takes.next_seq,
      )

  pub HasRoom-dispatch :
      IsSet Float
      → (q : Scheduler Float) (e : Event Float) (count : ℕ) → HasRoom q (count + 1)
      → dispatch (zero fl) (add (zero fl) q e).0 ≡ insert_ordered (stamp q e) (dispatch (zero fl) q)
  HasRoom-dispatch set q e count r =
      dispatch-add set (zero fl) q e r.valid (omega (arith, r.room)) (omega (arith, r.ids))
        (omega (arith, r.sequences))

  -- Events that the queue has room for are all added, and stand in the order of dispatch.
  pub dispatch-add_all :
      IsSet Float
      → (q : Scheduler Float) (es : List (Event Float)) → HasRoom q (length es)
      → ((add_all fl q es).1 ≡ true)
        × IsValid (zero fl) (add_all fl q es).0
        × (dispatch (zero fl) (add_all fl q es).0
            ≡ schedule q.next_id q.next_seq es (dispatch (zero fl) q))
  unfolding add_all schedule
  dispatch-add_all set q [] r = (refl, r.valid, refl)
  dispatch-add_all set q (e ∷ es) r =
      let more = HasRoom-of_le q (length es + 1) (length (e ∷ es)) (omega arith) r in
      let (out, room, id, sequence) = add-HasRoom q e (length es) more in
      let after = HasRoom-dispatch set q e (length es) more in
      let next = dispatch-add_all set (add (zero fl) q e).0 es room in
      rw (out, add_all) (next.0, next.1, rw (← after, ← id, ← sequence) next.2)
