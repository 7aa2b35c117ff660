-- ===== src/Scheduler/Queue.antt =====
-- The invariant of the queue of events, and what each method does to the events in it
-- (internal/scheduler/scheduler.go).
use mathlib.Core.List.{
  Nodup, map-append, append-nil, mem-append_right, Nodup-cons, Nodup-nil, not-mem-nil,
  forall_mem-cons,
}
use mathlib.Core.List.Nodup
use mathlib.Core.List.Perm
use native.Mathlib.Bridge.{le_prop}
use native.Mathlib.Nat.{mod-eq_of_lt, le_trans, le-add_right}
use govertone.Common.Int.{u64_mod}
use govertone.Common.{
  ℕ, ◌+◌, ◌%◌, ◌≤◌, ◌<◌, ◌≡◌, inl, inr, refl, none, some, List, [], ◌∷◌, ◌++◌, map, Mem, Perm,
  arith, Bool-cases, leb, length, length-append, length-perm,
}
use govertone.Heap
use govertone.Heap.Order.{IsHeap}
use govertone.Heap.Up.{push_lem}
use govertone.Scheduler.{Event, zero_event, less, Scheduler, new, insert, add}
use govertone.Scheduler.Order.{less-IsOrder}

module _ {F : Type 0} where
  abbrev pub sequences : List (Event F) → List ℕ
  sequences = map λ e. e.sequence

  -- The event as Add stamps it.
  abbrev pub stamp : Scheduler F → Event F → Event F
  stamp s e = record e { id = s.next_id + 1; sequence = s.next_seq + 1 }

module _ {F : Type 0} (z : F) where
  -- The queue is a heap within its capacity, and every event has its own sequence number, none
  -- above the last one given.
  pub record IsValid (s : Scheduler F) : Type 0 where
    pub heap : IsHeap (zero_event z) less s.h
    pub bounded : length s.h ≤ s.capacity
    pub deepest : length s.h ≤ s.max_depth
    pub limited : s.max_depth ≤ s.capacity
    pub stamped : (n : ℕ) → Mem n (sequences s.h) → n ≤ s.next_seq
    pub distinct : Nodup (sequences s.h)

  pub new-IsValid : (capacity : ℕ) → IsValid (new z capacity)
  unfolding new Heap.init
  new-IsValid capacity = record {
    heap = λ c p q. absurd (omega arith);
    bounded = omega arith;
    deepest = omega arith;
    limited = omega arith;
    stamped = λ n m. absurd (not-mem-nil m);
    distinct = Nodup-nil;
  }

  -- The queue `q` holds the event `e` besides the events of `s`, and is valid.
  pub record Takes (s : Scheduler F) (e : Event F) (q : Scheduler F) : Type 0 where
    pub valid : IsValid q
    pub holds : Perm q.h (e ∷ s.h)
    pub next_id : q.next_id ≡ s.next_id + 1
    pub next_seq : q.next_seq ≡ s.next_seq + 1
    pub capacity : q.capacity ≡ s.capacity
    pub overflows : q.overflows ≡ s.overflows

  -- A full queue refuses the event, counts the refusal and changes nothing else.
  pub add-full :
      (s : Scheduler F) (e : Event F)
      → s.capacity ≤ length s.h
      → add z s e ≡ (record s { overflows = (s.overflows + 1) % u64_mod }, none)
  unfolding add
  add-full s e h = ground arith

  stamp-stamped :
      (s : Scheduler F) (e : Event F)
      → IsValid s
      → (n : ℕ) → Mem n (sequences (stamp s e ∷ s.h))
      → n ≤ s.next_seq + 1
  stamp-stamped s e v =
      (forall_mem-cons λ n. le_prop).1
        (omega arith, λ n m. le_trans (v.stamped n m) (le-add_right s.next_seq 1))

  pub stamp-distinct :
      (s : Scheduler F) (e : Event F) → IsValid s → Nodup (sequences (stamp s e ∷ s.h))
  stamp-distinct s e v =
      Nodup-cons.1 ((λ m. absurd (omega (arith, v.stamped (s.next_seq + 1) m))), v.distinct)

  -- Add on a valid queue with room, whose counters do not wrap, returns the event under the next
  -- identifier and the next sequence number; the queue then holds it besides the events that it
  -- held, and is valid.
  pub add-Takes :
      (s : Scheduler F) (e : Event F)
      → IsValid s
      → length s.h < s.capacity
      → s.next_id + 1 < u64_mod
      → s.next_seq + 1 < u64_mod
      → ((add z s e).1 ≡ some (stamp s e)) × Takes s (stamp s e) (add z s e).0
  unfolding add
  add-Takes s e v room p q =
      let (heap, perm) = push_lem (zero_event z) less less-IsOrder s.h (stamp s e) v.heap in
      let size = length-perm perm in
      let bounded = v.bounded in
      let deepest = v.deepest in
      let limited = v.limited in
      let moved = Perm.map (λ (d : Event F). d.sequence) perm in
      elim (Bool-cases (leb s.capacity (length s.h))) [
        | inl full ↦ absurd (ground arith)
        | inr free ↦
            rw (free, insert, mod-eq_of_lt p, mod-eq_of_lt q)
              (
                refl,
                record {
                  valid = record {
                    heap = heap;
                    bounded = omega (arith, size);
                    deepest = ground arith;
                    limited = ground (arith, size);
                    stamped = λ n m. stamp-stamped s e v n ((Perm.mem_iff moved).0 m);
                    distinct = Perm.nodup (Perm.symm moved) (stamp-distinct s e v);
                  };
                  holds = perm;
                  next_id = refl;
                  next_seq = refl;
                  capacity = refl;
                  overflows = refl;
                },
              )
      ]

  -- Any choice of the events of a valid queue, put in order, is a valid queue.
  pub rest-IsValid :
      (s : Scheduler F) (e : List (Event F)) (h : List (Event F))
      → IsValid s
      → IsHeap (zero_event z) less h
      → Perm (e ++ h) s.h
      → IsValid (record s { h = h })
  rest-IsValid s e h v heap perm =
      let moved = rw map-append at (Perm.map (λ (d : Event F). d.sequence) perm) in
      let bounded = v.bounded in
      let deepest = v.deepest in
      record {
        heap = heap;
        bounded = omega (arith, length-perm perm, length-append e h);
        deepest = omega (arith, length-perm perm, length-append e h);
        limited = v.limited;
        stamped = λ n m. v.stamped n ((Perm.mem_iff moved).0 (mem-append_right (sequences e) m));
        distinct = Nodup.of_append_right (sequences e) (Perm.nodup (Perm.symm moved) v.distinct);
      }

  pub empty-IsValid : (s : Scheduler F) → IsValid s → IsValid (record s { h = [] })
  empty-IsValid s v =
      rest-IsValid s s.h [] v (λ c p q. absurd (omega arith)) (rw append-nil Perm.rfl)
