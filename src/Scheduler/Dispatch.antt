-- ===== src/Scheduler/Dispatch.antt =====
-- The order in which Pop and PeekBefore hand out the events (internal/scheduler/scheduler.go).
use mathlib.Core.Bool.{Bool-set}
use mathlib.Core.List.{Nodup, Nodup-cons, Pairwise, mem-map_of_mem, mem-cons_of_mem, not-mem-nil}
use mathlib.Core.List.Perm
use govertone.Common.{
  ℕ, zero, suc, ◌≤◌, ◌<◌, ◌≡◌, ◌≢◌, inl, inr, refl, subst, sym, ap, ◌∙◌, true, false, none, some,
  List, [], ◌∷◌, Mem, Perm, arith, Bool-cases, leb, ◌==◌, length, get_or, length-perm,
  nil_of_length, forall_mem_of_get_or,
}
use govertone.Heap.Order.{root_least}
use govertone.Heap.Down.{pop_lem}
use govertone.Scheduler.{Event, zero_event, less, Scheduler, root_before, peek_before, pop}
use govertone.Scheduler.Order.{less-IsOrder}
use govertone.Scheduler.Queue.{IsValid, sequences, rest-IsValid}

module _ {F : Type 0} where
  abbrev pub IsOrdered : List (Event F) → Type 0
  IsOrdered = Pairwise (λ a b. less a b ≡ true)

  pub less-of_distinct :
      (d e : Event F) → less d e ≡ false → d.sequence ≢ e.sequence → less e d ≡ true
  unfolding less
  less-of_distinct d e h n = ground arith

  pub sequence-ne :
      (d e : Event F) {rest : List (Event F)} (h : List (Event F))
      → Perm (e ∷ rest) h
      → Nodup (sequences h)
      → Mem d rest
      → d.sequence ≢ e.sequence
  sequence-ne d e {rest} h perm distinct m same =
      let moved = Perm.map (λ (c : Event F). c.sequence) perm in
      (Nodup-cons.0 (Perm.nodup (Perm.symm moved) distinct)).0
        (subst (λ n. Mem n (sequences rest)) same (mem-map_of_mem (λ (c : Event F). c.sequence) m))

  frame-le : (d e : Event F) → less d e ≡ false → e.frame ≤ d.frame
  unfolding less
  frame-le d e h = ground arith

  root_before-some :
      (es : List (Event F)) (end : ℕ) (e d : Event F)
      → root_before es end ≡ some e
      → (0 < length es) × (e ≡ get_or es 0 d) × (e.frame < end)
  unfolding root_before
  root_before-some [] end e d h = cc
  root_before-some (x ∷ es) end e d h = elim (Bool-cases (leb end x.frame)) [
    | inl late ↦ absurd (ground arith)
    | inr due ↦ let same : e ≡ x = ground arith in (omega arith, same, rw same (ground arith))
  ]

  root_before-none :
      (es : List (Event F)) (end : ℕ) (d : Event F)
      → 0 < length es
      → root_before es end ≡ none
      → end ≤ (get_or es 0 d).frame
  unfolding root_before
  root_before-none [] end d p h = absurd (omega arith)
  root_before-none (x ∷ es) end d p h = ground arith

  length_pos : (es : List (Event F)) {d : Event F} → Mem d es → 0 < length es
  length_pos [] m = absurd (not-mem-nil m)
  length_pos (x ∷ es) m = omega arith

module _ {F : Type 0} (z : F) where
  -- What Pop leaves of a queue that is not empty: `e` is handed out, nothing else is lost, and
  -- every event that stays comes after `e` in the dispatch order.
  pub record Pops (s : Scheduler F) (e : Event F) (q : Scheduler F) : Type 0 where
    pub valid : IsValid z q
    pub same : Perm (e ∷ q.h) s.h
    pub first : (d : Event F) → Mem d q.h → less e d ≡ true
    pub capacity : q.capacity ≡ s.capacity
    pub next_seq : q.next_seq ≡ s.next_seq

  pub pop-empty : (s : Scheduler F) → length s.h ≡ 0 → pop z s ≡ (s, none)
  unfolding pop
  pop-empty s h = ground arith

  pub pop-root :
      (s : Scheduler F)
      → IsValid z s
      → 0 < length s.h
      → (pop z s).1 ≡ some (get_or s.h 0 (zero_event z))
  unfolding pop
  pop-root s v p = ground (arith, pop_lem (zero_event z) less less-IsOrder s.h v.heap p)

  root-first :
      (s : Scheduler F)
      → IsValid z s
      → (d : Event F) → Mem d s.h
      → less d (get_or s.h 0 (zero_event z)) ≡ false
  root-first s v =
      forall_mem_of_get_or (λ d. Bool-set _ _) s.h (zero_event z)
        λ i p. root_least (zero_event z) less less-IsOrder s.h (length s.h) i v.heap p

  pub pop-Pops :
      (s : Scheduler F)
      → IsValid z s
      → 0 < length s.h
      → Pops s (get_or s.h 0 (zero_event z)) (pop z s).0
  unfolding pop
  pop-Pops s v p =
      let (heap, perm, root) = pop_lem (zero_event z) less less-IsOrder s.h v.heap p in
      let same = rw root at perm in
      elim (Bool-cases (length s.h == 0)) [
        | inl e ↦ absurd (ground arith)
        | inr e ↦ rw e (record {
          valid = rest-IsValid z s (_ ∷ []) _ v heap perm;
          same = same;
          first = λ d m.
              less-of_distinct d _ (root-first s v d ((Perm.mem_iff same).0 (mem-cons_of_mem _ m)))
                (sequence-ne d _ s.h same v.distinct m);
          capacity = refl;
          next_seq = refl;
        })
      ]

  -- On a valid queue, an event that PeekBefore shows is the one that Pop hands out next, and its frame
  -- is before the end.
  pub peek_before-some :
      (s : Scheduler F) (end : ℕ) (e : Event F)
      → IsValid z s
      → peek_before s end ≡ some e
      → ((pop z s).1 ≡ some e) × (e.frame < end)
  unfolding peek_before
  peek_before-some s end e v h =
      let (p, root, due) = root_before-some s.h end e (zero_event z) h in
      (pop-root s v p ∙ ap some (sym root), due)

  -- PeekBefore shows nothing only if no event of the queue is due before the end.
  pub peek_before-none :
      (s : Scheduler F) (end : ℕ)
      → IsValid z s
      → peek_before s end ≡ none
      → (d : Event F) → Mem d s.h
      → end ≤ d.frame
  unfolding peek_before
  peek_before-none s end v h d m =
      let late = root_before-none s.h end (zero_event z) (length_pos s.h m) h in
      let after = frame-le d (get_or s.h 0 (zero_event z)) (root-first s v d m) in omega arith

  -- Pop until the queue is empty, at most `k` times.
  drain_loop : ℕ → Scheduler F → List (Event F)
  drain_loop zero s = []
  drain_loop (suc k) s =
      let rest = drain_loop k (pop z s).0 in elim (pop z s).1 [ none ↦ [] | some e ↦ e ∷ rest ]

  -- The events of the queue in the order in which Pop hands them out.
  unfoldable pub dispatch : Scheduler F → List (Event F)
  unfolding drain_loop
  dispatch s = drain_loop (length s.h) s

  drain_loop-IsOrdered :
      (k : ℕ) (s : Scheduler F)
      → length s.h ≤ k
      → IsValid z s
      → IsOrdered (drain_loop k s) × Perm (drain_loop k s) s.h
  unfolding drain_loop
  drain_loop-IsOrdered zero s f v = (Pairwise.nil, rw (nil_of_length s.h (omega arith)) Perm.nil)
  drain_loop-IsOrdered (suc k) s f v = elim (Bool-cases (length s.h == 0)) [
    | inl e ↦
        let none_left : s.h ≡ [] = nil_of_length s.h (ground arith) in
        rw (pop-empty s (ground arith), drain_loop) (Pairwise.nil, rw none_left Perm.nil)
    | inr e ↦
        let p : 0 < length s.h = ground arith in
        let r = pop-Pops s v p in
        let (ordered, perm) =
          drain_loop-IsOrdered k (pop z s).0 (omega (arith, length-perm r.same)) r.valid in
        let whole = Perm.trans (Perm.cons _ perm) r.same in
        rw (pop-root s v p, drain_loop)
          (Pairwise.cons (λ d m. r.first d ((Perm.mem_iff perm).0 m)) ordered, whole)
  ]

  -- The events come out of a valid queue in the dispatch order, each of them once.
  pub dispatch-IsOrdered :
      (s : Scheduler F) → IsValid z s → IsOrdered (dispatch s) × Perm (dispatch s) s.h
  unfolding dispatch
  dispatch-IsOrdered s v = drain_loop-IsOrdered (length s.h) s (omega arith) v

  pub dispatch-empty : (s : Scheduler F) → length s.h ≡ 0 → dispatch s ≡ []
  unfolding dispatch drain_loop
  dispatch-empty s h = rw (h, drain_loop)
