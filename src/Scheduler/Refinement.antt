-- ===== src/Scheduler/Refinement.antt =====
-- The queue of events (internal/scheduler/scheduler.go) against its specification: a list of
-- events in dispatch order, on which Add inserts, Pop takes the head and the cancellations filter.
use mathlib.Core.Bool.{Bool-set}
use mathlib.Core.List.{
  filter-sublist, perm_middle, Pairwise, Pairwise-singleton, forall_mem-cons, rel_of_Pairwise-cons,
  filter, not-mem-nil, mem-cons, mem-cons_self, mem-cons_of_mem,
}
use mathlib.Core.List.Pairwise
use mathlib.Core.List.Perm
use mathlib.Core.Logic.{if_pos, if_neg}
use mathlib.Core.Logic.Or
use native.Mathlib.Decide.{ℕ_discrete, dec_lt}
use govertone.Common.Int.{u64_mod}
use govertone.Common.{
  ℕ, ◌+◌, ◌<◌, ◌≡◌, ◌≢◌, ◌⊎◌, inl, inr, refl, subst, sym, ap, true, List, [], ◌∷◌, ◌++◌, Mem, Perm,
  arith, Bool-cases, if◌then◌else◌, length, length-perm,
}
use govertone.Common.Text.{String-set}
use govertone.Heap
use govertone.Heap.Down.{init_lem}
use govertone.Scheduler.{
  Event, EventKind, zero_event, less, Scheduler, add, is_cancelled, cancel_loop, cancel_handle,
  cancel_musical,
}
use govertone.Scheduler.Order.{less-IsOrder}
use govertone.Scheduler.Queue.{
  IsValid, empty-IsValid, rest-IsValid, stamp-distinct, stamp, add-Takes,
}
use govertone.Scheduler.Dispatch.{
  dispatch-empty, dispatch-IsOrdered, less-of_distinct, sequence-ne, IsOrdered, dispatch,
}

module _ {F : Type 0} (set : IsSet F) where
  EventKind-set : IsSet EventKind
  EventKind-set = hlevel

  Event-set : IsSet (Event F)
  Event-set = hlevel (set, String-set)

  -- Two lists of the same events in dispatch order are one list.
  IsOrdered-unique : (xs ys : List (Event F)) → IsOrdered xs → IsOrdered ys → Perm xs ys → xs ≡ ys
  IsOrdered-unique [] ys p q r = Perm.nil-eq r
  IsOrdered-unique (x ∷ xs) [] p q r = absurd (not-mem-nil ((Perm.mem_iff r).0 mem-cons_self))
  IsOrdered-unique (x ∷ xs) (y ∷ ys) p q r =
      let heads : x ≡ y =
        Or.elim (Event-set x y) (mem-cons.0 ((Perm.mem_iff r).0 mem-cons_self)) (λ e. e)
          λ in_ys.
            Or.elim (Event-set x y) (mem-cons.0 ((Perm.mem_iff r).1 mem-cons_self)) sym λ in_xs.
              let before = rel_of_Pairwise-cons q in_ys in
              let after = less-IsOrder.asym x y (rel_of_Pairwise-cons p in_xs) in cc in
      let tails =
        IsOrdered-unique xs ys (Pairwise.of_cons p) (Pairwise.of_cons q)
          (Perm.cons_inv (Perm.trans r (Perm.cons' (sym heads) Perm.rfl))) in
      cc

module _ {F : Type 0} where
  -- The specification of Add: the event goes before the first one that comes after it.
  unfoldable pub insert_ordered : Event F → List (Event F) → List (Event F)
  insert_ordered e [] = e ∷ []
  insert_ordered e (x ∷ es) = if less e x then e ∷ x ∷ es else x ∷ insert_ordered e es

  insert_ordered-perm : (e : Event F) (es : List (Event F)) → Perm (insert_ordered e es) (e ∷ es)
  unfolding insert_ordered
  insert_ordered-perm e [] = Perm.rfl
  insert_ordered-perm e (x ∷ es) = elim (Bool-cases (less e x)) [
    | inl before ↦ rw before Perm.rfl
    | inr after ↦ rw after (Perm.trans (Perm.cons x (insert_ordered-perm e es)) (Perm.swap e x es))
  ]

  less_trans : (a b c : Event F) → less a b ≡ true → less b c ≡ true → less a c ≡ true
  unfolding less
  less_trans a b c p q = ground arith

  insert_ordered-IsOrdered :
      (e : Event F) (es : List (Event F))
      → ((x : Event F) → Mem x es → x.sequence ≢ e.sequence)
      → IsOrdered es
      → IsOrdered (insert_ordered e es)
  unfolding insert_ordered
  insert_ordered-IsOrdered e [] own p = Pairwise-singleton _ e
  insert_ordered-IsOrdered e (x ∷ es) own p = elim (Bool-cases (less e x)) [
    | inl before ↦ rw before (
        Pairwise.cons
          ((forall_mem-cons λ y. Bool-set _ _).1
            (before, λ y m. less_trans e x y before (rel_of_Pairwise-cons p m)))
          p)
    | inr after ↦
        let rest =
          insert_ordered-IsOrdered e es (λ y m. own y (mem-cons_of_mem x m)) (Pairwise.of_cons p) in
        let first : less x e ≡ true =
          less-of_distinct e x after (λ t. own x mem-cons_self (sym t)) in
        rw after (
          Pairwise.cons
            (λ y m.
              (forall_mem-cons λ y. Bool-set (less x y) true).1
                (first, λ y n. rel_of_Pairwise-cons p n) y
                ((Perm.mem_iff (insert_ordered-perm e es)).0 m))
            rest)
  ]

  -- The events put one by one at their places: the order of dispatch, from the events alone.
  unfoldable pub in_order : List (Event F) → List (Event F)
  in_order [] = []
  in_order (e ∷ es) = insert_ordered e (in_order es)

  -- What CancelHandle leaves alone: other handles, and events before the frame.
  abbrev pub Stays : ℕ → ℕ → Event F → Type 0
  Stays handle at e = (e.handle_id ≢ handle) ⊎ (e.frame < at)

  unfoldable pub stays : (handle at : ℕ) (e : Event F) → Dec (Stays handle at e)
  stays handle at e = elim (ℕ_discrete e.handle_id handle) [
    | no n ↦ yes (inl n)
    | yes p ↦ elim (dec_lt e.frame at) [
      | yes q ↦ yes (inr q)
      | no q ↦ no (λ w. elim w [ inl n ↦ n p | inr r ↦ q r ])
    ]
  ]

  cancel_loop-filter :
      (handle at : ℕ) (es : List (Event F))
      → ((cancel_loop handle at es).0 ≡ filter (stays handle at) es)
        × ((cancel_loop handle at es).1 + length (filter (stays handle at) es) ≡ length es)
  unfolding cancel_loop
  cancel_loop-filter handle at [] = (refl, omega arith)
  cancel_loop-filter handle at (e ∷ es) =
      let (kept, count) = cancel_loop-filter handle at es in
      elim (stays handle at e) [
        | yes s ↦ rw (if_pos (stays handle at e) s) (ground arith, ground arith)
        | no s ↦ rw (if_neg (stays handle at e) s) (ground arith, ground arith)
      ]

  -- The events that the loop of CancelHandle drops.
  dropped :
      (handle at : ℕ) (es : List (Event F))
      → (gone : List (Event F)) × Perm (gone ++ (cancel_loop handle at es).0) es
  unfolding cancel_loop
  dropped handle at [] = ([], Perm.nil)
  dropped handle at (e ∷ es) =
      let (gone, perm) = dropped handle at es in
      elim (Bool-cases (is_cancelled handle at e)) [
        | inl c ↦ rw c (e ∷ gone, Perm.cons e perm)
        | inr c ↦
            rw c
              (gone, Perm.trans (perm_middle gone (cancel_loop handle at es).0) (Perm.cons e perm))
      ]

module _ {F : Type 0} (z : F) where
  pub cancel_handle-Cancels :
      (s : Scheduler F) (handle at : ℕ)
      → IsValid z s
      → IsValid z (cancel_handle z s handle at).0
        × Perm (cancel_handle z s handle at).0.h (filter (stays handle at) s.h)
        × ((cancel_handle z s handle at).1 + length (cancel_handle z s handle at).0.h ≡ length s.h)
  unfolding cancel_handle
  cancel_handle-Cancels s handle at v =
      let (heap, perm) = init_lem (zero_event z) less less-IsOrder (cancel_loop handle at s.h).0 in
      let (kept, count) = cancel_loop-filter handle at s.h in
      let (gone, whole) = dropped handle at s.h in
      (
        rest-IsValid z s gone _ v heap (Perm.trans (Perm.append_left gone perm) whole),
        subst (Perm _) kept perm,
        omega (arith, count, length-perm perm, ap length kept),
      )

module _ {F : Type 0} (set : IsSet F) (z : F) where
  -- Whatever is a valid queue of a list of events in order, up to their order, hands out that list.
  dispatch_of_perm :
      (s : Scheduler F) (es : List (Event F))
      → IsValid z s
      → IsOrdered es
      → Perm s.h es
      → dispatch z s ≡ es
  dispatch_of_perm s es v p r =
      let (ordered, perm) = dispatch-IsOrdered z s v in
      IsOrdered-unique set (dispatch z s) es ordered p (Perm.trans perm r)

  -- On a valid queue with room, whose counters do not wrap, Add puts the stamped event at its place in
  -- the order of dispatch.
  pub dispatch-add :
      (s : Scheduler F) (e : Event F)
      → IsValid z s
      → length s.h < s.capacity
      → s.next_id + 1 < u64_mod
      → s.next_seq + 1 < u64_mod
      → dispatch z (add z s e).0 ≡ insert_ordered (stamp s e) (dispatch z s)
  dispatch-add s e v room p q =
      let (out, takes) = add-Takes z s e v room p q in
      let (ordered, perm) = dispatch-IsOrdered z s v in
      let r = Perm.trans takes.holds (
        Perm.symm
          (Perm.trans (insert_ordered-perm (stamp s e) (dispatch z s)) (Perm.cons _ perm))) in
      dispatch_of_perm (add z s e).0 (insert_ordered (stamp s e) (dispatch z s)) takes.valid
        (insert_ordered-IsOrdered (stamp s e) (dispatch z s)
          (λ x m.
            sequence-ne x (stamp s e) (stamp s e ∷ s.h) Perm.rfl (stamp-distinct z s e v)
              ((Perm.mem_iff perm).0 m))
          ordered)
        r

  -- CancelHandle on a valid queue removes from the order of dispatch the events of the handle at the
  -- frame or later, and no others.
  pub dispatch-cancel_handle :
      (s : Scheduler F) (handle at : ℕ)
      → IsValid z s
      → dispatch z (cancel_handle z s handle at).0 ≡ filter (stays handle at) (dispatch z s)
  dispatch-cancel_handle s handle at v =
      let (valid, perm, count) = cancel_handle-Cancels z s handle at v in
      let (ordered, all) = dispatch-IsOrdered z s v in
      dispatch_of_perm (cancel_handle z s handle at).0 (filter (stays handle at) (dispatch z s))
        valid
        (Pairwise.sublist (λ a b. Bool-set (less a b) true) (filter-sublist (stays handle at))
          ordered)
        (Perm.trans perm (Perm.symm (Perm.filter (stays handle at) all)))

  -- CancelMusical empties the queue, and says how many events that were.
  pub dispatch-cancel_musical :
      (s : Scheduler F)
      → IsValid z s
      → IsValid z (cancel_musical z s).0
        × (dispatch z (cancel_musical z s).0 ≡ [])
        × ((cancel_musical z s).1 ≡ length (dispatch z s))
  unfolding cancel_musical Heap.init
  dispatch-cancel_musical s v = (
    empty-IsValid z s v,
    dispatch-empty z _ (omega arith),
    omega (arith, length-perm (dispatch-IsOrdered z s v).1),
  )
