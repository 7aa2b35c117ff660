-- ===== src/Scheduler/Peek.antt =====
-- PeekBefore at several frames, and the size of the queue after Pop (internal/scheduler/scheduler.go).
use govertone.Common.{
  ℕ, ◌+◌, ◌<◌, ◌≤◌, ◌==◌, ◌≡◌, refl, inl, inr, Bool-cases, none, some, List, [], ◌∷◌, arith, length,
}
use govertone.Heap.Size.{length-pop}
use govertone.Scheduler.{Event, Scheduler, zero_event, less, root_before, peek_before, pop}

module _ {F : Type 0} (s : Scheduler F) (end : ℕ) where
  module _ (ev : Event F) (e : peek_before s end ≡ some ev) where
    pub peek_before-lt : ev.frame < end
    unfolding peek_before root_before
    peek_before-lt = go s.h e
      where
        go : (h : List (Event F)) → root_before h end ≡ some ev → ev.frame < end
        go [] p = absurd (ground arith)
        go (x ∷ h) p = ground arith

    pub peek_before-earlier : (m : ℕ) → ev.frame < m → peek_before s m ≡ some ev
    unfolding peek_before root_before
    peek_before-earlier m late = go s.h e
      where
        go : (h : List (Event F)) → root_before h end ≡ some ev → root_before h m ≡ some ev
        go [] p = absurd (ground arith)
        go (x ∷ h) p = ground arith

    pub peek_before-later : (m : ℕ) → m ≤ ev.frame → peek_before s m ≡ none
    unfolding peek_before root_before
    peek_before-later m late = go s.h e
      where
        go : (h : List (Event F)) → root_before h end ≡ some ev → root_before h m ≡ none
        go [] p = refl
        go (x ∷ h) p = ground arith

    pub peek_before-size : 0 < length s.h
    unfolding peek_before root_before
    peek_before-size = go s.h e
      where
        go : (h : List (Event F)) → root_before h end ≡ some ev → 0 < length h
        go [] p = absurd (ground arith)
        go (x ∷ h) p = omega arith

  pub peek_before-none : (m : ℕ) → m ≤ end → peek_before s end ≡ none → peek_before s m ≡ none
  unfolding peek_before root_before
  peek_before-none m early e = go s.h e
    where
      go : (h : List (Event F)) → root_before h end ≡ none → root_before h m ≡ none
      go [] p = refl
      go (x ∷ h) p = ground arith

pub length-pop_queue :
    {F : Type 0} (z : F) (s : Scheduler F) → 0 < length s.h → length (pop z s).0.h + 1 ≡ length s.h
unfolding pop
length-pop_queue z s p = elim (Bool-cases (length s.h == 0)) [
  | inl no_events ↦ absurd (ground arith)
  | inr some_events ↦ rw some_events (length-pop (zero_event z) less s.h p)
]
