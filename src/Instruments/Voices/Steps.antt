-- ===== src/Instruments/Voices/Steps.antt =====
-- Sequences of calls of the allocator: no call revives a note, and none changes one
-- (internal/instruments/voices.go).
use Prim.Native.String.{String}
use native.Mathlib.Nat.{mod-eq_of_lt}
use govertone.Common.{
  ℕ, ◌+◌, ◌<◌, ◌≤◌, ◌≡◌, refl, ap, ◌∙◌, inl, inr, Option, none, some, List, arith, Option-cases,
}
use govertone.Common.Int.{ℤ, u64_mod}
use govertone.Common.Maps.{lookup, nat_key, int_key}
use govertone.Instruments.Voices.{
  Definition, NoteHandle, Reservation, Allocator, reserve, evict, allocate, release, stop_all,
  reset, handle,
}
use govertone.Instruments.Voices.Cases.{Allocates, allocate-Allocates, Releases, release-Releases}
use govertone.Instruments.Voices.Playing.{Holds, handle-Holds, Holds-of_handle}
use govertone.Instruments.Voices.Invariant.{IsCoherent, allocate-IsCoherent, release-IsCoherent}
use govertone.Instruments.Voices.Releasing.{release_self}
use govertone.Instruments.Voices.Stale.{allocate-Holds, release-Holds}
use govertone.Instruments.Voices.Stopping.{stop_all-IsCoherent, stop_all-Holds}

pub data Step : Allocator → Allocator → Type 0 where
  allocating :
      {a : Allocator} (id : String) (note start end : ℕ)
      → a.next + 1 < u64_mod
      → Step a (allocate a id note start end).0
  releasing : {a : Allocator} (id at : ℕ) → Step a (release a id at).0
  stopping : {a : Allocator} (at : ℕ) → Step a (stop_all a at).0
  resetting :
      {a : Allocator} (defs : List (String × Definition)) (generation : ℕ)
      → Step a (reset a defs generation).0

pub data Steps : Allocator → Allocator → Type 0 where
  done : {a : Allocator} → Steps a a
  next : {a b c : Allocator} → Step a b → Steps b c → Steps a c

reset-IsCoherent :
    (a : Allocator) (defs : List (String × Definition)) (generation : ℕ)
    → IsCoherent (reset a defs generation).0
unfolding reset lookup
reset-IsCoherent a defs generation = record {
  placed = λ v r e. absurd (ground arith);
  apart = λ v w r s n e f. absurd (ground arith);
  known = λ id v e. absurd (ground arith);
  peak = omega arith;
}

pub Step-IsCoherent : (a b : Allocator) → Step a b → IsCoherent a → IsCoherent b
Step-IsCoherent a b (Step.allocating id note start end small) c =
    allocate-IsCoherent a id note start end small c
Step-IsCoherent a b (Step.releasing id at) c = release-IsCoherent a id at c
Step-IsCoherent a b (Step.stopping at) c = stop_all-IsCoherent a at c
Step-IsCoherent a b (Step.resetting defs generation) c = reset-IsCoherent a defs generation

-- The invariant holds after any calls on an allocator that has it, while the counter of the
-- identifiers does not wrap.
pub Steps-IsCoherent : (a b : Allocator) → Steps a b → IsCoherent a → IsCoherent b
Steps-IsCoherent a b Steps.done c = c
Steps-IsCoherent a b (Steps.next {b = m} s r) c = Steps-IsCoherent m b r (Step-IsCoherent a m s c)

Step-Holds :
    (a b : Allocator) (i t : ℕ) (v : ℤ) (r : Reservation)
    → Step a b
    → i ≤ a.next
    → Holds b i t v r
    → Holds a i t v r
unfolding reset lookup
Step-Holds a b i t v r (Step.allocating id note start end small) old h =
    allocate-Holds a id note start end i t v r small old h
Step-Holds a b i t v r (Step.releasing id at) old h = (release-Holds a id at i t v r h).1
Step-Holds a b i t v r (Step.stopping at) old h = (stop_all-Holds a at i t v r h).0
Step-Holds a b i t v r (Step.resetting defs generation) old h = absurd (ground (arith, h.listed))

next-allocate :
    (a : Allocator) (id : String) (note start end : ℕ)
    → a.next + 1 < u64_mod
    → a.next ≤ (allocate a id note start end).0.next
unfolding reserve evict
next-allocate a id note start end small = go (allocate-Allocates a id note start end)
  where
    go :
        {out : Allocator × Option (NoteHandle × Option NoteHandle)}
        → Allocates a id note start end out
        → a.next ≤ out.0.next
    go (Allocates.unknown e) = omega arith
    go (Allocates.free d e f) = rw (mod-eq_of_lt small) (omega arith)
    go (Allocates.steal d e f) = rw (mod-eq_of_lt small) (omega arith)

next-release : (a : Allocator) (id at : ℕ) → a.next ≤ (release a id at).0.next
next-release a id at = go (release-Releases a id at)
  where
    go : {out : Allocator × Option NoteHandle} → Releases a id at out → a.next ≤ out.0.next
    go (Releases.missing e) = omega arith
    go (Releases.over v e f) = omega arith
    go (Releases.playing v e f) = omega arith

Step-next : (a b : Allocator) → Step a b → a.next ≤ b.next
unfolding stop_all reset
Step-next a b (Step.allocating id note start end small) = next-allocate a id note start end small
Step-next a b (Step.releasing id at) = next-release a id at
Step-next a b (Step.stopping at) = omega arith
Step-next a b (Step.resetting defs generation) = omega arith

Steps-Holds :
    (a b : Allocator) (i t : ℕ) (v : ℤ) (r : Reservation)
    → Steps a b
    → i ≤ a.next
    → Holds b i t v r
    → Holds a i t v r
Steps-Holds a b i t v r Steps.done old h = h
Steps-Holds a b i t v r (Steps.next {b = m} s more) old h =
    let later = Step-next a m s in
    Step-Holds a m i t v r s old (Steps-Holds m b i t v r more (omega arith) h)

-- Whatever is called, a handle that was given out and is found at a frame was found there before,
-- unchanged: no call revives a note, moves it, or makes it longer.
pub Steps-handle :
    (a b : Allocator) (id t : ℕ) (h : NoteHandle)
    → Steps a b
    → id ≤ a.next
    → handle b id t ≡ some h
    → handle a id t ≡ some h
Steps-handle a b id t h s old e =
    let (v, r, holds, same) = Holds-of_handle b id t h e in
    handle-Holds a id t v r (Steps-Holds a b id t v r s old holds) ∙ ap some same

none_after :
    (a b : Allocator) (id t : ℕ)
    → Steps a b
    → id ≤ a.next
    → handle a id t ≡ none
    → handle b id t ≡ none
none_after a b id t s old z = elim (Option-cases (handle b id t)) [
  | inl y ↦ y
  | inr (h, e) ↦ absurd (ground (arith, Steps-handle a b id t h s old e))
]

-- A handle given out before Reset is not found afterwards, at any frame and whatever is called.
pub reset-forever :
    (a b : Allocator) (defs : List (String × Definition)) (generation id t : ℕ)
    → Steps (reset a defs generation).0 b
    → id ≤ a.next
    → handle b id t ≡ none
unfolding reset handle lookup
reset-forever a b defs generation id t s old =
    none_after (reset a defs generation).0 b id t s old refl

-- After Release of a handle it is not found, at any frame and whatever is called.
pub release-forever :
    (a b : Allocator) (id at t : ℕ)
    → Steps (release a id at).0 b
    → id ≤ a.next
    → handle b id t ≡ none
release-forever a b id at t s old =
    let later = next-release a id at in
    none_after (release a id at).0 b id t s (omega arith) (release_self a id at t)
