-- ===== src/Instruments/Voices/Stopping.antt =====
-- StopAll (internal/instruments/voices.go): which notes it ends, and what it returns.
use mathlib.Core.List.{mem-cons_self, mem-cons_of_mem}
use govertone.Common.{
  ℕ, ◌≤◌, ◌≡◌, refl, ap, ltb, ◌&&◌, inl, inr, true, false, Option, none, some, List, [], ◌∷◌, Mem,
  if◌then◌else◌, arith, Bool-cases, Option-cases,
}
use govertone.Common.Int.{ℤ, eqb_ℤ}
use govertone.Common.Maps.{lookup, lookup_or-some, delete, nat_key, int_key, lookup-delete_inv}
use govertone.Instruments.Voices.{
  NoteHandle, Reservation, Allocator, zero_reservation, is_playing, ended, stop_loop, stop_all,
  handle, active_count,
}
use govertone.Instruments.Voices.Playing.{Holds, Holds-of_handle}
use govertone.Instruments.Voices.Invariant.{
  IsFrom, IsCoherent, IsSameNote, same_notes, fewer_handles,
}

abbrev pub stopped : ℕ → Reservation → Reservation
stopped at r = if is_playing r at then ended r at else r

abbrev pub stopped_option : ℕ → Option Reservation → Option Reservation
stopped_option at none = none
stopped_option at (some r) = some (stopped at r)

pub lookup-stop_loop :
    (m : List (ℤ × Reservation)) (at : ℕ) (handles : List (ℕ × ℤ)) (v : ℤ)
    → lookup v (stop_loop m at handles).0 ≡ stopped_option at (lookup v m)
unfolding lookup stop_loop
lookup-stop_loop [] at handles v = refl
lookup-stop_loop (e ∷ m) at handles v = ground (
  arith,
  lookup-stop_loop m at handles v,
  lookup-stop_loop m at (delete e.1.handle.event_id handles) v,
)

stop_loop-count :
    (m : List (ℤ × Reservation)) (at : ℕ) (handles : List (ℕ × ℤ))
    → active_count (stop_loop m at handles).0 ≤ active_count m
unfolding stop_loop
stop_loop-count [] at handles = omega arith
stop_loop-count (e ∷ m) at handles =
    ground (
      arith,
      stop_loop-count m at handles,
      stop_loop-count m at (delete e.1.handle.event_id handles),
    )

stop_loop-handles :
    (m : List (ℤ × Reservation)) (at : ℕ) (handles : List (ℕ × ℤ)) (id : ℕ) (v : ℤ)
    → lookup id (stop_loop m at handles).1 ≡ some v
    → lookup id handles ≡ some v
unfolding stop_loop
stop_loop-handles [] at handles id v h = h
stop_loop-handles (e ∷ m) at handles id v h = elim (Bool-cases (is_playing e.1 at)) [
  | inl playing ↦
      (lookup-delete_inv e.1.handle.event_id id v handles
        (stop_loop-handles m at (delete e.1.handle.event_id handles) id v (rw playing at h))).1
  | inr idle ↦ stop_loop-handles m at handles id v (rw idle at h)
]

stop_loop-ended :
    (m : List (ℤ × Reservation)) (at : ℕ) (handles : List (ℕ × ℤ)) (v : ℤ) (r : Reservation)
    → lookup v m ≡ some r
    → is_playing r at ≡ true
    → Mem (ended r at).handle (stop_loop m at handles).2
unfolding stop_loop lookup
stop_loop-ended [] at handles v r e p = absurd (ground arith)
stop_loop-ended (e ∷ m) at handles v r found p = elim (Bool-cases (eqb_ℤ e.0 v)) [
  | inl here ↦
      let same : e.1 ≡ r = ground arith in
      let playing : is_playing e.1 at ≡ true = rw same p in rw (same, p) mem-cons_self
  | inr there ↦
      let later : lookup v m ≡ some r = ground arith in
      elim (Bool-cases (is_playing e.1 at)) [
        | inl playing ↦ rw playing (
            mem-cons_of_mem _
              (stop_loop-ended m at (delete e.1.handle.event_id handles) v r later p))
        | inr idle ↦ rw idle (stop_loop-ended m at handles v r later p)
      ]
]

-- The notes that play at a frame, each with the frame as its end.
unfoldable pub playing_notes : List (ℤ × Reservation) → ℕ → List NoteHandle
playing_notes [] at = []
playing_notes (e ∷ m) at =
    let rest = playing_notes m at in
    if e.1.valid && ltb at e.1.handle.end_frame
    then record e.1.handle { end_frame = at } ∷ rest
    else rest

stop_loop-playing :
    (m : List (ℤ × Reservation)) (at : ℕ) (handles : List (ℕ × ℤ))
    → (stop_loop m at handles).2 ≡ playing_notes m at
unfolding stop_loop playing_notes
stop_loop-playing [] at handles = refl
stop_loop-playing (e ∷ m) at handles = elim (Bool-cases (is_playing e.1 at)) [
  | inl playing ↦ rw playing (
      ap (λ hs. (ended e.1 at).handle ∷ hs)
        (stop_loop-playing m at (delete e.1.handle.event_id handles)))
  | inr idle ↦ rw idle (stop_loop-playing m at handles)
]

-- StopAll returns the notes that play at its frame, with the frame as their end.
pub stop_all-playing : (a : Allocator) (at : ℕ) → (stop_all a at).1 ≡ playing_notes a.voices at
unfolding stop_all
stop_all-playing a at = stop_loop-playing a.voices at a.handles

-- Each reservation that StopAll leaves was there, and ended if it was playing.
stop_loop_inv :
    (m : List (ℤ × Reservation)) (at : ℕ) (handles : List (ℕ × ℤ)) (v : ℤ) (r : Reservation)
    → lookup v (stop_loop m at handles).0 ≡ some r
    → (s : Reservation) × (lookup v m ≡ some s) × (stopped at s ≡ r)
stop_loop_inv m at handles v r e = elim (Option-cases (lookup v m)) [
  | inl z ↦ absurd (ground (arith, lookup-stop_loop m at handles v))
  | inr (s, found) ↦ (s, found, ground (arith, lookup-stop_loop m at handles v))
]

stopped_same : (at : ℕ) (s : Reservation) → IsSameNote (stopped at s) s
stopped_same at s = elim (Bool-cases (is_playing s at)) [
  | inl p ↦ rw p (record { event_id = refl; voice = refl; generation = refl })
  | inr p ↦ rw p (record { event_id = refl; voice = refl; generation = refl })
]

IsFrom-stop_loop :
    (m : List (ℤ × Reservation)) (at : ℕ) (handles : List (ℕ × ℤ))
    → IsFrom (stop_loop m at handles).0 m
IsFrom-stop_loop m at handles v r e =
    let (s, found, same) = stop_loop_inv m at handles v r e in
    (s, found, rw (← same) (stopped_same at s))

pub stop_all-IsCoherent : (a : Allocator) (at : ℕ) → IsCoherent a → IsCoherent (stop_all a at).0
unfolding stop_all
stop_all-IsCoherent a at c =
    let stopped_voices =
      same_notes a (stop_loop a.voices at a.handles).0 (IsFrom-stop_loop a.voices at a.handles)
        (stop_loop-count a.voices at a.handles) c in
    fewer_handles (record a { voices = (stop_loop a.voices at a.handles).0 })
      (stop_loop a.voices at a.handles).1 (stop_loop-handles a.voices at a.handles) stopped_voices

-- What StopAll leaves playing was playing before, and ends by the frame.
pub stop_all-Holds :
    (a : Allocator) (at id t : ℕ) (v : ℤ) (r : Reservation)
    → Holds (stop_all a at).0 id t v r
    → Holds a id t v r × (r.handle.end_frame ≤ at)
unfolding stop_all
stop_all-Holds a at id t v r h =
    let p = h.playing in
    let alive = p.valid in
    let until = p.until in
    let event_id = p.event_id in
    let (s, found, same) = stop_loop_inv a.voices at a.handles v r p.found in
    let idle : is_playing s at ≡ false = ground arith in
    let here : s ≡ r = ground arith in
    (
      record {
        listed = stop_loop-handles a.voices at a.handles id v h.listed;
        playing = record {
          found = rw (← here) found;
          read = lookup_or-some zero_reservation r v a.voices (rw (← here) found);
          valid = alive;
          event_id = event_id;
          until = until;
        };
      },
      ground arith,
    )

-- After StopAll at a frame no handle is found at that frame or later.
pub stop_all-silent : (a : Allocator) (at id t : ℕ) → at ≤ t → handle (stop_all a at).0 id t ≡ none
stop_all-silent a at id t later = elim (Option-cases (handle (stop_all a at).0 id t)) [
  | inl z ↦ z
  | inr (h, e) ↦
      let (v, r, holds, same) = Holds-of_handle (stop_all a at).0 id t h e in
      let until = holds.playing.until in
      let early = (stop_all-Holds a at id t v r holds).1 in absurd (omega arith)
]

-- StopAll returns every handle that is found at its frame, with the frame as its end.
pub stop_all-returns :
    (a : Allocator) (at id : ℕ) (h : NoteHandle)
    → handle a id at ≡ some h
    → Mem (record h { end_frame = at }) (stop_all a at).1
unfolding stop_all
stop_all-returns a at id h e =
    let (v, r, holds, same) = Holds-of_handle a id at h e in
    let alive = holds.playing.valid in
    let until = holds.playing.until in
    rw (← same) (stop_loop-ended a.voices at a.handles v r holds.playing.found (ground arith))
