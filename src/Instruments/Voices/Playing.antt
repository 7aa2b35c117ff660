-- ===== src/Instruments/Voices/Playing.antt =====
-- When Handle and Valid find a note (internal/instruments/voices.go).
use govertone.Common.{
  ℕ, ◌≡◌, refl, sym, ap, ◌∙◌, inl, inr, Bool, true, false, Option, none, some, arith, Bool-cases,
  Option-cases,
}
use govertone.Common.Int.{ℤ}
use govertone.Common.Maps.{lookup, lookup_or, nat_key, int_key}
use govertone.Instruments.Voices.{
  NoteHandle, Reservation, Allocator, zero_reservation, is_over, handle, valid,
}
use govertone.Instruments.Voices.Cases.{IsPlaying, is_over-IsPlaying}

-- The note `id` has the reservation `r` of the voice `v` at a frame, and its end is not reached.
pub record Holds (a : Allocator) (id at : ℕ) (v : ℤ) (r : Reservation) : Type 0 where
  pub listed : lookup id a.handles ≡ some v
  pub playing : IsPlaying a v id at r

pub handle-Holds :
    (a : Allocator) (id at : ℕ) (v : ℤ) (r : Reservation)
    → Holds a id at v r
    → handle a id at ≡ some r.handle
unfolding handle
handle-Holds a id at v r h =
    let p = h.playing in
    let until = p.until in
    let live : is_over r id at ≡ false = rw (p.valid, p.event_id) (ground arith) in
    rw (handle, h.listed, p.read, live) refl

pub Holds-of_handle :
    (a : Allocator) (id at : ℕ) (h : NoteHandle)
    → handle a id at ≡ some h
    → (v : ℤ) × (r : Reservation) × Holds a id at v r × (r.handle ≡ h)
unfolding handle
Holds-of_handle a id at h e = elim (Option-cases (lookup id a.handles)) [
  | inl z ↦ absurd (ground arith)
  | inr (v, listed) ↦ elim (Bool-cases (is_over (lookup_or zero_reservation v a.voices) id at)) [
    | inl over ↦ absurd (ground arith)
    | inr live ↦
        let (r, p) = is_over-IsPlaying a v id at live in
        let same : (lookup_or zero_reservation v a.voices).handle ≡ h = ground arith in
        (
          v,
          r,
          record { listed = listed; playing = p },
          ap (λ (s : Reservation). s.handle) (sym p.read) ∙ same,
        )
  ]
]

abbrev pub is_some : Option NoteHandle → Bool
is_some none = false
is_some (some h) = true

-- Valid answers true exactly when Handle finds the note.
pub valid-handle : (a : Allocator) (id at : ℕ) → valid a id at ≡ is_some (handle a id at)
unfolding valid handle
valid-handle a id at = ground arith
