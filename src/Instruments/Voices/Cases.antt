-- ===== src/Instruments/Voices/Cases.antt =====
-- The branches of Allocate and of Release (internal/instruments/voices.go).
use Prim.Native.String.{String}
use mathlib.Core.Bool.{false≢true}
use govertone.Common.{
  ◌<◌, sym, ap, ◌∙◌, arith, false, ℕ, ◌-◌, ◌≡◌, inl, inr, true, Option, none, some, Bool-cases,
  Option-cases,
}
use govertone.Common.Int.{ℤ, pos, negsuc, pos_part, ltb_ℤ, u64_mod}
use govertone.Common.Maps.{
  lookup, lookup_or, lookup_or-none, lookup_or-some, put, delete, nat_key, int_key, string_key,
}
use govertone.Instruments.Voices.{
  Definition, NoteHandle, Reservation, Allocator, zero_reservation, free_voice, oldest_voice,
  reserve, holder, evict, allocate, is_over, ended, release,
}

-- The voice that the first loop finds for a definition, and the one that the second loop finds.
abbrev pub first_free : Allocator → Definition → ℕ → ℤ
first_free a d start = free_voice a.voices d.first_voice start (pos_part d.voices) 0

abbrev pub first_oldest : Allocator → Definition → ℤ
first_oldest a d =
    oldest_voice a.voices d.first_voice (pos_part d.voices) 0 (u64_mod - 1) (negsuc 0)

-- What Allocate makes of a voice that is free, and of one that is not.
abbrev pub take_free :
    Allocator → String → ℕ → ℕ → ℕ → ℤ → Allocator × Option (NoteHandle × Option NoteHandle)
take_free a id note start end w =
    let fresh = reserve a id note start end w in (fresh.0, some (fresh.1, none))

abbrev pub take_over :
    Allocator → String → ℕ → ℕ → ℕ → ℤ → Allocator × Option (NoteHandle × Option NoteHandle)
take_over a id note start end w =
    let stealing = reserve (evict a w) id note start end w in
    (stealing.0, some (stealing.1, some (holder a w)))

-- What Release leaves of a note that is over, and of one that plays.
abbrev pub forget : Allocator → ℕ → Allocator
forget a id = record a { handles = delete id a.handles }

abbrev pub finish : Allocator → ℕ → ℤ → Reservation → Allocator
finish a id v r = record a { voices = put v r a.voices; handles = delete id a.handles }

abbrev pub finish_at : Allocator → ℕ → ℤ → ℕ → Allocator × Option NoteHandle
finish_at a id v at =
    let r = ended (lookup_or zero_reservation v a.voices) at in (finish a id v r, some r.handle)

-- Allocate refuses an unknown instrument, or takes a free voice, or steals one.
pub data Allocates (a : Allocator) (id : String) (note start end : ℕ)
    : Allocator × Option (NoteHandle × Option NoteHandle) → Type 0 where
  unknown : lookup id a.defs ≡ none → Allocates a id note start end (a, none)
  free :
      (d : Definition)
      → lookup id a.defs ≡ some d
      → ltb_ℤ (first_free a d start) (pos 0) ≡ false
      → Allocates a id note start end (take_free a id note start end (first_free a d start))
  steal :
      (d : Definition)
      → lookup id a.defs ≡ some d
      → ltb_ℤ (first_free a d start) (pos 0) ≡ true
      → Allocates a id note start end (take_over a id note start end (first_oldest a d))

pub allocate-Allocates :
    (a : Allocator) (id : String) (note start end : ℕ)
    → Allocates a id note start end (allocate a id note start end)
unfolding allocate
allocate-Allocates a id note start end = elim (Option-cases (lookup id a.defs)) [
  | inl z ↦ rw (allocate, z) (Allocates.unknown z)
  | inr (d, e) ↦ elim (Bool-cases (ltb_ℤ (first_free a d start) (pos 0))) [
    | inl none_free ↦ rw (allocate, e, none_free) (Allocates.steal d e none_free)
    | inr some_free ↦ rw (allocate, e, some_free) (Allocates.free d e some_free)
  ]
]

-- Release finds no such handle, or one whose note is over, or ends the note.
pub data Releases (a : Allocator) (id at : ℕ) : Allocator × Option NoteHandle → Type 0 where
  missing : lookup id a.handles ≡ none → Releases a id at (a, none)
  over :
      (v : ℤ)
      → lookup id a.handles ≡ some v
      → is_over (lookup_or zero_reservation v a.voices) id at ≡ true
      → Releases a id at (forget a id, none)
  playing :
      (v : ℤ)
      → lookup id a.handles ≡ some v
      → is_over (lookup_or zero_reservation v a.voices) id at ≡ false
      → Releases a id at (finish_at a id v at)

pub release-Releases : (a : Allocator) (id at : ℕ) → Releases a id at (release a id at)
unfolding release
release-Releases a id at = elim (Option-cases (lookup id a.handles)) [
  | inl z ↦ rw (release, z) (Releases.missing z)
  | inr (v, e) ↦ elim (Bool-cases (is_over (lookup_or zero_reservation v a.voices) id at)) [
    | inl late ↦ rw (release, e, late) (Releases.over v e late)
    | inr live ↦ rw (release, e, live) (Releases.playing v e live)
  ]
]

-- A reservation whose note is not over is there, and is of the note.
pub record IsPlaying (a : Allocator) (v : ℤ) (id at : ℕ) (r : Reservation) : Type 0 where
  pub found : lookup v a.voices ≡ some r
  pub read : lookup_or zero_reservation v a.voices ≡ r
  pub valid : r.valid ≡ true
  pub event_id : r.handle.event_id ≡ id
  pub until : at < r.handle.end_frame

pub is_over-IsPlaying :
    (a : Allocator) (v : ℤ) (id at : ℕ)
    → is_over (lookup_or zero_reservation v a.voices) id at ≡ false
    → (r : Reservation) × IsPlaying a v id at r
is_over-IsPlaying a v id at f = elim (Option-cases (lookup v a.voices)) [
  | inl z ↦ absurd (
      false≢true (sym f ∙ ap (λ r. is_over r id at) (lookup_or-none zero_reservation v a.voices z)))
  | inr (r, found) ↦
      let read = lookup_or-some zero_reservation r v a.voices found in
      let live : is_over r id at ≡ false = ap (λ s. is_over s id at) (sym read) ∙ f in
      (
        r,
        record {
          found = found;
          read = read;
          valid = ground arith;
          event_id = ground arith;
          until = ground arith;
        },
      )
]

-- A reservation that plays here plays wherever the voice has it.
pub lookup-IsPlaying :
    (a b : Allocator) (v : ℤ) (id at : ℕ) (r : Reservation)
    → IsPlaying b v id at r
    → lookup v a.voices ≡ some r
    → IsPlaying a v id at r
lookup-IsPlaying a b v id at r p found = record {
  found = found;
  read = lookup_or-some zero_reservation r v a.voices found;
  valid = p.valid;
  event_id = p.event_id;
  until = p.until;
}
