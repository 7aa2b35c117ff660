-- ===== src/Instruments/Voices/Invariant.antt =====
-- The invariant of the allocator of voices, and that every method keeps it
-- (internal/instruments/voices.go).
use Prim.Native.String.{String}
use native.Mathlib.Nat.{mod-eq_of_lt}
use govertone.Common.{
  ℕ, ◌+◌, ◌≤◌, ◌<◌, ◌≡◌, ◌≢◌, refl, sym, ◌∙◌, inl, inr, Option, some, List, [], ◌∷◌, arith,
}
use govertone.Common.Int.{ℤ, u64_mod}
use govertone.Common.Maps.{
  lookup, put, delete, nat_key, int_key, string_key, lookup-put_inv, lookup-delete_inv,
}
use govertone.Instruments.Voices.Cases.{
  forget, is_over-IsPlaying, Allocates, allocate-Allocates, Releases, release-Releases, first_free,
  first_oldest,
}
use govertone.Instruments.Voices.{
  Definition, NoteHandle, Reservation, Allocator, new_allocator, reserve, holder, evict, allocate,
  active_count, ended, release,
}

-- What holds of the reservation of a voice.
pub record IsPlaced (a : Allocator) (v : ℤ) (r : Reservation) : Type 0 where
  pub positive : 0 < r.handle.event_id
  pub given : r.handle.event_id ≤ a.next
  pub voice : r.handle.voice ≡ v
  pub generation : r.handle.generation ≡ a.generation

-- Every reservation lies at its voice, is of the present generation, and has an identifier of its
-- own among those given out; the high-water mark is at least the number of valid reservations.
pub record IsCoherent (a : Allocator) : Type 0 where
  pub placed : (v : ℤ) (r : Reservation) → lookup v a.voices ≡ some r → IsPlaced a v r
  pub apart :
      (v w : ℤ) (r s : Reservation)
      → v ≢ w
      → lookup v a.voices ≡ some r
      → lookup w a.voices ≡ some s
      → r.handle.event_id ≢ s.handle.event_id
  pub known : (id : ℕ) (v : ℤ) → lookup id a.handles ≡ some v → id ≤ a.next
  pub peak : active_count a.voices ≤ a.high_water

pub new-IsCoherent : (defs : List (String × Definition)) → IsCoherent (new_allocator defs)
unfolding new_allocator lookup
new-IsCoherent defs = record {
  placed = λ v r e. absurd (ground arith);
  apart = λ v w r s n e f. absurd (ground arith);
  known = λ id v e. absurd (ground arith);
  peak = omega arith;
}

next-IsPlaced :
    (a b : Allocator) (v : ℤ) (r : Reservation)
    → b.generation ≡ a.generation
    → a.next ≤ b.next
    → IsPlaced a v r
    → IsPlaced b v r
next-IsPlaced a b v r same later old =
    let given = old.given in
    record {
      positive = old.positive;
      given = omega arith;
      voice = old.voice;
      generation = old.generation ∙ sym same;
    }

reserve-IsCoherent :
    (a : Allocator) (id : String) (note start end : ℕ) (w : ℤ)
    → a.next + 1 < u64_mod
    → IsCoherent a
    → IsCoherent (reserve a id note start end w).0
unfolding reserve
reserve-IsCoherent a id note start end w small c =
    let known : (i : ℕ) (v : ℤ)
        → lookup i (put (a.next + 1) w a.handles) ≡ some v
        → i ≤ a.next + 1 =
      λ i v e. elim (lookup-put_inv (a.next + 1) i w v a.handles e) [
        | inl p ↦ omega (arith, p.0)
        | inr p ↦ omega (arith, c.known i v p.1)
      ] in
    rw (mod-eq_of_lt small) (record {
      placed = λ v r e. elim (lookup-put_inv w v _ r a.voices e) [
        | inl p ↦
            rw (p.1, p.0)
              (record {
                positive = omega arith;
                given = omega arith;
                voice = refl;
                generation = refl;
              })
        | inr p ↦ next-IsPlaced a _ v r refl (omega arith) (c.placed v r p.1)
      ];
      apart = λ v u r s n e f. elim (lookup-put_inv w v _ r a.voices e) [
        | inl p ↦ elim (lookup-put_inv w u _ s a.voices f) [
          | inl q ↦ absurd (n (p.0 ∙ sym q.0))
          | inr q ↦ let given = (c.placed u s q.1).given in rw p.1 (λ same. absurd (omega arith))
        ]
        | inr p ↦ elim (lookup-put_inv w u _ s a.voices f) [
          | inl q ↦ let given = (c.placed v r p.1).given in rw q.1 (λ same. absurd (omega arith))
          | inr q ↦ c.apart v u r s n p.1 q.1
        ]
      ];
      known = known;
      peak = ground arith;
    })

-- A change of the handles that only takes some away.
pub fewer_handles :
    (a : Allocator) (handles : List (ℕ × ℤ))
    → ((id : ℕ) (v : ℤ) → lookup id handles ≡ some v → lookup id a.handles ≡ some v)
    → IsCoherent a
    → IsCoherent (record a { handles = handles })
fewer_handles a handles within c = record {
  placed = λ v r e. next-IsPlaced a _ v r refl (omega arith) (c.placed v r e);
  apart = c.apart;
  known = λ id v e. c.known id v (within id v e);
  peak = c.peak;
}

forget-IsCoherent : (a : Allocator) (id : ℕ) → IsCoherent a → IsCoherent (forget a id)
forget-IsCoherent a id c =
    fewer_handles a (delete id a.handles) (λ i v e. (lookup-delete_inv id i v a.handles e).1) c

evict-IsCoherent : (a : Allocator) (w : ℤ) → IsCoherent a → IsCoherent (evict a w)
unfolding evict
evict-IsCoherent a w c = forget-IsCoherent a (holder a w).event_id c

-- The reservations `r` and `s` are of one note.
pub record IsSameNote (r s : Reservation) : Type 0 where
  pub event_id : r.handle.event_id ≡ s.handle.event_id
  pub voice : r.handle.voice ≡ s.handle.voice
  pub generation : r.handle.generation ≡ s.handle.generation

-- Every reservation of `voices` is of the note that has its voice in `a`.
abbrev pub IsFrom : List (ℤ × Reservation) → List (ℤ × Reservation) → Type 0
IsFrom voices old =
    (v : ℤ) (r : Reservation)
    → lookup v voices ≡ some r
    → (s : Reservation) × (lookup v old ≡ some s) × IsSameNote r s

-- A change of reservations that leaves their notes.
pub same_notes :
    (a : Allocator) (voices : List (ℤ × Reservation))
    → IsFrom voices a.voices
    → active_count voices ≤ active_count a.voices
    → IsCoherent a
    → IsCoherent (record a { voices = voices })
same_notes a voices within fewer c = record {
  placed = λ v r e.
      let (s, found, same) = within v r e in
      let old = c.placed v s found in
      let positive = old.positive in
      let given = old.given in
      let id = same.event_id in
      record {
        positive = omega arith;
        given = omega arith;
        voice = same.voice ∙ old.voice;
        generation = same.generation ∙ old.generation;
      };
  apart = λ v w r s n e f.
      let (p, found_p, same_p) = within v r e in
      let (q, found_q, same_q) = within w s f in
      rw (same_p.event_id, same_q.event_id) (c.apart v w p q n found_p found_q);
  known = c.known;
  peak = let peak = c.peak in omega arith;
}

put-ended-IsFrom :
    (voices : List (ℤ × Reservation)) (w : ℤ) (at : ℕ) (s : Reservation)
    → lookup w voices ≡ some s
    → IsFrom (put w (ended s at) voices) voices
put-ended-IsFrom voices w at s found v r e = elim (lookup-put_inv w v _ r voices e) [
  | inl p ↦ rw (p.0, p.1) (s, found, record { event_id = refl; voice = refl; generation = refl })
  | inr p ↦ (r, p.1, record { event_id = refl; voice = refl; generation = refl })
]

put-ended-count :
    (voices : List (ℤ × Reservation)) (w : ℤ) (at : ℕ) (s : Reservation)
    → active_count (put w (ended s at) voices) ≤ active_count voices
unfolding put
put-ended-count [] w at s = omega arith
put-ended-count (e ∷ voices) w at s = ground (arith, put-ended-count voices w at s)

pub allocate-IsCoherent :
    (a : Allocator) (id : String) (note start end : ℕ)
    → a.next + 1 < u64_mod
    → IsCoherent a
    → IsCoherent (allocate a id note start end).0
unfolding evict
allocate-IsCoherent a id note start end small c = go (allocate-Allocates a id note start end)
  where
    go :
        {out : Allocator × Option (NoteHandle × Option NoteHandle)}
        → Allocates a id note start end out
        → IsCoherent out.0
    go (Allocates.unknown e) = c
    go (Allocates.free d e f) =
        reserve-IsCoherent a id note start end (first_free a d start) small c
    go (Allocates.steal d e f) =
        let w = first_oldest a d in
        reserve-IsCoherent (evict a w) id note start end w small (evict-IsCoherent a w c)

pub release-IsCoherent : (a : Allocator) (id at : ℕ) → IsCoherent a → IsCoherent (release a id at).0
release-IsCoherent a id at c = go (release-Releases a id at)
  where
    go : {out : Allocator × Option NoteHandle} → Releases a id at out → IsCoherent out.0
    go (Releases.missing e) = c
    go (Releases.over v e f) = forget-IsCoherent a id c
    go (Releases.playing v e f) =
        let (s, playing) = is_over-IsPlaying a v id at f in
        rw playing.read (
          forget-IsCoherent (record a { voices = put v (ended s at) a.voices }) id
            (same_notes a (put v (ended s at) a.voices)
              (put-ended-IsFrom a.voices v at s playing.found) (put-ended-count a.voices v at s) c))
