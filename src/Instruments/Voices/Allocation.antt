-- ===== src/Instruments/Voices/Allocation.antt =====
-- Allocate (internal/instruments/voices.go): the voice it takes, the note it displaces, and the notes
-- it leaves as they were.
use Prim.Native.String.{String}
use native.Mathlib.Nat
use native.Mathlib.Nat.{mod-eq_of_lt}
use mathlib.Core.Bool.{true≢false}
use govertone.Instruments.Voices.Invariant.{IsCoherent}
use govertone.Common.{
  ℕ, ◌+◌, ◌-◌, ◌<◌, ◌≤◌, ◌≡◌, ◌≢◌, refl, sym, ap, subst, ◌∙◌, ◌⊎◌, inl, inr, true, false, Option,
  some, arith, Bool-cases, Option-cases,
}
use govertone.Common.Int.{
  ℤ, pos, negsuc, pos_part, ◌+ℤ◌, ltb_ℤ, eqb_ℤ, eqb_ℤ_iff, u64_mod, ◌≤ℤ◌, +ℤ_parts,
}
use govertone.Common.Maps.{
  lookup, lookup_or-some, lookup_or-none, lookup-put_same, lookup-put_other, lookup-delete_other,
  put, nat_key, int_key, string_key,
}
use govertone.Instruments.Voices.{
  Definition, NoteHandle, Reservation, Allocator, zero_reservation, is_free, reserve, holder, evict,
  allocate, handle,
}
use govertone.Instruments.Voices.Cases.{
  Allocates, allocate-Allocates, first_free, first_oldest, take_free, take_over, lookup-IsPlaying,
}
use govertone.Instruments.Voices.Choice.{
  Between, free_at, start_at, IsFirstFree, IsFirstOldest, free_voice-first, oldest_voice-first,
}
use govertone.Instruments.Voices.Playing.{Holds, handle-Holds, Holds-of_handle}

-- The lowest free voice of the instrument is taken; if none is free, the voice whose reservation
-- started first is taken over.
pub data Chooses (a : Allocator) (id : String) (note start end : ℕ) (d : Definition) : Type 0 where
  lowest_free :
      (j : ℕ)
      → IsFirstFree a.voices d.first_voice start 0 (pos_part d.voices) j
      → allocate a id note start end ≡ take_free a id note start end (d.first_voice +ℤ pos j)
      → Chooses a id note start end d
  oldest :
      (j : ℕ)
      → Between 0 (pos_part d.voices) (λ l. free_at a.voices d.first_voice start l ≡ false)
      → IsFirstOldest a.voices d.first_voice 0 (pos_part d.voices) j
      → allocate a id note start end ≡ take_over a id note start end (d.first_voice +ℤ pos j)
      → Chooses a id note start end d

not_negative : (a : ℤ) (j : ℕ) → pos 0 ≤ℤ a → ltb_ℤ (a +ℤ pos j) (pos 0) ≡ false
not_negative a j h = ground (arith, +ℤ_parts a (pos j))

-- For a known instrument that has voices, numbered from 0 up, Allocate takes the lowest voice that
-- is free at the start of the note; if none is, it takes over the voice whose reservation started
-- first, the lowest of those, if all started before the greatest uint64.
pub allocate-Chooses :
    (a : Allocator) (id : String) (note start end : ℕ) (d : Definition)
    → lookup id a.defs ≡ some d
    → pos 0 ≤ℤ d.first_voice
    → 0 < pos_part d.voices
    → Between 0 (pos_part d.voices) (λ l. start_at a.voices d.first_voice l < u64_mod - 1)
    → Chooses a id note start end d
unfolding allocate
allocate-Chooses a id note start end d known low some_voices early =
    let first = d.first_voice in
    let frees = rw Nat.zero-add at (free_voice-first a.voices first start (pos_part d.voices) 0) in
    let olds =
      rw Nat.zero-add at
        (oldest_voice-first a.voices first (pos_part d.voices) 0 (u64_mod - 1) (negsuc 0)) in
    elim frees [
      | inr (j, h, e) ↦
          Chooses.lowest_free j h (rw (allocate, known, e, not_negative first j low) refl)
      | inl p ↦ elim olds [
        | inr (j, h, lower, e) ↦ Chooses.oldest j p.0 h (rw (allocate, known, p.1, e) refl)
        | inl q ↦
            absurd
              (omega (arith, early 0 (omega arith) some_voices, q.0 0 (omega arith) some_voices))
      ]
    ]

reserved :
    (a : Allocator) (id : String) (note start end : ℕ) (w : ℤ) (t : ℕ)
    → t < end
    → let h = (reserve a id note start end w).1 in
      handle (reserve a id note start end w).0 h.event_id t ≡ some h
unfolding reserve
reserved a id note start end w t early =
    let out = reserve a id note start end w in
    let r : Reservation = record { handle = out.1; valid = true } in
    let found = lookup-put_same w r a.voices in
    handle-Holds out.0 out.1.event_id t w r (record {
      listed = lookup-put_same out.1.event_id w a.handles;
      playing = record {
        found = found;
        read = lookup_or-some zero_reservation r w (put w r a.voices) found;
        valid = refl;
        event_id = refl;
        until = early;
      };
    })

reserve-keeps :
    (a : Allocator) (id : String) (note start end : ℕ) (w : ℤ) (i t : ℕ) (v : ℤ) (r : Reservation)
    → a.next + 1 < u64_mod
    → i ≤ a.next
    → v ≢ w
    → Holds a i t v r
    → Holds (reserve a id note start end w).0 i t v r
unfolding reserve
reserve-keeps a id note start end w i t v r small old elsewhere h =
    let p = h.playing in
    let other : i ≢ a.next + 1 = λ same. absurd (omega arith) in
    rw (mod-eq_of_lt small) (record {
      listed = lookup-put_other (a.next + 1) i w a.handles other ∙ h.listed;
      playing =
          lookup-IsPlaying _ a v i t r p (lookup-put_other w v _ a.voices elsewhere ∙ p.found);
    })

-- A voice that is free at the start of a note has no note that plays from then on.
free_idle :
    (a : Allocator) (start i t : ℕ) (v : ℤ) (r : Reservation)
    → is_free a.voices start v ≡ true
    → start ≤ t
    → Holds a i t v r
    → ⊥
free_idle a start i t v r free late h =
    let found = h.playing.found in
    let alive = h.playing.valid in let until = h.playing.until in ground arith

first_free-is_free :
    (a : Allocator) (d : Definition) (start : ℕ)
    → ltb_ℤ (first_free a d start) (pos 0) ≡ false
    → is_free a.voices start (first_free a d start) ≡ true
first_free-is_free a d start e =
    elim (free_voice-first a.voices d.first_voice start (pos_part d.voices) 0) [
      | inl p ↦ absurd (true≢false (ap (λ v. ltb_ℤ v (pos 0)) (sym p.1) ∙ e))
      | inr (j, h, same) ↦ rw same h.free
    ]

-- The identifier of a reservation is not that of the reservation of another voice.
holder_apart :
    (a : Allocator) (w v : ℤ) (r : Reservation)
    → IsCoherent a
    → v ≢ w
    → lookup v a.voices ≡ some r
    → r.handle.event_id ≢ (holder a w).event_id
holder_apart a w v r c n e = elim (Option-cases (lookup w a.voices)) [
  | inl z ↦
      let positive = (c.placed v r e).positive in
      rw (holder, lookup_or-none zero_reservation w a.voices z) (λ same. absurd (omega arith))
  | inr p ↦
      rw (holder, lookup_or-some zero_reservation p.0 w a.voices p.1) (c.apart v w r p.0 n e p.1)
]

evict-keeps :
    (a : Allocator) (w : ℤ) (i t : ℕ) (v : ℤ) (r : Reservation)
    → IsCoherent a
    → v ≢ w
    → Holds a i t v r
    → Holds (evict a w) i t v r
unfolding evict
evict-keeps a w i t v r c n h =
    let p = h.playing in
    let apart : i ≢ (holder a w).event_id = rw (← p.event_id) (holder_apart a w v r c n p.found) in
    record {
      listed = lookup-delete_other (holder a w).event_id i a.handles apart ∙ h.listed;
      playing = lookup-IsPlaying _ a v i t r p p.found;
    }

-- A note that plays at a frame from the start of the new note on is found there as before, or it is
-- the one that Allocate returns as displaced.
pub allocate-keeps :
    (a : Allocator) (id : String) (note start end i t : ℕ) (h : NoteHandle)
    → IsCoherent a
    → a.next + 1 < u64_mod
    → i ≤ a.next
    → start ≤ t
    → handle a i t ≡ some h
    → (handle (allocate a id note start end).0 i t ≡ some h)
      ⊎ ((new : NoteHandle) × ((allocate a id note start end).1 ≡ some (new, some h)))
unfolding evict
allocate-keeps a id note start end i t h c small old late e =
    let (v, r, holds, same) = Holds-of_handle a i t h e in
    go v r holds same (allocate-Allocates a id note start end)
  where
    go :
        {out : Allocator × Option (NoteHandle × Option NoteHandle)}
        → (v : ℤ) (r : Reservation) → Holds a i t v r
        → r.handle ≡ h
        → Allocates a id note start end out
        → (handle out.0 i t ≡ some h) ⊎ ((new : NoteHandle) × (out.1 ≡ some (new, some h)))
    go v r holds same (Allocates.unknown z) = inl e
    go v r holds same (Allocates.free d z f) =
        let w = first_free a d start in
        let elsewhere : v ≢ w =
          λ here. free_idle a start i t v r (rw here (first_free-is_free a d start f)) late holds in
        inl (
          handle-Holds _ i t v r
            (reserve-keeps a id note start end w i t v r small old elsewhere holds)
          ∙ ap some same)
    go v r holds same (Allocates.steal d z f) =
        let w = first_oldest a d in
        elim (Bool-cases (eqb_ℤ v w)) [
          | inl here ↦
              let displaced : holder a w ≡ h =
                subst (λ u. holder a u ≡ h) ((eqb_ℤ_iff v w).0 here)
                  (ap (λ (s : Reservation). s.handle) holds.playing.read ∙ same) in
              inr (
                (reserve (evict a w) id note start end w).1,
                ap (λ u. some ((reserve (evict a w) id note start end w).1, some u)) displaced,
              )
          | inr there ↦
              let elsewhere : v ≢ w =
                λ here. absurd (true≢false (sym ((eqb_ℤ_iff v w).1 here) ∙ there)) in
              inl (
                handle-Holds _ i t v r (
                  reserve-keeps (evict a w) id note start end w i t v r small old elsewhere
                    (evict-keeps a w i t v r c elsewhere holds))
                ∙ ap some same)
        ]

-- The note that Allocate returns is found from then on up to its end.
pub allocate-new :
    (a : Allocator) (id : String) (note start end t : ℕ) (new : NoteHandle)
    (old : Option NoteHandle)
    → t < end
    → (allocate a id note start end).1 ≡ some (new, old)
    → handle (allocate a id note start end).0 new.event_id t ≡ some new
allocate-new a id note start end t new old early e = go (allocate-Allocates a id note start end) e
  where
    go :
        {out : Allocator × Option (NoteHandle × Option NoteHandle)}
        → Allocates a id note start end out
        → out.1 ≡ some (new, old)
        → handle out.0 new.event_id t ≡ some new
    go (Allocates.unknown z) f = absurd (ground arith)
    go (Allocates.free d z p) f =
        let w = first_free a d start in
        let same : (reserve a id note start end w).1 ≡ new = cc in
        rw (← same) (reserved a id note start end w t early)
    go (Allocates.steal d z p) f =
        let w = first_oldest a d in
        let same : (reserve (evict a w) id note start end w).1 ≡ new = cc in
        rw (← same) (reserved (evict a w) id note start end w t early)
