-- ===== src/Instruments/Voices/Stale.antt =====
-- What plays after a call of Allocate or Release played before it
-- (internal/instruments/voices.go).
use Prim.Native.String.{String}
use native.Mathlib.Nat.{mod-eq_of_lt}
use mathlib.Core.Bool.{false≢true}
use govertone.Common.{ℕ, ◌+◌, ◌<◌, ◌≤◌, ◌≢◌, sym, ap, ◌∙◌, inl, inr, Option, arith}
use govertone.Common.Int.{ℤ, u64_mod}
use govertone.Common.Maps.{lookup_or, nat_key, int_key, lookup-put_inv, lookup-delete_inv}
use govertone.Instruments.Voices.{
  NoteHandle, Reservation, Allocator, zero_reservation, reserve, evict, allocate, release, ended,
}
use govertone.Instruments.Voices.Cases.{
  Allocates, allocate-Allocates, Releases, release-Releases, first_free, first_oldest, forget,
  finish_at, lookup-IsPlaying,
}
use govertone.Instruments.Voices.Playing.{Holds}

reserve-Holds :
    (a : Allocator) (id : String) (note start end : ℕ) (w : ℤ) (i t : ℕ) (v : ℤ) (r : Reservation)
    → a.next + 1 < u64_mod
    → i ≤ a.next
    → Holds (reserve a id note start end w).0 i t v r
    → Holds a i t v r
unfolding reserve
reserve-Holds a id note start end w i t v r small old h =
    let p = rw (mod-eq_of_lt small) at h.playing in
    let listed = rw (mod-eq_of_lt small) at h.listed in
    elim (lookup-put_inv (a.next + 1) i w v a.handles listed) [
      | inl q ↦ absurd (omega (arith, q.0))
      | inr q ↦ elim (lookup-put_inv w v _ r a.voices p.found) [
        | inl s ↦
            let event_id = p.event_id in
            absurd (omega (arith, ap (λ (u : Reservation). u.handle.event_id) s.1))
        | inr s ↦ record { listed = q.1; playing = lookup-IsPlaying a _ v i t r p s.1 }
      ]
    ]

delete-Holds :
    (a : Allocator) (id i t : ℕ) (v : ℤ) (r : Reservation)
    → Holds (forget a id) i t v r
    → (i ≢ id) × Holds a i t v r
delete-Holds a id i t v r h =
    let (other, listed) = lookup-delete_inv id i v a.handles h.listed in
    let p = h.playing in
    (other, record { listed = listed; playing = lookup-IsPlaying a _ v i t r p p.found })

finish-Holds :
    (a : Allocator) (id : ℕ) (w : ℤ) (at i t : ℕ) (v : ℤ) (r : Reservation)
    → Holds (finish_at a id w at).0 i t v r
    → (i ≢ id) × Holds a i t v r
finish-Holds a id w at i t v r h =
    let (other, listed) = lookup-delete_inv id i v a.handles h.listed in
    let p = h.playing in
    let alive = p.valid in
    let s = ended (lookup_or zero_reservation w a.voices) at in
    elim (lookup-put_inv w v s r a.voices p.found) [
      | inl q ↦ absurd (false≢true (ap (λ (u : Reservation). u.valid) (sym q.1) ∙ alive))
      | inr q ↦ (other, record { listed = listed; playing = lookup-IsPlaying a _ v i t r p q.1 })
    ]

pub release-Holds :
    (a : Allocator) (id at i t : ℕ) (v : ℤ) (r : Reservation)
    → Holds (release a id at).0 i t v r
    → (i ≢ id) × Holds a i t v r
release-Holds a id at i t v r = go (release-Releases a id at)
  where
    go :
        {out : Allocator × Option NoteHandle}
        → Releases a id at out
        → Holds out.0 i t v r
        → (i ≢ id) × Holds a i t v r
    go (Releases.missing e) h = ((λ same. absurd (ground (arith, h.listed))), h)
    go (Releases.over w e f) h = delete-Holds a id i t v r h
    go (Releases.playing w e f) h = finish-Holds a id w at i t v r h

evict-Holds :
    (a : Allocator) (w : ℤ) (i t : ℕ) (v : ℤ) (r : Reservation)
    → Holds (evict a w) i t v r
    → Holds a i t v r
unfolding evict
evict-Holds a w i t v r h = (delete-Holds a _ i t v r h).1

pub allocate-Holds :
    (a : Allocator) (id : String) (note start end i t : ℕ) (v : ℤ) (r : Reservation)
    → a.next + 1 < u64_mod
    → i ≤ a.next
    → Holds (allocate a id note start end).0 i t v r
    → Holds a i t v r
unfolding evict
allocate-Holds a id note start end i t v r small old = go (allocate-Allocates a id note start end)
  where
    go :
        {out : Allocator × Option (NoteHandle × Option NoteHandle)}
        → Allocates a id note start end out
        → Holds out.0 i t v r
        → Holds a i t v r
    go (Allocates.unknown e) h = h
    go (Allocates.free d e f) h =
        reserve-Holds a id note start end (first_free a d start) i t v r small old h
    go (Allocates.steal d e f) h = evict-Holds a (first_oldest a d) i t v r (
        reserve-Holds (evict a (first_oldest a d)) id note start end (first_oldest a d) i t v r
          small old h)
