-- ===== src/Instruments/Voices/Releasing.antt =====
-- Release (internal/instruments/voices.go): what it returns, and which notes it leaves.
use govertone.Common.{
  ℕ, ◌≡◌, ◌≢◌, refl, sym, ap, ◌∙◌, inl, inr, Option, none, some, arith, Option-cases,
}
use govertone.Common.Int.{ℤ}
use govertone.Common.Maps.{
  lookup, lookup_or, lookup-put_other, lookup-delete_other, delete, nat_key, int_key,
}
use govertone.Instruments.Voices.{
  NoteHandle, Reservation, Allocator, zero_reservation, release, handle, ended,
}
use govertone.Instruments.Voices.Cases.{
  IsPlaying, Releases, release-Releases, forget, is_over-IsPlaying, lookup-IsPlaying,
}
use govertone.Instruments.Voices.Playing.{Holds, handle-Holds, Holds-of_handle}
use govertone.Instruments.Voices.Stale.{release-Holds}

-- Handles that hold together are found together.
handle_iff :
    (a b : Allocator) (id t : ℕ)
    → ((v : ℤ) (r : Reservation) → Holds a id t v r → Holds b id t v r)
    → ((v : ℤ) (r : Reservation) → Holds b id t v r → Holds a id t v r)
    → handle b id t ≡ handle a id t
handle_iff a b id t f g = elim (Option-cases (handle a id t)) [
  | inr (h, e) ↦
      let (v, r, holds, same) = Holds-of_handle a id t h e in
      handle-Holds b id t v r (f v r holds) ∙ ap some same ∙ sym e
  | inl z ↦ elim (Option-cases (handle b id t)) [
    | inl y ↦ y ∙ sym z
    | inr (h, e) ↦
        let (v, r, holds, same) = Holds-of_handle b id t h e in
        absurd (ground (arith, handle-Holds a id t v r (g v r holds)))
  ]
]

keeps-Holds :
    (a : Allocator) (id at i t : ℕ) (v : ℤ) (r : Reservation)
    → i ≢ id
    → Holds a i t v r
    → Holds (release a id at).0 i t v r
keeps-Holds a id at i t v r other h = go (release-Releases a id at)
  where
    p : IsPlaying a v i t r
    p = h.playing

    listed : lookup i (delete id a.handles) ≡ some v
    listed = lookup-delete_other id i a.handles other ∙ h.listed

    go : {out : Allocator × Option NoteHandle} → Releases a id at out → Holds out.0 i t v r
    go (Releases.missing e) = h
    go (Releases.over w e f) = record {
      listed = listed;
      playing = lookup-IsPlaying (forget a id) a v i t r p p.found;
    }
    go (Releases.playing w e f) =
        let (s, q) = is_over-IsPlaying a w id at f in
        let elsewhere : v ≢ w = λ same.
          let found_r : lookup w a.voices ≡ some r = rw (← same) p.found in
          let found_s = q.found in
          let same_id : r.handle.event_id ≡ s.handle.event_id = cc in
          other (sym p.event_id ∙ same_id ∙ q.event_id) in
        let after =
          lookup-put_other w v (ended (lookup_or zero_reservation w a.voices) at) a.voices
            elsewhere in
        record { listed = listed; playing = lookup-IsPlaying _ a v i t r p (after ∙ p.found) }

pub release_self : (a : Allocator) (id at t : ℕ) → handle (release a id at).0 id t ≡ none
release_self a id at t = elim (Option-cases (handle (release a id at).0 id t)) [
  | inl z ↦ z
  | inr (h, e) ↦
      let (v, r, holds, same) = Holds-of_handle (release a id at).0 id t h e in
      absurd ((release-Holds a id at id t v r holds).0 refl)
]

abbrev pub cut : ℕ → Option NoteHandle → Option NoteHandle
cut at none = none
cut at (some h) = some (record h { end_frame = at })

pub returned : (a : Allocator) (id at : ℕ) → (release a id at).1 ≡ cut at (handle a id at)
unfolding release handle
returned a id at = ground arith

-- Release returns the handle that Handle finds at the frame, cut off there, or nothing; after it that
-- handle is found at no frame, and any other one is found as before.
pub release_lem :
    (a : Allocator) (id at other t : ℕ)
    → other ≢ id
    → ((release a id at).1 ≡ cut at (handle a id at))
      × (handle (release a id at).0 id t ≡ none)
      × (handle (release a id at).0 other t ≡ handle a other t)
release_lem a id at other t apart = (
  returned a id at,
  release_self a id at t,
  handle_iff a (release a id at).0 other t (λ v r. keeps-Holds a id at other t v r apart)
      (λ v r h. (release-Holds a id at other t v r h).1),
)
