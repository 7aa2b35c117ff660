-- ===== src/Clock/Transport/Past.antt =====
-- A change of tempo leaves the past as it was (internal/clock/transport.go).
use govertone.Common.{
  ℕ, ◌<◌, ◌≡◌, inl, inr, Bool-cases, Bool, true, false, List, [], ◌∷◌, ◌++◌, arith,
}
use govertone.Common.Int.{pos, ◌<ℤ◌}
use govertone.Common.Float.{Float64}
use govertone.Common.Result.{bind_inv, ok}
use govertone.Clock.Beat.{Beat, cmp}
use govertone.Clock.Transport.{
  Segment, Transport, select, starts_by, reached_by, valid_tempo, beat_at, set_tempo, frame_at,
}

-- A last candidate that fails its test is never selected.
select-append :
    {F : Type 0} (test : Segment F → Bool) (s c : Segment F) (cs : List (Segment F))
    → test c ≡ false
    → select test s (cs ++ c ∷ []) ≡ select test s cs
unfolding select
select-append test s c [] h = rw h
select-append test s c (d ∷ cs) h = rw (select-append test d c cs h)

module _ (fl : Float64) where
  open fl use {Float}

  -- The segment that SetTempo appends.
  pub set_tempo_inv :
      (t u : Transport Float) (bpm : Float) (at : ℕ)
      → set_tempo fl t bpm at ≡ ok u
      → (b : Beat) × (beat_at fl t at ≡ ok b)
        × (valid_tempo fl bpm ≡ true)
        × (u ≡ record t { rest = t.rest ++ record { frame = at; beat = b; bpm = bpm } ∷ [] })
  unfolding set_tempo
  set_tempo_inv t u bpm at e = elim (Bool-cases (valid_tempo fl bpm)) [
    | inr bad ↦ absurd (ground arith)
    | inl good ↦
        let (b, same, at_beat) = bind_inv (beat_at fl t at) _ _ (rw good at e) in
        (b, at_beat, good, ground arith)
  ]

  -- A SetTempo that succeeds changes the beat of no frame before its own.
  pub beat_at-set_tempo :
      (t u : Transport Float) (bpm : Float) (at frame : ℕ)
      → set_tempo fl t bpm at ≡ ok u
      → frame < at
      → beat_at fl u frame ≡ beat_at fl t frame
  unfolding beat_at
  beat_at-set_tempo t u bpm at frame e h =
      let (b, at_beat, valid, same) = set_tempo_inv t u bpm at e in
      rw (
        same,
        select-append (starts_by frame) t.first (record { frame = at; beat = b; bpm = bpm }) t.rest
            (ground arith),
      )

  -- A SetTempo that succeeds changes the frame of no beat before the beat of its own frame, so that
  -- what is scheduled stays.
  pub frame_at-set_tempo :
      (t u : Transport Float) (bpm : Float) (at : ℕ) (b beat : Beat)
      → set_tempo fl t bpm at ≡ ok u
      → beat_at fl t at ≡ ok b
      → pos 0 <ℤ cmp b beat
      → frame_at fl u beat ≡ frame_at fl t beat
  unfolding frame_at
  frame_at-set_tempo t u bpm at b beat e f h =
      let (c, at_beat, valid, same) = set_tempo_inv t u bpm at e in
      let here : b ≡ c = cc in
      let s : Segment Float = record { frame = at; beat = c; bpm = bpm } in
      let skipped : reached_by beat s ≡ false = ground arith in
      rw (same, select-append (reached_by beat) t.first s t.rest skipped)
