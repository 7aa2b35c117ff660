-- ===== src/Clock/Transport/Select.antt =====
-- Which segment of the tempo map holds at a frame, and what SetTempo keeps of the map
-- (internal/clock/transport.go).
use govertone.Common.{
  ◌⊎◌, ℕ, ◌≤◌, ◌<◌, ◌≡◌, refl, sym, subst, inl, inr, Bool-cases, true, false, List, [], ◌∷◌, ◌++◌,
  leb, arith,
}
use govertone.Common.Float.{Float64}
use govertone.Common.Result.{ok}
use govertone.Clock.Transport.{
  Segment, Transport, select, starts_by, valid_tempo, set_tempo, last_segment,
}
use govertone.Clock.Transport.Past.{set_tempo_inv}

module _ {F : Type 0} where
  -- Each segment starts no earlier than the one before it.
  abbrev pub Ascending : Segment F → List (Segment F) → Type 0
  Ascending s [] = Unit {0}
  Ascending s (c ∷ cs) = (s.frame ≤ c.frame) × Ascending c cs

  -- Every segment of the list starts by the frame `m`, if it starts by `frame`.
  abbrev pub LatestBy : ℕ → ℕ → List (Segment F) → Type 0
  LatestBy frame m [] = Unit {0}
  LatestBy frame m (c ∷ cs) = ((frame < c.frame) ⊎ (c.frame ≤ m)) × LatestBy frame m cs

  later :
      (frame m : ℕ) (c : Segment F) (cs : List (Segment F))
      → frame < c.frame
      → Ascending c cs
      → LatestBy frame m cs
  later frame m c [] h a = tt
  later frame m c (d ∷ cs) h a = (inl (omega arith), later frame m d cs (omega arith) a.1)

  select-nil : (frame : ℕ) (s : Segment F) → select (starts_by frame) s [] ≡ s
  unfolding select
  select-nil frame s = refl

  select-in :
      (frame : ℕ) (s c : Segment F) (cs : List (Segment F))
      → starts_by frame c ≡ true
      → select (starts_by frame) s (c ∷ cs) ≡ select (starts_by frame) c cs
  unfolding select
  select-in frame s c cs e = ground arith

  select-out :
      (frame : ℕ) (s c : Segment F) (cs : List (Segment F))
      → starts_by frame c ≡ false
      → select (starts_by frame) s (c ∷ cs) ≡ s
  unfolding select
  select-out frame s c cs e = ground arith

  -- The segment `c` holds at the frame among `s` and the segments after it.
  abbrev pub Holds : ℕ → Segment F → List (Segment F) → Segment F → Type 0
  Holds frame s cs c = (s.frame ≤ c.frame) × (c.frame ≤ frame) × LatestBy frame c.frame cs

  -- In a map whose segments ascend, the loop of beatAtLocked picks the segment that holds at the
  -- frame: it starts by the frame, and no other segment that does starts later.
  pub select-LatestBy :
      (frame : ℕ) (s : Segment F) (cs : List (Segment F))
      → s.frame ≤ frame
      → Ascending s cs
      → Holds frame s cs (select (starts_by frame) s cs)
  select-LatestBy frame s [] h a = rw select-nil (omega arith, h, tt)
  select-LatestBy frame s (c ∷ cs) h a = elim (Bool-cases (leb c.frame frame)) [
    | inl in_time ↦
        let (x, y, z) = select-LatestBy frame c cs (ground arith) a.1 in
        subst (Holds frame s (c ∷ cs)) (sym (select-in frame s c cs in_time))
          (omega (arith, x, a.0), y, (inr x, z))
    | inr late ↦
        let after : frame < c.frame = ground arith in
        subst (Holds frame s (c ∷ cs)) (sym (select-out frame s c cs late))
          (omega arith, h, (inl after, later frame s.frame c cs after a.1))
  ]

module _ (fl : Float64) where
  open fl use {Float}

  abbrev AllValid : List (Segment Float) → Type 0
  AllValid [] = Unit {0}
  AllValid (c ∷ cs) = (valid_tempo fl c.bpm ≡ true) × AllValid cs

  -- The segments ascend from frame 0, and every tempo is within the bounds.
  pub record IsTempoMap (t : Transport Float) : Type 0 where
    pub origin : t.first.frame ≡ 0
    pub ascending : Ascending t.first t.rest
    pub tempo : valid_tempo fl t.first.bpm ≡ true
    pub tempos : AllValid t.rest

  append-Ascending :
      (s c : Segment Float) (cs : List (Segment Float))
      → (last_segment s cs).frame ≤ c.frame
      → Ascending s cs
      → Ascending s (cs ++ c ∷ [])
  unfolding last_segment
  append-Ascending s c [] h a = (h, tt)
  append-Ascending s c (d ∷ cs) h a = (a.0, append-Ascending d c cs h a.1)

  append-AllValid :
      (c : Segment Float) (cs : List (Segment Float))
      → valid_tempo fl c.bpm ≡ true
      → AllValid cs
      → AllValid (cs ++ c ∷ [])
  append-AllValid c [] h a = (h, tt)
  append-AllValid c (d ∷ cs) h a = (a.0, append-AllValid c cs h a.1)

  -- SetTempo at a frame no earlier than the last change keeps the map in order and the tempos
  -- within the bounds.
  pub set_tempo-IsTempoMap :
      (t u : Transport Float) (bpm : Float) (at : ℕ)
      → IsTempoMap t
      → (last_segment t.first t.rest).frame ≤ at
      → set_tempo fl t bpm at ≡ ok u
      → IsTempoMap u
  set_tempo-IsTempoMap t u bpm at v h e =
      let (b, at_beat, valid, same) = set_tempo_inv fl t u bpm at e in
      let s : Segment Float = record { frame = at; beat = b; bpm = bpm } in
      rw same (record {
        origin = v.origin;
        ascending = append-Ascending t.first s t.rest h v.ascending;
        tempo = v.tempo;
        tempos = append-AllValid s t.rest valid v.tempos;
      })
