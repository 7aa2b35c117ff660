-- ===== src/Instruments/Voices/Choice.antt =====
-- Which voice Allocate chooses (internal/instruments/voices.go).
use govertone.Common.{
  ℕ, zero, suc, ◌+◌, ◌<◌, ◌≤◌, ◌≡◌, refl, subst, ◌⊎◌, inl, inr, Bool, true, false, List, arith,
  Bool-cases, ltb,
}
use native.Mathlib.Decide.{ℕ_discrete}
use govertone.Common.Int.{ℤ, pos, negsuc, ◌+ℤ◌}
use govertone.Common.Maps.{lookup_or, int_key}
use govertone.Instruments.Voices.{Reservation, zero_reservation, free_voice, oldest_voice, is_free}

-- Every round from `lo` up to `hi` has the property.
abbrev pub Between : ℕ → ℕ → (ℕ → Type 0) → Type 0
Between lo hi P = (l : ℕ) → lo ≤ l → l < hi → P l

Between-suc : (lo hi : ℕ) (P : ℕ → Type 0) → P lo → Between (suc lo) hi P → Between lo hi P
Between-suc lo hi P here above l p q = elim (ℕ_discrete lo l) [
  | yes e ↦ subst P e here
  | no h ↦ above l (omega arith) q
]

module _ (voices : List (ℤ × Reservation)) (first : ℤ) where
  abbrev pub free_at : ℕ → ℕ → Bool
  free_at start j = is_free voices start (first +ℤ pos j)

  -- The round `j` is the first of those from `lo` up to `hi` whose voice is free.
  pub record IsFirstFree (start lo hi j : ℕ) : Type 0 where
    pub above : lo ≤ j
    pub below : j < hi
    pub free : free_at start j ≡ true
    pub lowest : Between lo j (λ l. free_at start l ≡ false)

  -- The first loop of Allocate finds the lowest free voice, or there is none.
  pub free_voice-first :
      (start k i : ℕ)
      → (Between i (i + k) (λ l. free_at start l ≡ false)
          × (free_voice voices first start k i ≡ negsuc 0))
        ⊎ ((j : ℕ) × IsFirstFree start i (i + k) j
            × (free_voice voices first start k i ≡ first +ℤ pos j))
  unfolding free_voice
  free_voice-first start zero i = inl ((λ l p q. absurd (omega arith)), refl)
  free_voice-first start (suc k) i = elim (Bool-cases (free_at start i)) [
    | inl free ↦ inr (
      i,
      record {
        above = omega arith;
        below = omega arith;
        free = free;
        lowest = λ l p q. absurd (omega arith);
      },
      rw free refl,
    )
    | inr taken ↦ elim (free_voice-first start k (suc i)) [
      | inl p ↦ inl (
        (λ l q r.
            Between-suc i (suc i + k) (λ l. free_at start l ≡ false) taken p.0 l q (omega arith)),
        rw taken p.1,
      )
      | inr (j, h, e) ↦
          let above = h.above in
          let below = h.below in
          inr (
            j,
            record {
              above = omega arith;
              below = omega arith;
              free = h.free;
              lowest = Between-suc i j (λ l. free_at start l ≡ false) taken h.lowest;
            },
            rw taken e,
          )
    ]
  ]

  abbrev pub start_at : ℕ → ℕ
  start_at j = (lookup_or zero_reservation (first +ℤ pos j) voices).handle.start_frame

  -- Among the rounds from `lo` up to `hi` the voice of `j` has the earliest start, and the lowest
  -- number among those.
  pub record IsFirstOldest (lo hi j : ℕ) : Type 0 where
    pub above : lo ≤ j
    pub below : j < hi
    pub oldest : Between lo hi (λ l. start_at j ≤ start_at l)
    pub lowest : Between lo j (λ l. start_at j < start_at l)

  further :
      (lo hi j : ℕ) → IsFirstOldest (suc lo) hi j → start_at j < start_at lo → IsFirstOldest lo hi j
  further lo hi j h older =
      let above = h.above in
      record {
        above = omega arith;
        below = h.below;
        oldest = Between-suc lo hi (λ l. start_at j ≤ start_at l) (omega arith) h.oldest;
        lowest = Between-suc lo j (λ l. start_at j < start_at l) older h.lowest;
      }

  reach : (i k j : ℕ) → IsFirstOldest i (suc i + k) j → IsFirstOldest i (i + suc k) j
  reach i k j h =
      let below = h.below in
      record {
        above = h.above;
        below = omega arith;
        oldest = λ l p q. h.oldest l p (omega arith);
        lowest = h.lowest;
      }

  -- The second loop keeps what it has, or finds the oldest reservation among the voices.
  pub oldest_voice-first :
      (k i oldest : ℕ) (chosen : ℤ)
      → (Between i (i + k) (λ l. oldest ≤ start_at l)
          × (oldest_voice voices first k i oldest chosen ≡ chosen))
        ⊎ ((j : ℕ) × IsFirstOldest i (i + k) j
            × (start_at j < oldest)
            × (oldest_voice voices first k i oldest chosen ≡ first +ℤ pos j))
  unfolding oldest_voice
  oldest_voice-first zero i oldest chosen = inl ((λ l p q. absurd (omega arith)), refl)
  oldest_voice-first (suc k) i oldest chosen = elim (Bool-cases (ltb (start_at i) oldest)) [
    | inl older ↦ elim (oldest_voice-first k (suc i) (start_at i) (first +ℤ pos i)) [
      | inl p ↦ inr (
        i,
        record {
          above = omega arith;
          below = omega arith;
          oldest = λ l q r.
              Between-suc i (suc i + k) (λ l. start_at i ≤ start_at l) (omega arith) p.0 l q
                (omega arith);
          lowest = λ l q r. absurd (omega arith);
        },
        ground arith,
        rw older p.1,
      )
      | inr (j, h, lower, e) ↦
          inr (j, reach i k j (further i (suc i + k) j h lower), ground arith, rw older e)
    ]
    | inr newer ↦ elim (oldest_voice-first k (suc i) oldest chosen) [
      | inl p ↦ inl (
        (λ l q r.
            Between-suc i (suc i + k) (λ l. oldest ≤ start_at l) (ground arith) p.0 l q
              (omega arith)),
        rw newer p.1,
      )
      | inr (j, h, lower, e) ↦
          inr (j, reach i k j (further i (suc i + k) j h (ground arith)), lower, rw newer e)
    ]
  ]
