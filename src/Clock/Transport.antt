-- ===== src/Clock/Transport.antt =====
-- internal/clock/transport.go: the tempo map. `segments` is never empty in the source, and stands
-- here as its first entry and the others. The mutex makes every method one step. Frames are uint64.
pub mod Past
pub mod Select
mod Tests
use govertone.Common.{
  ℕ, ◌+◌, ◌-◌, ◌*◌, ◌%◌, ◌^◌, Bool, true, false, ◌||◌, List, [], ◌∷◌, ◌++◌, leb, if◌then◌else◌,
}
use govertone.Common.Int.{u64_mod, ℤ, pos, negsuc, pos_part, ltb_ℤ}
use govertone.Common.Float.{Float64}
use govertone.Common.Result.{err, ok, panic, ◌>>=◌}
use govertone.Clock.Beat.{
  Beat, Error, Checked, must_beat, sign, cmp, add, sub, invalid_tempo, negative_beat,
  conversion_overflow,
}

abbrev pub sample_rate : ℕ
sample_rate = 44100

-- The conversion of an integer to uint64.
abbrev pub to_u64 : ℤ → ℕ
to_u64 (pos n) = n % u64_mod
to_u64 (negsuc n) = (u64_mod - (n + 1) % u64_mod) % u64_mod

pub record Segment (F : Type 0) : Type 0 where
  pub frame : ℕ
  pub beat : Beat
  pub bpm : F

pub record Transport (F : Type 0) : Type 0 where
  pub first : Segment F
  pub rest : List (Segment F)
  pub running : Bool

module _ {F : Type 0} where
  -- The loops over `segments[1:]`: the last candidate before the first one that fails its test.
  unfoldable pub select : (Segment F → Bool) → Segment F → List (Segment F) → Segment F
  select test s [] = s
  select test s (c ∷ cs) = let later = select test c cs in if test c then later else s

  abbrev pub starts_by : ℕ → Segment F → Bool
  starts_by frame c = leb c.frame frame

  -- `candidate.beat.Cmp(beat) <= 0`
  abbrev pub reached_by : Beat → Segment F → Bool
  reached_by beat c = if ltb_ℤ (pos 0) (cmp c.beat beat) then false else true

  pub last_segment : Segment F → List (Segment F) → Segment F
  last_segment s [] = s
  last_segment s (c ∷ cs) = last_segment c cs

  unfoldable pub tempo : Transport F → F
  unfolding last_segment
  tempo t = (last_segment t.first t.rest).bpm

  unfoldable pub stop : Transport F → Transport F
  stop t = record t { running = false }

module _ (fl : Float64) where
  open fl use {Float, of_int, mul, div, lt, is_nan, is_inf, round, to_int}

  -- `validTempo` returns no error.
  unfoldable pub valid_tempo : Float → Bool
  valid_tempo bpm =
      if is_nan bpm || is_inf bpm || lt bpm (of_int (pos 20)) || lt (of_int (pos 400)) bpm
      then false
      else true

  unfoldable pub new_transport : Float → Checked (Transport Float)
  new_transport bpm =
      if valid_tempo bpm
      then (must_beat (pos 0) (pos 1) >>= λ zero. ok (record {
        first = record { frame = 0; beat = zero; bpm = bpm };
        rest = [];
        running = true;
      }))
      else err invalid_tempo

  -- What the blank of `b, _ := s.beat.Add(...)` makes of an error: `Beat{}`.
  or_zero_beat : Checked Beat → Checked Beat
  or_zero_beat (ok b) = ok b
  or_zero_beat (err e) = ok (record { numerator = pos 0; denominator = 0 })
  or_zero_beat panic = panic

  beat_in : Segment Float → ℕ → Checked Beat
  unfolding or_zero_beat
  beat_in s frame =
      let delta = (frame + u64_mod - s.frame) % u64_mod in
      let micro = to_int (
        round (
          div (mul (mul (of_int (pos delta)) s.bpm) (of_int (pos 1000000)))
            (of_int (pos (60 * sample_rate))))) in
      must_beat micro (pos 1000000) >>= λ m. or_zero_beat (add s.beat m)

  unfoldable pub beat_at : Transport Float → ℕ → Checked Beat
  unfolding beat_in
  beat_at t frame = beat_in (select (starts_by frame) t.first t.rest) frame

  unfoldable pub set_tempo : Transport Float → Float → ℕ → Checked (Transport Float)
  set_tempo t bpm at =
      if valid_tempo bpm
      then (beat_at t at >>= λ b.
          ok (record t { rest = t.rest ++ record { frame = at; beat = b; bpm = bpm } ∷ [] }))
      else err invalid_tempo

  -- `d.Float64()`
  abbrev pub beat_float : Beat → Float
  beat_float d = div (of_int d.numerator) (of_int (pos d.denominator))

  frame_in : Segment Float → Beat → Checked ℕ
  frame_in s beat = sub beat s.beat >>= λ d.
      let frames =
        div (mul (mul (beat_float d) (of_int (pos 60))) (of_int (pos sample_rate))) s.bpm in
      if lt frames (of_int (pos 0)) || lt (of_int (pos (u64_mod - 1 - s.frame))) frames
      then err conversion_overflow
      else ok ((s.frame + to_u64 (to_int (round frames))) % u64_mod)

  unfoldable pub frame_at : Transport Float → Beat → Checked ℕ
  unfolding frame_in
  frame_at t beat =
      if ltb_ℤ (sign beat) (pos 0)
      then err negative_beat
      else frame_in (select (reached_by beat) t.first t.rest) beat
