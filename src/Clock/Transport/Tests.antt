-- ===== src/Clock/Transport/Tests.antt =====
-- Runs of the tempo map over whole numbers.
use govertone.Common.{ℕ, ◌≡◌, refl, true, [], ◌∷◌, arith}
use govertone.Common.Int.{ℤ, pos, scale, quot, ◌+ℤ◌}
use govertone.Common.Float.{whole}
use govertone.Common.Result.{err, ok}
use govertone.Clock.Beat.{
  Beat, new_beat, must_beat, divide, gcd, rat, add, sub, sign, cmp, invalid_tempo, negate_int64,
}
use govertone.Clock.Transport.{
  Segment, Transport, new_transport, set_tempo, select, beat_at, frame_at, valid_tempo,
  last_segment,
}
use govertone.Clock.Transport.Past.{frame_at-set_tempo}
use govertone.Clock.Transport.Select.{IsTempoMap, set_tempo-IsTempoMap}

abbrev beat : ℕ → Beat
beat n = record { numerator = pos n; denominator = 1 }

abbrev start : Transport ℤ
start = record {
  first = record { frame = 0; beat = beat 0; bpm = pos 60 };
  rest = [];
  running = true;
}

abbrev faster : Segment ℤ
faster = record { frame = 88200; beat = beat 2; bpm = pos 120 }

abbrev changed : Transport ℤ
changed = record start { rest = faster ∷ [] }

new_transport-start : new_transport whole (pos 60) ≡ ok start
unfolding new_transport valid_tempo must_beat new_beat divide gcd quot
new_transport-start = refl

set_tempo-changed : set_tempo whole start (pos 120) 88200 ≡ ok changed
unfolding set_tempo valid_tempo beat_at select must_beat new_beat divide gcd quot add rat scale ◌+ℤ◌
set_tempo-changed = refl

set_tempo-bounds : set_tempo whole start (pos 401) 88200 ≡ err invalid_tempo
unfolding set_tempo valid_tempo
set_tempo-bounds = refl

frame_after_change : frame_at whole changed (beat 4) ≡ ok 132300
unfolding frame_at sign select cmp sub must_beat negate_int64 new_beat divide gcd quot add rat scale
    ◌+ℤ◌
frame_after_change = refl

start-IsTempoMap : IsTempoMap whole start
unfolding valid_tempo
start-IsTempoMap = record { origin = refl; ascending = tt; tempo = refl; tempos = tt }

frame_at-set_tempo_example : frame_at whole changed (beat 1) ≡ frame_at whole start (beat 1)
unfolding beat_at select must_beat new_beat divide gcd quot add rat scale ◌+ℤ◌ cmp
frame_at-set_tempo_example =
    frame_at-set_tempo whole start changed (pos 120) 88200 (beat 2) (beat 1) set_tempo-changed refl
      (omega arith)

set_tempo-IsTempoMap_example : IsTempoMap whole changed
unfolding last_segment
set_tempo-IsTempoMap_example =
    set_tempo-IsTempoMap whole start changed (pos 120) 88200 start-IsTempoMap (omega arith)
      set_tempo-changed
