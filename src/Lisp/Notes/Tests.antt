-- ===== src/Lisp/Notes/Tests.antt =====
-- A note that is played and released, with whole numbers in place of float64.
use govertone.Common.{ℕ, ◌≡◌, refl, true, none, some, [], ◌∷◌, length, arith}
use govertone.Common.Float.{whole}
use govertone.Common.Int.{ℤ, pos, ◌+ℤ◌, scale, quot}
use govertone.Common.Maps.{lookup, lookup_or, put}
use govertone.Common.Result.{ok, err}
use govertone.Clock.Beat.{
  Beat, must_beat, new_beat, divide, gcd, negate_int64, rat, add, sub, sign, cmp,
}
use govertone.Clock.Transport.{Transport, select, beat_at, frame_at}
use govertone.Instruments.Voices.{
  Definition, NoteHandle, Allocator, new_allocator, allocate, free_voice, reserve,
}
use govertone.Instruments.Voices.Stopping.{playing_notes}
use govertone.Instruments.Voices
use govertone.Heap
use govertone.Scheduler.{new}
use govertone.Scheduler.Queue.{new-IsValid}
use govertone.Lisp.Notes.{
  NoteState, PlayOptions, Plan, plan, note_params, end_of, play_note, release_note, stop_all_notes,
  queue_full,
}
use govertone.Lisp.Notes.Queue.{HasRoom}
use govertone.Lisp.Notes.Release.{release_note_lem}
use govertone.Lisp.Notes.Stop.{stop_all_notes_lem}
use govertone.Lisp.Notes.Play.{play_note-full}

abbrev lead : Definition
lead = record { id = "lead"; first_voice = pos 8; voices = pos 2 }

abbrev allocator : Allocator
allocator = new_allocator (("lead", lead) ∷ [])

abbrev beats : ℕ → Beat
beats n = record { numerator = pos n; denominator = 1 }

abbrev transport : Transport ℤ
transport = record {
  first = record { frame = 0; beat = beats 0; bpm = pos 60 };
  rest = [];
  running = true;
}

abbrev state : ℕ → NoteState ℤ
state capacity = record {
  frame = 50;
  transport = transport;
  queue = new (pos 0) capacity;
  allocator = allocator;
  instruments = lead ∷ [];
  controls = [];
  at_beat = none;
}

abbrev options : PlayOptions ℤ
options = record { at = some (beats 1); dur = some (beats 1); params = none }

abbrev planned : Plan whole
planned = record { start_frame = 44100; end_frame = some 88200; params = [] }

plan-planned : (capacity : ℕ) → plan whole (state capacity) "lead" options ≡ ok planned
unfolding plan note_params end_of beat_at frame_at sign select cmp sub must_beat negate_int64
    new_beat divide gcd quot add rat scale ◌+ℤ◌
plan-planned capacity = refl

abbrev given : NoteHandle
given = record {
  event_id = 1;
  instrument = "lead";
  voice = pos 8;
  note = 60;
  start_frame = 44100;
  end_frame = 88200;
  generation = 1;
  epoch = 1;
}

allocate-given : (allocate allocator "lead" 60 44100 88200).1 ≡ some (given, none)
unfolding allocate free_voice reserve lookup lookup_or put ◌+ℤ◌ new_allocator
allocate-given = refl

ℤ_set : IsSet ℤ
ℤ_set = hlevel

room : HasRoom whole (state 2).queue 2
unfolding new Heap.init
room = record {
  valid = new-IsValid (pos 0) 2;
  room = omega arith;
  ids = omega arith;
  sequences = omega arith;
}

play_note-full_example : (play_note whole (state 0) "lead" 60 options).1 ≡ err queue_full
unfolding new
play_note-full_example =
    (play_note-full whole (state 0) "lead" 60 options planned given (plan-planned 0) allocate-given
      (omega arith)).0

-- The note after its start.
abbrev playing : NoteState ℤ
playing = record (state 2) {
  frame = 50000;
  allocator = (allocate allocator "lead" 60 44100 88200).0;
}

playing-given : Voices.handle playing.allocator 1 50000 ≡ some given
unfolding allocate free_voice reserve lookup lookup_or put ◌+ℤ◌ new_allocator Voices.handle
playing-given = refl

playing-one : length (playing_notes playing.allocator.voices 50000) ≡ 1
unfolding allocate free_voice reserve lookup lookup_or put ◌+ℤ◌ new_allocator playing_notes
playing-one = refl

one_more : HasRoom whole (state 2).queue 1
unfolding new Heap.init
one_more = record {
  valid = new-IsValid (pos 0) 2;
  room = omega arith;
  ids = omega arith;
  sequences = omega arith;
}

release_note_lem_example : (release_note whole playing 1).1 ≡ ok true
release_note_lem_example = (release_note_lem whole ℤ_set playing 1 given playing-given one_more).0

stop_all_notes_lem_example :
    (stop_all_notes whole playing).1 ≡ ok (length (playing_notes playing.allocator.voices 50000))
stop_all_notes_lem_example = (stop_all_notes_lem whole ℤ_set playing (rw playing-one one_more)).0
