-- ===== src/Instruments/Voices/Tests.antt =====
-- The allocator on two voices of one instrument (internal/instruments/voices_test.go and more).
use Prim.Native.String.{String}
use govertone.Common.{
  ℕ, zero, suc, ◌-◌, ◌<◌, ◌≤◌, ◌≡◌, refl, ◌⊎◌, true, false, none, some, List, [], ◌∷◌, arith,
}
use govertone.Common.Int.{ℤ, pos, ◌+ℤ◌, u64_mod}
use govertone.Common.Maps.{lookup, lookup_or, put, delete}
use govertone.Instruments.Voices.{
  Definition, NoteHandle, Allocator, new_allocator, free_voice, oldest_voice, reserve, evict,
  allocate, release, handle, valid,
}
use govertone.Instruments.Voices.Choice.{start_at}
use govertone.Instruments.Voices.Invariant.{IsCoherent, new-IsCoherent}
use govertone.Instruments.Voices.Allocation.{Chooses, allocate-Chooses, allocate-keeps}
use govertone.Instruments.Voices.Steps.{
  Step, Steps, Steps-handle, Steps-IsCoherent, release-forever,
}

abbrev defs : List (String × Definition)
defs = ("lead", record { id = "lead"; first_voice = pos 8; voices = pos 2 }) ∷ []

abbrev empty : Allocator
empty = new_allocator defs

abbrev one : Allocator
one = (allocate empty "lead" 60 100 200).0

abbrev two : Allocator
two = (allocate one "lead" 61 110 220).0

abbrev three : Allocator
three = (allocate two "lead" 62 150 300).0

abbrev lead_handle : ℕ → ℤ → ℕ → ℕ → ℕ → ℕ → NoteHandle
lead_handle id voice note start end epoch = record {
  event_id = id;
  instrument = "lead";
  voice = voice;
  note = note;
  start_frame = start;
  end_frame = end;
  generation = 1;
  epoch = epoch;
}

voices_in_order :
    (handle two 1 150 ≡ some (lead_handle 1 (pos 8) 60 100 200 1))
    × (handle two 2 150 ≡ some (lead_handle 2 (pos 9) 61 110 220 1))
unfolding allocate free_voice oldest_voice reserve evict lookup lookup_or put delete ◌+ℤ◌
    new_allocator handle
voices_in_order = (refl, refl)

-- The third note takes over the voice of the first.
steals_oldest :
    ((allocate two "lead" 62 150 300).1
      ≡ some (lead_handle 3 (pos 8) 62 150 300 2, some (lead_handle 1 (pos 8) 60 100 200 1)))
    × (valid three 1 150 ≡ false)
    × (valid three 3 150 ≡ true)
unfolding allocate free_voice oldest_voice reserve evict lookup lookup_or put delete ◌+ℤ◌
    new_allocator valid
steals_oldest = (refl, refl, refl)

-- A voice whose note has ended is taken again.
reuses_ended : (allocate two "lead" 62 200 300).1 ≡ some (lead_handle 3 (pos 8) 62 200 300 2, none)
unfolding allocate free_voice oldest_voice reserve evict lookup lookup_or put delete ◌+ℤ◌
    new_allocator
reuses_ended = refl

empty-Step : Step empty one
unfolding new_allocator
empty-Step = Step.allocating "lead" 60 100 200 (omega arith)

one-next : one.next ≡ 1
unfolding allocate free_voice reserve lookup lookup_or ◌+ℤ◌ new_allocator put
one-next = refl

two-next : two.next ≡ 2
unfolding allocate free_voice oldest_voice reserve evict lookup lookup_or put ◌+ℤ◌ new_allocator
two-next = refl

one-Step : Step one two
one-Step = Step.allocating "lead" 61 110 220 (omega (arith, one-next))

two-Step : Step two three
two-Step = Step.allocating "lead" 62 150 300 (omega (arith, two-next))

two-IsCoherent : IsCoherent two
two-IsCoherent =
    Steps-IsCoherent empty two (Steps.next empty-Step (Steps.next one-Step Steps.done))
      (new-IsCoherent defs)

Steps-handle_example : handle two 2 150 ≡ some (lead_handle 2 (pos 9) 61 110 220 1)
unfolding allocate free_voice oldest_voice reserve evict lookup lookup_or put delete ◌+ℤ◌
    new_allocator handle
Steps-handle_example =
    Steps-handle two three 2 150 (lead_handle 2 (pos 9) 61 110 220 1)
      (Steps.next two-Step Steps.done) (omega (arith, two-next)) refl

release-forever_example : handle (release two 2 150).0 2 200 ≡ none
release-forever_example =
    release-forever two (release two 2 150).0 2 150 200 Steps.done (omega (arith, two-next))

allocate-keeps_example :
    (handle three 1 150 ≡ some (lead_handle 1 (pos 8) 60 100 200 1))
    ⊎ ((new : NoteHandle) × ((allocate two "lead" 62 150 300).1
          ≡ some (new, some (lead_handle 1 (pos 8) 60 100 200 1))))
allocate-keeps_example =
    allocate-keeps two "lead" 62 150 300 1 150 (lead_handle 1 (pos 8) 60 100 200 1) two-IsCoherent
      (omega (arith, two-next)) (omega (arith, two-next)) (omega arith) voices_in_order.0

allocate-Chooses_example :
    Chooses two "lead" 62 150 300 (record { id = "lead"; first_voice = pos 8; voices = pos 2 })
unfolding allocate free_voice oldest_voice reserve evict lookup lookup_or put delete ◌+ℤ◌
    new_allocator
allocate-Chooses_example =
    allocate-Chooses two "lead" 62 150 300
      (record { id = "lead"; first_voice = pos 8; voices = pos 2 }) refl (omega arith) (omega arith)
      early
  where
    early : (l : ℕ) → 0 ≤ l → l < 2 → start_at two.voices (pos 8) l < u64_mod - 1
    early zero p q = omega arith
    early (suc zero) p q = omega arith
    early (suc (suc l)) p q = absurd (omega arith)
