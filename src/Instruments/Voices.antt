-- ===== src/Instruments/Voices.antt =====
-- internal/instruments/voices.go: the allocator of voices. Its mutex makes every method one step.
-- An error result is `none`. VoiceID is an int; the source's sentinel for "no voice" is -1.
pub mod Cases
pub mod Invariant
pub mod Playing
pub mod Stopping
pub mod Stale
pub mod Releasing
pub mod Choice
pub mod Allocation
pub mod Steps
mod Tests
use Prim.Native.String.{String}
use govertone.Common.{
  ℕ, zero, suc, ◌+◌, ◌-◌, ◌%◌, ◌^◌, ◌==◌, ltb, leb, Bool, true, false, not, ◌&&◌, ◌||◌, Option,
  none, some, List, [], ◌∷◌, length, if◌then◌else◌,
}
use govertone.Common.Int.{ℤ, pos, negsuc, pos_part, ◌+ℤ◌, ltb_ℤ, u64_mod}
use govertone.Common.Maps.{lookup, lookup_or, put, delete, nat_key, int_key, string_key}

pub record Definition : Type 0 where
  pub id : String
  pub first_voice : ℤ
  pub voices : ℤ

pub record NoteHandle : Type 0 where
  pub event_id : ℕ
  pub instrument : String
  pub voice : ℤ
  pub note : ℕ
  pub start_frame : ℕ
  pub end_frame : ℕ
  pub generation : ℕ
  pub epoch : ℕ

pub record Reservation : Type 0 where
  pub handle : NoteHandle
  pub valid : Bool

pub record Allocator : Type 0 where
  pub defs : List (String × Definition)
  pub voices : List (ℤ × Reservation)
  pub handles : List (ℕ × ℤ)
  pub next : ℕ
  pub generation : ℕ
  pub epochs : List (ℤ × ℕ)
  pub high_water : ℕ

abbrev pub zero_handle : NoteHandle
zero_handle = record {
  event_id = 0;
  instrument = "";
  voice = pos 0;
  note = 0;
  start_frame = 0;
  end_frame = 0;
  generation = 0;
  epoch = 0;
}

abbrev pub zero_reservation : Reservation
zero_reservation = record { handle = zero_handle; valid = false }

unfoldable pub new_allocator : List (String × Definition) → Allocator
new_allocator defs = record {
  defs = defs;
  voices = [];
  handles = [];
  next = 0;
  generation = 1;
  epochs = [];
  high_water = 0;
}

-- `!used || !r.valid || r.handle.EndFrame <= start`
abbrev pub is_free : List (ℤ × Reservation) → ℕ → ℤ → Bool
is_free voices start v = elim (lookup v voices) [
  | none ↦ true
  | some r ↦ not r.valid || leb r.handle.end_frame start
]

-- The first loop of Allocate, from round `i` on with `k` rounds left.
unfoldable pub free_voice : List (ℤ × Reservation) → ℤ → ℕ → ℕ → ℕ → ℤ
free_voice voices first start zero i = negsuc 0
free_voice voices first start (suc k) i =
    let v = first +ℤ pos i in
    let rest = free_voice voices first start k (suc i) in if is_free voices start v then v else rest

-- The second loop of Allocate, with the values of `oldest` and `chosen`.
unfoldable pub oldest_voice : List (ℤ × Reservation) → ℤ → ℕ → ℕ → ℕ → ℤ → ℤ
oldest_voice voices first zero i oldest chosen = chosen
oldest_voice voices first (suc k) i oldest chosen =
    let v = first +ℤ pos i in
    let start = (lookup_or zero_reservation v voices).handle.start_frame in
    let newer = oldest_voice voices first k (suc i) oldest chosen in
    let older = oldest_voice voices first k (suc i) start v in
    if ltb start oldest then older else newer

abbrev pub active_count : List (ℤ × Reservation) → ℕ
active_count [] = 0
active_count (e ∷ m) = if e.1.valid then suc (active_count m) else active_count m

-- What Allocate does once the voice is chosen.
unfoldable pub reserve : Allocator → String → ℕ → ℕ → ℕ → ℤ → Allocator × NoteHandle
reserve a id note start end chosen =
    let next = (a.next + 1) % u64_mod in
    let epoch = (lookup_or 0 chosen a.epochs + 1) % u64_mod in
    let h : NoteHandle = record {
      event_id = next;
      instrument = id;
      voice = chosen;
      note = note;
      start_frame = start;
      end_frame = end;
      generation = a.generation;
      epoch = epoch;
    } in
    let voices = put chosen (record { handle = h; valid = true }) a.voices in
    let active = active_count voices in
    (
      record {
        defs = a.defs;
        voices = voices;
        handles = put next chosen a.handles;
        next = next;
        generation = a.generation;
        epochs = put chosen epoch a.epochs;
        high_water = if ltb a.high_water active then active else a.high_water;
      },
      h,
    )

-- The reservation that a new note takes over.
abbrev pub holder : Allocator → ℤ → NoteHandle
holder a v = (lookup_or zero_reservation v a.voices).handle

unfoldable pub evict : Allocator → ℤ → Allocator
evict a chosen = record a { handles = delete (holder a chosen).event_id a.handles }

-- The handle, and the handle that it displaced.
unfoldable pub allocate :
    Allocator → String → ℕ → ℕ → ℕ → Allocator × Option (NoteHandle × Option NoteHandle)
allocate a id note start end = elim (lookup id a.defs) [
  | none ↦ (a, none)
  | some d ↦
      let rounds = pos_part d.voices in
      let free = free_voice a.voices d.first_voice start rounds 0 in
      let oldest = oldest_voice a.voices d.first_voice rounds 0 (u64_mod - 1) (negsuc 0) in
      let fresh = reserve a id note start end free in
      let stealing = reserve (evict a oldest) id note start end oldest in
      if ltb_ℤ free (pos 0)
      then (stealing.0, some (stealing.1, some (holder a oldest)))
      else (fresh.0, some (fresh.1, none))
]

-- `!r.valid || r.handle.EventID != id || r.handle.EndFrame <= at`
abbrev pub is_over : Reservation → ℕ → ℕ → Bool
is_over r id at = not r.valid || not (r.handle.event_id == id) || leb r.handle.end_frame at

abbrev pub ended : Reservation → ℕ → Reservation
ended r at = record { handle = record r.handle { end_frame = at }; valid = false }

unfoldable pub release : Allocator → ℕ → ℕ → Allocator × Option NoteHandle
release a id at = elim (lookup id a.handles) [
  | none ↦ (a, none)
  | some v ↦
      let r = lookup_or zero_reservation v a.voices in
      if is_over r id at then (record a { handles = delete id a.handles }, none) else (
        record a { voices = put v (ended r at) a.voices; handles = delete id a.handles },
        some (ended r at).handle,
      )
]

unfoldable pub handle : Allocator → ℕ → ℕ → Option NoteHandle
handle a id at = elim (lookup id a.handles) [
  | none ↦ none
  | some v ↦
      let r = lookup_or zero_reservation v a.voices in
      if is_over r id at then none else some r.handle
]

unfoldable pub valid : Allocator → ℕ → ℕ → Bool
valid a id at = elim (lookup id a.handles) [
  | none ↦ false
  | some v ↦
      let r = lookup_or zero_reservation v a.voices in
      r.valid && r.handle.event_id == id && ltb at r.handle.end_frame
]

abbrev pub is_playing : Reservation → ℕ → Bool
is_playing r at = r.valid && ltb at r.handle.end_frame

-- The loop of StopAll over the entries of `voices`, which writes to the entry that it visits.
unfoldable pub stop_loop :
    List (ℤ × Reservation)
    → ℕ
    → List (ℕ × ℤ)
    → List (ℤ × Reservation) × List (ℕ × ℤ) × List NoteHandle
stop_loop [] at handles = ([], handles, [])
stop_loop (e ∷ m) at handles =
    let kept = stop_loop m at handles in
    let cleared = stop_loop m at (delete e.1.handle.event_id handles) in
    if is_playing e.1 at
    then ((e.0, ended e.1 at) ∷ cleared.0, cleared.1, (ended e.1 at).handle ∷ cleared.2)
    else (e ∷ kept.0, kept.1, kept.2)

unfoldable pub stop_all : Allocator → ℕ → Allocator × List NoteHandle
stop_all a at =
    let stopped = stop_loop a.voices at a.handles in
    (record a { voices = stopped.0; handles = stopped.1 }, stopped.2)

unfoldable pub reset : Allocator → List (String × Definition) → ℕ → Allocator × ℕ
reset a defs generation = (
  record a { defs = defs; voices = []; handles = []; epochs = []; generation = generation },
  length a.handles,
)
