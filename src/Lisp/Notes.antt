-- ===== src/Lisp/Notes.antt =====
-- internal/lisp/runtime.go: play, release and stop-all. The arguments are converted from Lisp values;
-- a conversion that fails changes nothing. `MaxUint64` is the end of a note without one.
pub mod Queue
pub mod Release
pub mod Play
pub mod Stop
mod Tests
use Prim.Native.String.{String}
use govertone.Common.{
  ℕ, ◌+◌, ◌-◌, ◌<◌, ltb, Bool, true, false, not, ◌&&◌, ◌||◌, Option, none, some, List, [], ◌∷◌,
  ◌++◌, map, length, if◌then◌else◌,
}
use govertone.Common.Float.{Float64}
use govertone.Common.Int.{ℤ, pos, ◌-ℤ◌, ltb_ℤ, u64_mod}
use govertone.Common.Maps.{lookup, lookup_or, put, string_key}
use govertone.Common.Result.{Result, ok, err, panic, ◌>>=◌}
use govertone.Common.Text.{str_eq}
use govertone.Clock.Beat.{Beat, Error, sign}
use govertone.Clock.Beat
use govertone.Clock.Transport.{Transport, beat_at, frame_at}
use govertone.Instruments.Voices.{Allocator, Definition, NoteHandle, allocate}
use govertone.Instruments.Voices
use govertone.Scheduler.{Scheduler, Event, EventKind, zero_event, trigger, release, set_control}
use govertone.Scheduler
use govertone.Patch.Model.{SynthParameter}
use govertone.Patch.Compiler.Operands.{sort_names}

-- Of Runtime, what the functions on notes use.
pub record NoteState (F : Type 0) : Type 0 where
  pub frame : ℕ
  pub transport : Transport F
  pub queue : Scheduler F
  pub allocator : Allocator
  pub instruments : List Definition
  -- the controls that each instrument declares
  pub controls : List (String × List (String × SynthParameter F))
  pub at_beat : Option Beat

pub record PlayOptions (F : Type 0) : Type 0 where
  pub at : Option Beat
  pub dur : Option Beat
  pub params : Option (List (String × F))

pub data PlayError : Type 0 where
  beat : Error → PlayError
  bad_duration unknown_instrument unknown_control scope_mismatch invalid_value out_of_range :
      PlayError
  negative_beat no_instrument queue_full : PlayError

-- What a call does: the state it leaves, and its result.
abbrev pub NoteOutcome : Type 0 → Type 0 → Type 0
NoteOutcome F A = NoteState F × Result PlayError A

abbrev pub beat_or_error {ℓ} : {A : Type ℓ} → Result Error A → Result PlayError A
beat_or_error panic = panic
beat_or_error (err why) = err (beat why)
beat_or_error (ok x) = ok x

abbrev pub max_uint64 : ℕ
max_uint64 = u64_mod - 1

-- The loop of noteEvent over the instruments.
unfoldable pub voice_offset : List Definition → NoteHandle → ℤ
voice_offset [] h = h.voice
voice_offset (d ∷ ds) h =
    let rest = voice_offset ds h in
    if str_eq d.id h.instrument then h.voice -ℤ d.first_voice else rest

module _ (fl : Float64) where
  open fl use {Float, of_int, lt, is_nan, is_inf}

  abbrev pub zero : Float
  zero = of_int (pos 0)

  unfoldable pub note_event : List Definition → ℕ → EventKind → NoteHandle → Event Float
  note_event instruments frame kind h = record (zero_event zero) {
    frame = frame;
    kind = kind;
    instrument = h.instrument;
    voice = h.voice;
    voice_offset = voice_offset instruments h;
    generation = h.generation;
    note = h.note;
    handle_id = h.event_id;
  }

  -- The loop over the entries of :params.
  unfoldable pub check_params :
      List (String × SynthParameter Float)
      → List (String × Float)
      → List (String × Float)
      → Result PlayError (List (String × Float))
  check_params declared [] checked = ok checked
  check_params declared (entry ∷ entries) checked =
      let rest = check_params declared entries (put entry.0 entry.1 checked) in
      elim (lookup entry.0 declared) [
        | none ↦ err unknown_control
        | some d ↦
            if not (str_eq d.scope "voice")
            then err scope_mismatch
            else if is_nan entry.1 || is_inf entry.1
            then err invalid_value
            else if lt entry.1 d.minimum || lt d.maximum entry.1
            then err out_of_range
            else rest
      ]

  unfoldable pub note_params :
      NoteState Float
      → String
      → Option (List (String × Float))
      → Result PlayError (List (String × Float))
  note_params s id none = ok []
  note_params s id (some entries) = elim (lookup id s.controls) [
    | none ↦ err unknown_instrument
    | some declared ↦ check_params declared entries []
  ]

  -- `b.Sign() <= 0`
  abbrev bad_length : Option Beat → Bool
  bad_length none = false
  bad_length (some d) = not (ltb_ℤ (pos 0) (sign d))

  -- When a note starts, its end frame if it has one, and its controls: all that comes before the
  -- voice is reserved.
  pub record Plan : Type 0 where
    pub start_frame : ℕ
    pub end_frame : Option ℕ
    pub params : List (String × Float)

  abbrev given_or : Option Beat → Beat → Beat
  given_or none b = b
  given_or (some b) _ = b

  unfoldable pub end_of : Transport Float → Beat → Option Beat → Result PlayError (Option ℕ)
  end_of t start none = ok none
  end_of t start (some dur) = beat_or_error (Beat.add start dur) >>= λ end.
      beat_or_error (frame_at fl t end) >>= λ frame. ok (some frame)

  unfoldable pub plan : NoteState Float → String → PlayOptions Float → Result PlayError Plan
  plan s id options = beat_or_error (beat_at fl s.transport s.frame) >>= λ now.
      let start = given_or options.at (given_or s.at_beat now) in
      if bad_length options.dur
      then err bad_duration
      else (note_params s id options.params >>= λ params.
          if ltb_ℤ (sign start) (pos 0)
          then err negative_beat
          else (beat_or_error (frame_at fl s.transport start) >>= λ start_frame.
              end_of s.transport start options.dur >>= λ end_frame.
              ok (record { start_frame = start_frame; end_frame = end_frame; params = params })))

  -- Add, one event after the other, until one does not fit.
  unfoldable pub add_all : Scheduler Float → List (Event Float) → Scheduler Float × Bool
  add_all q [] = (q, true)
  add_all q (e ∷ es) =
      let added = Scheduler.add zero q e in
      let rest = add_all added.0 es in elim added.1 [ none ↦ (added.0, false) | some e' ↦ rest ]

  abbrev ending : List Definition → Option ℕ → NoteHandle → List (Event Float)
  ending instruments none h = []
  ending instruments (some frame) h = note_event instruments frame release h ∷ []

  -- The events of a new note, in the order in which they are added.
  unfoldable pub note_events : List Definition → Plan → NoteHandle → List (Event Float)
  note_events instruments p h =
      note_event instruments p.start_frame trigger h
      ∷ (map
            (λ name. record (note_event instruments p.start_frame set_control h) {
              parameter = name;
              value = lookup_or zero name p.params;
            })
            (sort_names (map (λ e. e.0) p.params))
          ++ ending instruments p.end_frame h)

  -- The queue and the first event when the note takes the voice of another.
  unfoldable pub after_steal :
      List Definition
      → ℕ
      → Scheduler Float
      → Option NoteHandle
      → Scheduler Float × List (Event Float)
  after_steal instruments start q none = (q, [])
  after_steal instruments start q (some stolen) = (
    if ltb start max_uint64
        then (Scheduler.cancel_handle zero q stolen.event_id (start + 1)).0
        else q,
    note_event instruments start release stolen ∷ [],
  )

  abbrev end_or_max : Option ℕ → ℕ
  end_or_max none = max_uint64
  end_or_max (some frame) = frame

  -- play from the reserved voice on.
  unfoldable pub enqueue :
      NoteState Float → Plan → NoteHandle → Option NoteHandle → NoteOutcome Float NoteHandle
  enqueue s p h stolen =
      let (q, first) = after_steal s.instruments p.start_frame s.queue stolen in
      let added = add_all q (first ++ note_events s.instruments p h) in
      (record s { queue = added.0 }, if added.1 then ok h else err queue_full)

  unfoldable pub play_planned : NoteState Float → String → ℕ → Plan → NoteOutcome Float NoteHandle
  play_planned s id note p =
      let reserved = allocate s.allocator id note p.start_frame (end_or_max p.end_frame) in
      let s' = record s { allocator = reserved.0 } in
      elim reserved.1 [ none ↦ (s', err no_instrument) | some (h, stolen) ↦ enqueue s' p h stolen ]

  unfoldable pub play_note :
      NoteState Float → String → ℕ → PlayOptions Float → NoteOutcome Float NoteHandle
  play_note s id note options = elim (plan s id options) [
    | ok p ↦ play_planned s id note p
    | err why ↦ (s, err why)
    | panic ↦ (s, panic)
  ]

  -- What release and stop-all do for a handle that is cut off at the frame.
  unfoldable pub silence_handle : NoteState Float → ℕ → NoteHandle → Scheduler Float × Bool
  silence_handle s id h =
      let cancelled = (Scheduler.cancel_handle zero s.queue id s.frame).0 in
      if ltb s.frame h.start_frame
      then (cancelled, true)
      else add_all cancelled (note_event s.instruments s.frame release h ∷ [])

  -- release; `false` is a handle that is not valid any more.
  unfoldable pub release_note : NoteState Float → ℕ → NoteOutcome Float Bool
  release_note s id =
      let released = Voices.release s.allocator id s.frame in
      let s' = record s { allocator = released.0 } in
      elim released.1 [
        | none ↦ (s', ok false)
        | some h ↦
            let (q, added) = silence_handle s' id h in
            (record s' { queue = q }, if added then ok true else err queue_full)
      ]

  -- The loop of stop-all over the handles.
  unfoldable pub silence_all : NoteState Float → List NoteHandle → Scheduler Float × Bool
  silence_all s [] = (s.queue, true)
  silence_all s (h ∷ hs) =
      let silenced = silence_handle s h.event_id h in
      let rest = silence_all (record s { queue = silenced.0 }) hs in
      if silenced.1 then rest else silenced

  unfoldable pub stop_all_notes : NoteState Float → NoteOutcome Float ℕ
  stop_all_notes s =
      let stopped = Voices.stop_all s.allocator s.frame in
      let s' = record s { allocator = stopped.0 } in
      let silenced = silence_all s' stopped.1 in
      (
        record s' { queue = silenced.0 },
        if silenced.1 then ok (length stopped.1) else err queue_full,
      )
