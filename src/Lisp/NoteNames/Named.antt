-- ===== src/Lisp/NoteNames/Named.antt =====
-- ParseNoteName (internal/lisp/notes.go) on the names of the MIDI notes.
use govertone.Common.{
  ℕ, zero, suc, ◌+◌, ◌-◌, ◌/◌, ◌%◌, ◌<◌, ◌==◌, ◌≡◌, refl, inl, inr, Bool, Bool-cases, true, false,
  ◌&&◌, List, [], ◌∷◌, ◌++◌, arith, get_or, if◌then◌else◌,
}
use govertone.Common.Int.{◌+ℤ◌, scale}
use govertone.Common.Result.{Result, ok, err, panic}
use govertone.Patch.Names.{is_space}
use govertone.Lisp.Forms.{Runes, trim_left_runes, trim_right_runes, trim_runes}
use govertone.Lisp.NoteNames.{
  NoteError, parse_note_name, parse_trimmed, with_octave, atoi, signed, digits_value, accidental,
  base_of, upper, trim_colon_runes, checked_note, wrap_int64,
}

-- The specification: the names of the pitch classes, with sharps.
abbrev class_names : List Runes
class_names =
    (b'C' ∷ [])
    ∷ (b'C' ∷ b'#' ∷ [])
    ∷ (b'D' ∷ [])
    ∷ (b'D' ∷ b'#' ∷ [])
    ∷ (b'E' ∷ [])
    ∷ (b'F' ∷ [])
    ∷ (b'F' ∷ b'#' ∷ [])
    ∷ (b'G' ∷ [])
    ∷ (b'G' ∷ b'#' ∷ [])
    ∷ (b'A' ∷ [])
    ∷ (b'A' ∷ b'#' ∷ [])
    ∷ (b'B' ∷ [])
    ∷ []

-- The octave of a note is one less than its number of twelves.
abbrev octave_name : ℕ → Runes
octave_name n = if n == 0 then b'-' ∷ b'1' ∷ [] else (b'0' + (n - 1)) ∷ []

-- The name of a MIDI note: middle C, which is 60, has the octave 4.
abbrev pub note_name : ℕ → Runes
note_name n = get_or class_names (n % 12) [] ++ octave_name (n / 12)

gives : Result NoteError ℕ → ℕ → Bool
gives panic n = false
gives (err why) n = false
gives (ok m) n = m == n

gives-ok : (r : Result NoteError ℕ) (n : ℕ) → gives r n ≡ true → r ≡ ok n
unfolding gives
gives-ok panic n p = cc
gives-ok (err why) n p = cc
gives-ok (ok m) n p = let same : m ≡ n = ground arith in rw same refl

all_below : ℕ → (ℕ → Bool) → Bool
all_below zero test = true
all_below (suc n) test = test n && all_below n test

all_below-at : (n : ℕ) (test : ℕ → Bool) (m : ℕ) → all_below n test ≡ true → m < n → test m ≡ true
unfolding all_below
all_below-at zero test m p q = absurd (omega arith)
all_below-at (suc n) test m p q = elim (Bool-cases (m == n)) [
  | inl here ↦ let same : m ≡ n = ground arith in rw same (ground arith)
  | inr other ↦ all_below-at n test m (ground arith) (ground arith)
]

all_named : all_below 128 (λ n. gives (parse_note_name (note_name n)) n) ≡ true
unfolding all_below gives ◌+ℤ◌ scale parse_note_name parse_trimmed with_octave atoi signed
    digits_value accidental base_of upper trim_colon_runes checked_note wrap_int64 trim_runes
    trim_left_runes trim_right_runes is_space
all_named = refl

-- ParseNoteName takes the name of every MIDI note, a letter with a sharp or without and the octave, to
-- its number.
pub parse_note_name-named : (n : ℕ) → n < 128 → parse_note_name (note_name n) ≡ ok n
parse_note_name-named n p =
    gives-ok (parse_note_name (note_name n)) n
      (all_below-at 128 (λ m. gives (parse_note_name (note_name m)) m) n all_named p)
