-- ===== src/Lisp/NoteNames.antt =====
-- internal/lisp/notes.go: MIDI notes by number and by name. A text is the list of its runes; the source
-- looks at bytes, which differ only where both fail.
pub mod Named
mod Tests
use govertone.Common.{
  ℕ, zero, suc, ◌+◌, ◌-◌, ◌*◌, ◌%◌, ◌^◌, ◌==◌, ltb, leb, Bool, true, false, ◌&&◌, ◌||◌, Option,
  none, some, List, [], ◌∷◌, if◌then◌else◌,
}
use govertone.Common.Int.{ℤ, pos, negsuc, neg_ℤ, ◌+ℤ◌, scale, ltb_ℤ, pos_part, u64_mod}
use govertone.Common.Result.{Result, ok, err, panic, ◌>>=◌}
use govertone.Lisp.Forms.{Runes, trim_runes}

pub data NoteError : Type 0 where
  invalid_name expected_letter missing_octave bad_octave outside_range wrong_type : NoteError

-- The conversion of a result to int64.
unfoldable pub wrap_int64 : ℤ → ℤ
wrap_int64 (pos n) =
    let r = n % u64_mod in if ltb r (2 ^ 63) then pos r else neg_ℤ (pos (u64_mod - r))
wrap_int64 (negsuc n) =
    let r = (n + 1) % u64_mod in if leb r (2 ^ 63) then neg_ℤ (pos r) else pos (u64_mod - r)

unfoldable pub checked_note : ℤ → Result NoteError ℕ
checked_note n = if ltb_ℤ n (pos 0) || ltb_ℤ (pos 127) n then err outside_range else ok (pos_part n)

-- `strings.TrimPrefix(s, ":")`
unfoldable pub trim_colon_runes : Runes → Runes
trim_colon_runes [] = []
trim_colon_runes (c ∷ s) = if c == b':' then s else c ∷ s

-- `unicode.ToUpper` on a byte, as far as the letters of the notes go.
unfoldable pub upper : ℕ → ℕ
upper c = if leb b'a' c && leb c b'z' then c - 32 else c

unfoldable pub base_of : ℕ → Option ℤ
base_of letter =
    if letter == b'C'
    then some (pos 0)
    else if letter == b'D'
    then some (pos 2)
    else if letter == b'E'
    then some (pos 4)
    else if letter == b'F'
    then some (pos 5)
    else if letter == b'G'
    then some (pos 7)
    else if letter == b'A'
    then some (pos 9)
    else if letter == b'B'
    then some (pos 11)
    else none

-- The sharp or flat at the front of the rest: the base with it, and what is left.
unfoldable pub accidental : ℤ → Runes → ℤ × Runes
accidental base [] = (base, [])
accidental base (c ∷ s) =
    if c == b'#'
    then (base +ℤ pos 1, s)
    else if c == b'b' || c == b'B'
    then (base +ℤ negsuc 0, s)
    else (base, c ∷ s)

-- The digits of `strconv.Atoi`, with the value so far.
unfoldable pub digits_value : Runes → ℕ → Option ℕ
digits_value [] n = some n
digits_value (c ∷ s) n =
    let rest = digits_value s (n * 10 + (c - b'0')) in
    if leb b'0' c && leb c b'9' then rest else none

-- A number within int64, with its sign.
unfoldable pub signed : Bool → Option ℕ → Option ℤ
signed negative none = none
signed true (some n) = if leb n (2 ^ 63) then some (neg_ℤ (pos n)) else none
signed false (some n) = if ltb n (2 ^ 63) then some (pos n) else none

abbrev digits : Runes → Option ℕ
digits [] = none
digits (c ∷ s) = digits_value (c ∷ s) 0

unfoldable pub atoi : Runes → Option ℤ
atoi [] = none
atoi (c ∷ s) =
    if c == b'-'
    then signed true (digits s)
    else if c == b'+'
    then signed false (digits s)
    else signed false (digits (c ∷ s))

-- ParseNoteName from the octave on.
unfoldable pub with_octave : ℤ → Runes → Result NoteError ℕ
with_octave base [] = err missing_octave
with_octave base (c ∷ s) = elim (atoi (c ∷ s)) [
  | none ↦ err bad_octave
  | some octave ↦ checked_note (wrap_int64 (scale (octave +ℤ pos 1) 12 +ℤ base))
]

unfoldable pub parse_trimmed : Runes → Result NoteError ℕ
parse_trimmed [] = err invalid_name
parse_trimmed (c ∷ []) = err invalid_name
parse_trimmed (c ∷ d ∷ s) = elim (base_of (upper c)) [
  | none ↦ err expected_letter
  | some base ↦ let (sharpened, rest) = accidental base (d ∷ s) in with_octave sharpened rest
]

unfoldable pub parse_note_name : Runes → Result NoteError ℕ
parse_note_name s = parse_trimmed (trim_runes (trim_colon_runes s))

-- What NoteNumber is given.
pub data NoteArgument : Type 0 where
  number : ℤ → NoteArgument
  name : Runes → NoteArgument
  other : NoteArgument

unfoldable pub note_number : NoteArgument → Result NoteError ℕ
note_number (number n) = checked_note n
note_number (name s) = parse_note_name s
note_number other = err wrong_type
