-- ===== src/Lisp/NoteNames/Tests.antt =====
-- Names of notes (internal/lisp/notes_test.go and more).
use govertone.Common.{◌≡◌, refl, [], ◌∷◌, arith}
use govertone.Common.Int.{◌+ℤ◌, scale}
use govertone.Common.Result.{ok, err}
use govertone.Patch.Names.{is_space}
use govertone.Lisp.Forms.{trim_left_runes, trim_right_runes, trim_runes}
use govertone.Lisp.NoteNames.{
  parse_note_name, parse_trimmed, with_octave, atoi, signed, digits_value, accidental, base_of,
  upper, trim_colon_runes, checked_note, wrap_int64, outside_range,
}
use govertone.Lisp.NoteNames.Named.{parse_note_name-named}

parse_note_name-named_example : parse_note_name (b'A' ∷ b'4' ∷ []) ≡ ok 69
parse_note_name-named_example = parse_note_name-named 69 (omega arith)

-- :bb3, and G#9, which is note 128.
flat_and_high :
    (parse_note_name (b':' ∷ b'b' ∷ b'b' ∷ b'3' ∷ []) ≡ ok 58)
    × (parse_note_name (b'G' ∷ b'#' ∷ b'9' ∷ []) ≡ err outside_range)
unfolding ◌+ℤ◌ scale parse_note_name parse_trimmed with_octave atoi signed digits_value accidental
    base_of upper trim_colon_runes checked_note wrap_int64 trim_runes trim_left_runes
    trim_right_runes is_space
flat_and_high = (refl, refl)

-- The letter C and the octave 4611686018427387903: twelve times the octave's successor is a multiple of 2 ^ 64.
far_octave :
    parse_note_name (
      b'C' ∷ b'4' ∷ b'6' ∷ b'1' ∷ b'1' ∷ b'6' ∷ b'8' ∷ b'6' ∷ b'0' ∷ b'1' ∷ b'8' ∷ b'4' ∷ b'2'
      ∷ b'7' ∷ b'3' ∷ b'8' ∷ b'7' ∷ b'9' ∷ b'0' ∷ b'3' ∷ [])
    ≡ ok 0
unfolding ◌+ℤ◌ scale parse_note_name parse_trimmed with_octave atoi signed digits_value accidental
    base_of upper trim_colon_runes checked_note wrap_int64 trim_runes trim_left_runes
    trim_right_runes is_space
far_octave = refl
