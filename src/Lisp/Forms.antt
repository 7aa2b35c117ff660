-- ===== src/Lisp/Forms.antt =====
-- splitTopLevelForms (internal/lisp/runtime.go): the scan of a source text. A text is the list of its
-- runes, which is what the loop ranges over, and a slice is a part of that list.
pub mod Grammar
pub mod Within
pub mod Tops
pub mod Words
pub mod Split
use govertone.Common.{
  ℕ, zero, suc, ◌==◌, Bool, true, false, not, ◌&&◌, ◌||◌, Option, none, some, List, [], ◌∷◌, ◌++◌,
  if◌then◌else◌,
}
use govertone.Common.Int.{ℤ, pos, negsuc}
use govertone.Patch.Names.{is_space}

abbrev pub Runes : Type 0
Runes = List ℕ

-- `strings.TrimSpace`, from the left and from the right
unfoldable pub trim_left_runes : Runes → Runes
trim_left_runes [] = []
trim_left_runes (c ∷ s) = let rest = trim_left_runes s in if is_space c then rest else c ∷ s

abbrev pub is_empty : Runes → Bool
is_empty [] = true
is_empty (c ∷ s) = false

unfoldable pub trim_right_runes : Runes → Runes
trim_right_runes [] = []
trim_right_runes (c ∷ s) =
    let rest = trim_right_runes s in if is_space c && is_empty rest then [] else c ∷ rest

unfoldable pub trim_runes : Runes → Runes
trim_runes s = trim_right_runes (trim_left_runes s)

-- The bytes of the cases, as runes.
abbrev pub is_blank : ℕ → Bool
is_blank c = c == 0x20 || (c == 0x09 || (c == 0x0d || (c == 0x0a || c == b',')))

abbrev pub is_opening : ℕ → Bool
is_opening c = c == b'(' || (c == b'[' || c == b'{')

abbrev pub is_closing : ℕ → Bool
is_closing c = c == b')' || (c == b']' || c == b'}')

-- `depth++`, `depth--` and `depth == 0`
abbrev pub deeper : ℤ → ℤ
deeper (pos n) = pos (suc n)
deeper (negsuc zero) = pos 0
deeper (negsuc (suc n)) = negsuc n

abbrev pub shallower : ℤ → ℤ
shallower (pos zero) = negsuc 0
shallower (pos (suc n)) = pos n
shallower (negsuc n) = negsuc (suc n)

abbrev pub is_outside : ℤ → Bool
is_outside (pos zero) = true
is_outside (pos (suc n)) = false
is_outside (negsuc n) = false

-- The variables of the loop. `begun` is `src[start:i]`, or `none` if `start` is negative.
pub record Scan : Type 0 where
  pub forms : List Runes
  pub begun : Option Runes
  pub depth : ℤ
  pub in_string : Bool
  pub escaped : Bool
  pub comment : Bool

abbrev pub scan_start : Scan
scan_start = record {
  forms = [];
  begun = none;
  depth = pos 0;
  in_string = false;
  escaped = false;
  comment = false;
}

-- The slice with one rune more.
abbrev pub longer : Option Runes → ℕ → Option Runes
longer none c = none
longer (some a) c = some (a ++ c ∷ [])

-- The slice from `start`, which is set to `i` when it is negative.
abbrev pub slice_begun : Option Runes → Runes
slice_begun none = []
slice_begun (some a) = a

abbrev pub is_begun : Option Runes → Bool
is_begun none = false
is_begun (some a) = true

-- `if form != "" { forms = append(forms, form) }`
abbrev pub with_form : List Runes → Runes → List Runes
with_form forms form = if is_empty form then forms else forms ++ form ∷ []

unfoldable pub comment_step : Scan → ℕ → Scan
comment_step s c =
    if c == 0x0a
    then if is_begun s.begun && is_outside s.depth
      then record s {
        forms = s.forms ++ trim_runes (slice_begun s.begun) ∷ [];
        begun = none;
        comment = false;
      }
      else record s { begun = longer s.begun c; comment = false }
    else record s { begun = longer s.begun c }

unfoldable pub string_step : Scan → ℕ → Scan
string_step s c =
    if s.escaped
    then record s { begun = longer s.begun c; escaped = false }
    else if c == b'\\'
    then record s { begun = longer s.begun c; escaped = true }
    else if c == b'"'
    then record s { begun = longer s.begun c; in_string = false }
    else record s { begun = longer s.begun c }

-- The rest of the loop's body, with `src[start:i]`.
unfoldable pub code_step : Scan → Runes → ℕ → Scan
code_step s a c =
    let depth =
      if is_opening c
      then deeper s.depth
      else if is_closing c
      then shallower s.depth
      else s.depth in
    let next = record s { depth = depth; in_string = c == b'"' } in
    if is_outside depth && is_closing c
    then record next { forms = s.forms ++ trim_runes (a ++ c ∷ []) ∷ []; begun = none }
    else if is_outside depth && is_blank c
    then record next { forms = with_form s.forms (trim_runes a); begun = none }
    else record next { begun = some (a ++ c ∷ []) }

unfoldable pub scan_step : Scan → ℕ → Scan
scan_step s c =
    if s.comment
    then comment_step s c
    else if s.in_string
    then string_step s c
    else if c == b';'
    then record s { begun = longer s.begun c; comment = true }
    else if not (is_begun s.begun) && is_blank c
    then s
    else code_step s (slice_begun s.begun) c

unfoldable pub scan : Scan → Runes → Scan
scan s [] = s
scan s (c ∷ cs) = scan (scan_step s c) cs

abbrev pub scanned : Scan → List Runes
scanned s = elim s.begun [ none ↦ s.forms | some a ↦ with_form s.forms (trim_runes a) ]

unfoldable pub split_top_level_forms : Runes → List Runes
split_top_level_forms src = scanned (scan scan_start src)
