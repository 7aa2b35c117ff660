-- ===== src/Lisp/Forms/Words.antt =====
-- The scan of splitTopLevelForms (internal/lisp/runtime.go) over words outside of brackets.
use mathlib.Core.List.{append_assoc}
use govertone.Common.{ℕ, ◌==◌, ◌≡◌, refl, ap, ◌∙◌, true, false, some, List, [], ◌∷◌, ◌++◌, arith}
use govertone.Patch.Names.{is_space}
use govertone.Lisp.Forms.{
  Runes, is_empty, trim_left_runes, trim_right_runes, trim_runes, is_blank, is_opening, is_closing,
  Scan, scan_start, code_step, scan_step, scan, scanned,
}
use govertone.Lisp.Forms.Grammar.{Word, is_special}
use govertone.Lisp.Forms.Within.{scan-append}
use govertone.Lisp.Forms.Tops.{outside, trim_right-cons}

reading : List Runes → Runes → Scan
reading forms a = record scan_start { forms = forms; begun = some a }

-- What the scan asks of a rune of a word.
record IsOrdinary (c : ℕ) : Type 0 where
  space : is_space c ≡ false
  blank : is_blank c ≡ false
  semicolon : (c == b';') ≡ false
  mark : (c == b'"') ≡ false
  opening : is_opening c ≡ false
  closing : is_closing c ≡ false

is_special-IsOrdinary : (c : ℕ) → is_special c ≡ false → IsOrdinary c
is_special-IsOrdinary c p = record {
  space = ground arith;
  blank = ground arith;
  semicolon = ground arith;
  mark = ground arith;
  opening = ground arith;
  closing = ground arith;
}

step-first :
    (forms : List Runes) (c : ℕ)
    → is_special c ≡ false
    → scan_step (outside forms) c ≡ reading forms (c ∷ [])
unfolding scan_step code_step outside reading
step-first forms c p =
    let o = is_special-IsOrdinary c p in
    rw (o.semicolon, o.blank, o.opening, o.closing, o.mark) refl

step-next :
    (forms : List Runes) (a : Runes) (c : ℕ)
    → is_special c ≡ false
    → scan_step (reading forms a) c ≡ reading forms (a ++ c ∷ [])
unfolding scan_step code_step reading
step-next forms a c p =
    let o = is_special-IsOrdinary c p in
    rw (o.semicolon, o.opening, o.closing, o.blank, o.mark) refl

scan-reading :
    (forms : List Runes) (a : Runes) {w : Runes}
    → Word w
    → scan (reading forms a) w ≡ reading forms (a ++ w)
unfolding scan
scan-reading forms a (Word.last c p) = step-next forms a c p
scan-reading forms a (Word.more c {t} p word) =
    ap (λ s. scan s t) (step-next forms a c p)
    ∙ scan-reading forms (a ++ c ∷ []) word
    ∙ ap (reading forms) (append_assoc a (c ∷ []) t)

scan-Word : (forms : List Runes) {w : Runes} → Word w → scan (outside forms) w ≡ reading forms w
unfolding scan
scan-Word forms (Word.last c p) = step-first forms c p
scan-Word forms (Word.more c {t} p word) =
    ap (λ s. scan s t) (step-first forms c p) ∙ scan-reading forms (c ∷ []) word

Word-not_empty : {w : Runes} → Word w → is_empty w ≡ false
Word-not_empty (Word.last c p) = refl
Word-not_empty (Word.more c p word) = refl

trim_right-Word : {w : Runes} → Word w → trim_right_runes w ≡ w
unfolding trim_right_runes
trim_right-Word (Word.last c p) = let o = is_special-IsOrdinary c p in rw o.space refl
trim_right-Word (Word.more c {t} p word) =
    trim_right-cons c t (trim_right-Word word) (Word-not_empty word)

trim_left-Word : {w : Runes} → Word w → trim_left_runes w ≡ w
unfolding trim_left_runes
trim_left-Word (Word.last c p) = let o = is_special-IsOrdinary c p in rw o.space refl
trim_left-Word (Word.more c p word) = let o = is_special-IsOrdinary c p in rw o.space refl

trim-Word : {w : Runes} → Word w → trim_runes w ≡ w
unfolding trim_runes
trim-Word word = ap trim_right_runes (trim_left-Word word) ∙ trim_right-Word word

step-after :
    (forms : List Runes) {w : Runes} (b : ℕ)
    → Word w
    → is_blank b ≡ true
    → scan_step (reading forms w) b ≡ outside (forms ++ w ∷ [])
unfolding scan_step code_step outside reading
step-after forms b word p =
    let semicolon : (b == b';') ≡ false = ground arith in
    let mark : (b == b'"') ≡ false = ground arith in
    let opening : is_opening b ≡ false = ground arith in
    let closing : is_closing b ≡ false = ground arith in
    rw (semicolon, opening, closing, p, mark, trim-Word word, Word-not_empty word) refl

-- A word is read up to the blank behind it.
pub scan-Word_blank :
    (forms : List Runes) {w : Runes} (b : ℕ) (t : Runes)
    → is_blank b ≡ true
    → Word w
    → scan (outside forms) (w ++ b ∷ t) ≡ scan (outside (forms ++ w ∷ [])) t
unfolding scan
scan-Word_blank forms {w} b t p word =
    scan-append (outside forms) w (b ∷ t)
    ∙ ap (λ s. scan s (b ∷ t)) (scan-Word forms word)
    ∙ ap (λ s. scan s t) (step-after forms b word p)

-- A word at the end of the text.
pub scan-Word_last :
    (forms : List Runes) {w : Runes} → Word w → scanned (scan (outside forms) w) ≡ forms ++ w ∷ []
unfolding reading
scan-Word_last forms word =
    ap scanned (scan-Word forms word) ∙ rw (trim-Word word, Word-not_empty word) refl
