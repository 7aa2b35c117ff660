-- ===== src/Lisp/Forms/Grammar.antt =====
-- A grammar of source texts, against which splitTopLevelForms (internal/lisp/runtime.go) is proved.
use govertone.Common.{ℕ, ◌==◌, ◌≡◌, Bool, true, false, ◌||◌, List, [], ◌∷◌, ◌++◌}
use govertone.Patch.Names.{is_space}
use govertone.Lisp.Forms.{Runes, is_blank, is_opening, is_closing}

-- The text between two quotation marks.
pub data Quoted : Runes → Type 0 where
  nothing : Quoted []
  plain :
      (c : ℕ) {t : Runes} → (c == b'"') ≡ false → (c == b'\\') ≡ false → Quoted t → Quoted (c ∷ t)
  escape : (c : ℕ) {t : Runes} → Quoted t → Quoted (b'\\' ∷ c ∷ t)

-- The text of a comment, before the end of its line.
pub data Line : Runes → Type 0 where
  nothing : Line []
  rune : (c : ℕ) {t : Runes} → (c == 0x0a) ≡ false → Line t → Line (c ∷ t)

-- The text between two brackets.
pub data Inside : Runes → Type 0 where
  nothing : Inside []
  plain :
      (c : ℕ) {t : Runes}
      → (c == b'"' || (c == b';' || (is_opening c || is_closing c))) ≡ false
      → Inside t
      → Inside (c ∷ t)
  quoted : {q t : Runes} → Quoted q → Inside t → Inside (b'"' ∷ (q ++ b'"' ∷ t))
  comment : {l t : Runes} → Line l → Inside t → Inside (b';' ∷ (l ++ 0x0a ∷ t))
  nested :
      (o c : ℕ) {i t : Runes}
      → is_opening o ≡ true
      → is_closing c ≡ true
      → Inside i
      → Inside t
      → Inside (o ∷ (i ++ c ∷ t))

-- A rune of a word at the top level.
abbrev pub is_special : ℕ → Bool
is_special c =
    is_space c || (is_blank c || (c == b'"' || (c == b';' || (is_opening c || is_closing c))))

pub data Word : Runes → Type 0 where
  last : (c : ℕ) → is_special c ≡ false → Word (c ∷ [])
  more : (c : ℕ) {t : Runes} → is_special c ≡ false → Word t → Word (c ∷ t)

-- A text with the given forms: bracketed forms and words, between which there are blanks and
-- comments. A word ends at a blank and a comment at the end of its line, or either at the end of the text.
pub data Source : List Runes → Runes → Type 0 where
  nothing : Source [] []
  blank :
      (c : ℕ) {fs : List Runes} {t : Runes} → is_blank c ≡ true → Source fs t → Source fs (c ∷ t)
  comment :
      {l : Runes} {fs : List Runes} {t : Runes}
      → Line l
      → Source fs t
      → Source fs (b';' ∷ (l ++ 0x0a ∷ t))
  form :
      (o c : ℕ) {i : Runes} {fs : List Runes} {t : Runes}
      → is_opening o ≡ true
      → is_closing c ≡ true
      → Inside i
      → Source fs t
      → Source ((o ∷ (i ++ c ∷ [])) ∷ fs) (o ∷ (i ++ c ∷ t))
  word :
      (b : ℕ) {w : Runes} {fs : List Runes} {t : Runes}
      → is_blank b ≡ true
      → Word w
      → Source fs t
      → Source (w ∷ fs) (w ++ b ∷ t)
  word_last : {w : Runes} → Word w → Source (w ∷ []) w
  comment_last : {l : Runes} → Line l → Source [] (b';' ∷ l)
