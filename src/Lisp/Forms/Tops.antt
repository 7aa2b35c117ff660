-- ===== src/Lisp/Forms/Tops.antt =====
-- The scan of splitTopLevelForms (internal/lisp/runtime.go) over blanks, comments and bracketed forms.
use govertone.Common.{
  ℕ, ◌==◌, ◌≡◌, refl, ap, ◌∙◌, inl, inr, Bool-cases, true, false, List, [], ◌∷◌, ◌++◌, arith,
}
use govertone.Patch.Names.{is_space}
use govertone.Lisp.Forms.{
  Runes, is_empty, trim_left_runes, trim_right_runes, trim_runes, is_blank, is_opening, is_closing,
  Scan, scan_start, comment_step, code_step, scan_step, scan, scanned,
}
use govertone.Lisp.Forms.Grammar.{Line, Inside}
use govertone.Lisp.Forms.Within.{inside, scan-Inside, scan-append}

unfoldable pub outside : List Runes → Scan
outside forms = record scan_start { forms = forms }

unfoldable pub noting : List Runes → Scan
noting forms = record scan_start { forms = forms; comment = true }

pub scan-noting : (forms : List Runes) {t : Runes} → Line t → scan (noting forms) t ≡ noting forms
unfolding scan scan_step comment_step noting
scan-noting forms Line.nothing = refl
scan-noting forms (Line.rune c {t} p line) = rw p (scan-noting forms line)

not_empty : (t : Runes) (c : ℕ) → is_empty (t ++ c ∷ []) ≡ false
not_empty [] c = refl
not_empty (x ∷ t) c = refl

-- A rune stays at the front if what is behind it is not all trimmed.
pub trim_right-cons :
    (x : ℕ) (t : Runes)
    → trim_right_runes t ≡ t
    → is_empty t ≡ false
    → trim_right_runes (x ∷ t) ≡ x ∷ t
unfolding trim_right_runes
trim_right-cons x t same p =
    rw (same, p) (elim (Bool-cases (is_space x)) [ inl e ↦ rw e refl | inr e ↦ rw e refl ])

trim_right-last :
    (t : Runes) (c : ℕ) → is_space c ≡ false → trim_right_runes (t ++ c ∷ []) ≡ t ++ c ∷ []
unfolding trim_right_runes
trim_right-last [] c p = rw p refl
trim_right-last (x ∷ t) c p =
    trim_right-cons x (t ++ c ∷ []) (trim_right-last t c p) (not_empty t c)

-- A text that neither starts nor ends with a space is not changed by TrimSpace.
trim_runes-same :
    (o : ℕ) (t : Runes) (c : ℕ)
    → is_space o ≡ false
    → is_space c ≡ false
    → trim_runes (o ∷ (t ++ c ∷ [])) ≡ o ∷ (t ++ c ∷ [])
unfolding trim_runes trim_left_runes
trim_runes-same o t c p q = rw p (trim_right-last (o ∷ t) c q)

opening-space : (c : ℕ) → is_opening c ≡ true → is_space c ≡ false
unfolding is_space
opening-space c p = ground arith

closing-space : (c : ℕ) → is_closing c ≡ true → is_space c ≡ false
unfolding is_space
closing-space c p = ground arith

pub step-blank :
    (forms : List Runes) (c : ℕ) → is_blank c ≡ true → scan_step (outside forms) c ≡ outside forms
unfolding scan_step outside
step-blank forms c p = let semicolon : (c == b';') ≡ false = ground arith in rw (semicolon, p) refl

step-begin :
    (forms : List Runes) (c : ℕ)
    → is_opening c ≡ true
    → scan_step (outside forms) c ≡ inside forms (c ∷ []) 0
unfolding scan_step code_step outside inside
step-begin forms c p =
    let semicolon : (c == b';') ≡ false = ground arith in
    let mark : (c == b'"') ≡ false = ground arith in
    let blank : is_blank c ≡ false = ground arith in rw (semicolon, blank, p, mark) refl

step-end :
    (forms : List Runes) (a : Runes) (c : ℕ)
    → is_closing c ≡ true
    → scan_step (inside forms a 0) c ≡ outside (forms ++ trim_runes (a ++ c ∷ []) ∷ [])
unfolding scan_step code_step outside inside
step-end forms a c p =
    let semicolon : (c == b';') ≡ false = ground arith in
    let mark : (c == b'"') ≡ false = ground arith in
    let opening : is_opening c ≡ false = ground arith in rw (semicolon, opening, p, mark) refl

-- A bracketed form is read whole.
pub scan-form :
    (forms : List Runes) (o c : ℕ) {i : Runes} (t : Runes)
    → is_opening o ≡ true
    → is_closing c ≡ true
    → Inside i
    → scan (outside forms) (o ∷ (i ++ c ∷ t)) ≡ scan (outside (forms ++ (o ∷ (i ++ c ∷ [])) ∷ [])) t
unfolding scan
scan-form forms o c {i} t p q within =
    ap (λ s. scan s (i ++ c ∷ t)) (step-begin forms o p)
    ∙ scan-append (inside forms (o ∷ []) 0) i (c ∷ t)
    ∙ ap (λ s. scan s (c ∷ t)) (scan-Inside forms 0 (o ∷ []) within)
    ∙ ap (λ s. scan s t) (step-end forms (o ∷ i) c q)
    ∙ ap (λ f. scan (outside (forms ++ f ∷ [])) t)
        (trim_runes-same o i c (opening-space o p) (closing-space c q))

-- A comment is skipped.
pub scan-comment :
    (forms : List Runes) {l : Runes} (t : Runes)
    → Line l
    → scan (outside forms) (b';' ∷ (l ++ 0x0a ∷ t)) ≡ scan (outside forms) t
unfolding scan scan_step comment_step outside noting
scan-comment forms {l} t line =
    scan-append (noting forms) l (0x0a ∷ t) ∙ ap (λ s. scan s (0x0a ∷ t)) (scan-noting forms line)

-- A comment at the end of the text.
pub scan-comment_last :
    (forms : List Runes) {l : Runes} → Line l → scanned (scan (outside forms) (b';' ∷ l)) ≡ forms
unfolding scan scan_step outside noting
scan-comment_last forms line = ap scanned (scan-noting forms line)
