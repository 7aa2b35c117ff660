-- ===== src/Lisp/Forms/Within.antt =====
-- The scan of splitTopLevelForms (internal/lisp/runtime.go) within brackets.
use govertone.Common.{
  ℕ, suc, ◌==◌, ◌≡◌, refl, ap, sym, ◌∙◌, true, false, ◌||◌, some, List, [], ◌∷◌, ◌++◌, arith,
}
use mathlib.Core.List.{append_assoc, append-nil}
use govertone.Common.Int.{pos}
use govertone.Lisp.Forms.{
  Runes, is_opening, is_closing, Scan, scan_start, comment_step, string_step, code_step, scan_step,
  scan,
}
use govertone.Lisp.Forms.Grammar.{Quoted, Line, Inside}

-- The loop within brackets, a string, and a comment.
unfoldable pub inside : List Runes → Runes → ℕ → Scan
inside forms a d = record scan_start { forms = forms; begun = some a; depth = pos (suc d) }

pub quoting : List Runes → Runes → ℕ → Scan
quoting forms a d = record (inside forms a d) { in_string = true }

unfoldable pub commenting : List Runes → Runes → ℕ → Scan
commenting forms a d = record (inside forms a d) { comment = true }

pub scan-append : (s : Scan) (xs ys : Runes) → scan s (xs ++ ys) ≡ scan (scan s xs) ys
unfolding scan
scan-append s [] ys = refl
scan-append s (c ∷ xs) ys = scan-append (scan_step s c) xs ys

-- A slice that grows by a rune and then by a text.
pub grown :
    (f : Runes → Scan) (a : Runes) (c : ℕ) (t : Runes) → f ((a ++ c ∷ []) ++ t) ≡ f (a ++ c ∷ t)
grown f a c t = ap f (append_assoc a (c ∷ []) t)

scan-Quoted :
    (forms : List Runes) (d : ℕ) (a : Runes) {t : Runes}
    → Quoted t
    → scan (quoting forms a d) t ≡ quoting forms (a ++ t) d
unfolding scan scan_step string_step quoting inside
scan-Quoted forms d a Quoted.nothing = ap (λ b. quoting forms b d) (sym (append-nil a))
scan-Quoted forms d a (Quoted.plain c {t} p q more) =
    rw (p, q) (scan-Quoted forms d (a ++ c ∷ []) more ∙ grown (λ b. quoting forms b d) a c t)
scan-Quoted forms d a (Quoted.escape c {t} more) =
    scan-Quoted forms d ((a ++ b'\\' ∷ []) ++ c ∷ []) more
    ∙ grown (λ b. quoting forms b d) (a ++ b'\\' ∷ []) c t
    ∙ grown (λ b. quoting forms b d) a b'\\' (c ∷ t)

pub scan-Line :
    (forms : List Runes) (d : ℕ) (a : Runes) {t : Runes}
    → Line t
    → scan (commenting forms a d) t ≡ commenting forms (a ++ t) d
unfolding scan scan_step comment_step commenting inside
scan-Line forms d a Line.nothing = ap (λ b. commenting forms b d) (sym (append-nil a))
scan-Line forms d a (Line.rune c {t} p line) =
    rw p (scan-Line forms d (a ++ c ∷ []) line ∙ grown (λ b. commenting forms b d) a c t)

step-plain :
    (forms : List Runes) (d : ℕ) (a : Runes) (c : ℕ)
    → (c == b'"' || (c == b';' || (is_opening c || is_closing c))) ≡ false
    → scan_step (inside forms a d) c ≡ inside forms (a ++ c ∷ []) d
unfolding scan_step code_step inside
step-plain forms d a c p =
    let semicolon : (c == b';') ≡ false = ground arith in
    let mark : (c == b'"') ≡ false = ground arith in
    let opening : is_opening c ≡ false = ground arith in
    let closing : is_closing c ≡ false = ground arith in rw (semicolon, opening, closing, mark) refl

step-opening :
    (forms : List Runes) (d : ℕ) (a : Runes) (c : ℕ)
    → is_opening c ≡ true
    → scan_step (inside forms a d) c ≡ inside forms (a ++ c ∷ []) (suc d)
unfolding scan_step code_step inside
step-opening forms d a c p =
    let semicolon : (c == b';') ≡ false = ground arith in
    let mark : (c == b'"') ≡ false = ground arith in rw (semicolon, p, mark) refl

pub step-closing :
    (forms : List Runes) (d : ℕ) (a : Runes) (c : ℕ)
    → is_closing c ≡ true
    → scan_step (inside forms a (suc d)) c ≡ inside forms (a ++ c ∷ []) d
unfolding scan_step code_step inside
step-closing forms d a c p =
    let semicolon : (c == b';') ≡ false = ground arith in
    let mark : (c == b'"') ≡ false = ground arith in
    let opening : is_opening c ≡ false = ground arith in rw (semicolon, opening, p, mark) refl

to_quoting :
    (forms : List Runes) (d : ℕ) (a : Runes)
    → scan_step (inside forms a d) b'"' ≡ quoting forms (a ++ b'"' ∷ []) d
unfolding scan_step code_step quoting inside
to_quoting forms d a = refl

from_quoting :
    (forms : List Runes) (d : ℕ) (a : Runes)
    → scan_step (quoting forms a d) b'"' ≡ inside forms (a ++ b'"' ∷ []) d
unfolding scan_step string_step quoting inside
from_quoting forms d a = refl

to_commenting :
    (forms : List Runes) (d : ℕ) (a : Runes)
    → scan_step (inside forms a d) b';' ≡ commenting forms (a ++ b';' ∷ []) d
unfolding scan_step commenting inside
to_commenting forms d a = refl

from_commenting :
    (forms : List Runes) (d : ℕ) (a : Runes)
    → scan_step (commenting forms a d) 0x0a ≡ inside forms (a ++ 0x0a ∷ []) d
unfolding scan_step comment_step commenting inside
from_commenting forms d a = refl

-- Two brackets around a text, and what comes after.
wrapped :
    (a : Runes) (o c : ℕ) (i t : Runes)
    → (((a ++ o ∷ []) ++ i) ++ c ∷ []) ++ t ≡ a ++ (o ∷ (i ++ c ∷ t))
wrapped a o c i t =
    append_assoc ((a ++ o ∷ []) ++ i) (c ∷ []) t
    ∙ append_assoc (a ++ o ∷ []) i (c ∷ t)
    ∙ append_assoc a (o ∷ []) (i ++ c ∷ t)

pub scan-Inside :
    (forms : List Runes) (d : ℕ) (a : Runes) {t : Runes}
    → Inside t
    → scan (inside forms a d) t ≡ inside forms (a ++ t) d
unfolding scan
scan-Inside forms d a Inside.nothing = ap (λ b. inside forms b d) (sym (append-nil a))
scan-Inside forms d a (Inside.plain c {t} p more) =
    rw (step-plain forms d a c p)
      (scan-Inside forms d (a ++ c ∷ []) more ∙ grown (λ b. inside forms b d) a c t)
scan-Inside forms d a (Inside.quoted {q} {t} marked more) =
    ap (λ s. scan s (q ++ b'"' ∷ t)) (to_quoting forms d a)
    ∙ scan-append (quoting forms (a ++ b'"' ∷ []) d) q (b'"' ∷ t)
    ∙ ap (λ s. scan s (b'"' ∷ t)) (scan-Quoted forms d (a ++ b'"' ∷ []) marked)
    ∙ ap (λ s. scan s t) (from_quoting forms d ((a ++ b'"' ∷ []) ++ q))
    ∙ scan-Inside forms d (((a ++ b'"' ∷ []) ++ q) ++ b'"' ∷ []) more
    ∙ ap (λ b. inside forms b d) (wrapped a b'"' b'"' q t)
scan-Inside forms d a (Inside.comment {l} {t} line more) =
    ap (λ s. scan s (l ++ 0x0a ∷ t)) (to_commenting forms d a)
    ∙ scan-append (commenting forms (a ++ b';' ∷ []) d) l (0x0a ∷ t)
    ∙ ap (λ s. scan s (0x0a ∷ t)) (scan-Line forms d (a ++ b';' ∷ []) line)
    ∙ ap (λ s. scan s t) (from_commenting forms d ((a ++ b';' ∷ []) ++ l))
    ∙ scan-Inside forms d (((a ++ b';' ∷ []) ++ l) ++ 0x0a ∷ []) more
    ∙ ap (λ b. inside forms b d) (wrapped a b';' 0x0a l t)
scan-Inside forms d a (Inside.nested o c {i} {t} p q within more) =
    ap (λ s. scan s (i ++ c ∷ t)) (step-opening forms d a o p)
    ∙ scan-append (inside forms (a ++ o ∷ []) (suc d)) i (c ∷ t)
    ∙ ap (λ s. scan s (c ∷ t)) (scan-Inside forms (suc d) (a ++ o ∷ []) within)
    ∙ ap (λ s. scan s t) (step-closing forms d ((a ++ o ∷ []) ++ i) c q)
    ∙ scan-Inside forms d (((a ++ o ∷ []) ++ i) ++ c ∷ []) more
    ∙ ap (λ b. inside forms b d) (wrapped a o c i t)
