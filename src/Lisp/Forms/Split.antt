-- ===== src/Lisp/Forms/Split.antt =====
-- What splitTopLevelForms makes of a text of forms (internal/lisp/runtime.go).
use mathlib.Core.List.{append_assoc, append-nil}
use govertone.Common.{◌≡◌, ap, sym, ◌∙◌, List, [], ◌∷◌, ◌++◌}
use govertone.Lisp.Forms.{Runes, scan, split_top_level_forms, scanned}
use govertone.Lisp.Forms.Grammar.{Source}
use govertone.Lisp.Forms.Tops.{outside, step-blank, scan-form, scan-comment, scan-comment_last}
use govertone.Lisp.Forms.Words.{scan-Word_blank, scan-Word_last}

-- One form more at the end, or at the front of what follows.
moved :
    (forms : List Runes) (f : Runes) (fs : List Runes) → (forms ++ f ∷ []) ++ fs ≡ forms ++ f ∷ fs
moved forms f fs = append_assoc forms (f ∷ []) fs

scan-Source :
    (forms : List Runes) {fs : List Runes} {t : Runes}
    → Source fs t
    → scanned (scan (outside forms) t) ≡ forms ++ fs
unfolding scan outside
scan-Source forms Source.nothing = sym (append-nil forms)
scan-Source forms (Source.blank c {t} p more) =
    ap (λ s. scanned (scan s t)) (step-blank forms c p) ∙ scan-Source forms more
scan-Source forms (Source.comment {t} line more) =
    ap scanned (scan-comment forms t line) ∙ scan-Source forms more
scan-Source forms (Source.form o c {i} {fs} {t} p q within more) =
    ap scanned (scan-form forms o c t p q within)
    ∙ scan-Source (forms ++ (o ∷ (i ++ c ∷ [])) ∷ []) more
    ∙ moved forms (o ∷ (i ++ c ∷ [])) fs
scan-Source forms (Source.word b {w} {fs} {t} p word more) =
    ap scanned (scan-Word_blank forms b t p word)
    ∙ scan-Source (forms ++ w ∷ []) more
    ∙ moved forms w fs
scan-Source forms (Source.word_last word) = scan-Word_last forms word
scan-Source forms (Source.comment_last line) = scan-comment_last forms line ∙ sym (append-nil forms)

-- splitTopLevelForms of a text of bracketed forms, words, blanks and comments, in which a word is
-- followed by a blank or the end of the text, and a comment, which is not begun within a word, by the end
-- of its line or of the text: it returns the forms and the words, whole and in order, and leaves
-- out the comments between them.
pub split_top_level_forms-Source :
    {fs : List Runes} {t : Runes} → Source fs t → split_top_level_forms t ≡ fs
unfolding split_top_level_forms outside
split_top_level_forms-Source source = scan-Source [] source
