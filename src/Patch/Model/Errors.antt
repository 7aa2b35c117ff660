-- ===== src/Patch/Model/Errors.antt =====
-- The errors among diagnostics (internal/patch/compiler.go, hasErrors).
use govertone.Common.{◌≡◌, refl, false, List, [], ◌∷◌, ◌++◌, map, arith}
use govertone.Patch.Model.{Diagnostic, has_errors}

pub has_errors-append :
    (ds es : List Diagnostic)
    → has_errors (ds ++ es) ≡ false
    → (has_errors ds ≡ false) × (has_errors es ≡ false)
unfolding has_errors
has_errors-append [] es h = (refl, h)
has_errors-append (d ∷ ds) es h = ground (arith, has_errors-append ds es)

pub has_errors-map :
    (f : Diagnostic → Diagnostic)
    → ((d : Diagnostic) → (f d).severity ≡ d.severity)
    → (ds : List Diagnostic) → has_errors (map f ds) ≡ has_errors ds
unfolding has_errors
has_errors-map f same [] = refl
has_errors-map f same (d ∷ ds) = ground (arith, same d, has_errors-map f same ds)
