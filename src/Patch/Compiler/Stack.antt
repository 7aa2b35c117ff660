-- ===== src/Patch/Compiler/Stack.antt =====
-- internal/patch/compiler.go: `analyzeStack`, which follows the depth of the signal stack.
pub mod Depth
use Prim.Native.String.{String}
use govertone.Common.{ℕ, zero, suc, Bool, true, false, ◌&&◌, List, [], ◌∷◌, if◌then◌else◌}
use govertone.Common.Int.{ℤ, pos, ◌+ℤ◌, ltb_ℤ}
use govertone.Patch.Model.{Diagnostic, diag, warning}
use govertone.Patch.Sointu.{Sointu, SointuUnit}
use govertone.Patch.Compiler.Normalize.{Limits, unit_name}

module _ {F : Type 0} (so : Sointu F) (limits : Limits) (id : String) where
  -- The loop over the units, and the warning after it.
  unfoldable pub stack_loop : List SointuUnit → ℕ → ℤ → List Diagnostic
  stack_loop [] index depth =
      if ltb_ℤ (pos 0) depth
      then record (diag "unconsumed-stack" id (pos 0) "" "") { severity = warning } ∷ []
      else []
  stack_loop (u ∷ us) index depth =
      let after = depth +ℤ so.stack_change u in
      let underflow =
        diag "stack-underflow" id (pos index) (unit_name index) ""
        ∷ stack_loop us (suc index) (pos 0) in
      let kept = stack_loop us (suc index) after in
      let overflow = diag "stack-overflow" id (pos index) (unit_name index) "" ∷ kept in
      if ltb_ℤ depth (so.stack_need u)
      then underflow
      else if limits.portable && ltb_ℤ limits.max_portable_stack after
      then overflow
      else kept

  unfoldable pub analyze_stack : List SointuUnit → List Diagnostic
  analyze_stack units = stack_loop units 0 (pos 0)
