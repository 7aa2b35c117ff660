-- ===== src/Patch/Compiler/Stack/Depth.antt =====
-- The depth of the signal stack, before and after each unit (internal/patch/compiler.go).
use Prim.Native.String.{String}
use govertone.Common.{
  ℕ, suc, ◌≡◌, refl, ap, subst, inl, inr, ◌↔◌, Bool-cases, true, false, ◌&&◌, List, [], ◌∷◌, ◌++◌,
  arith,
}
use govertone.Common.Int.{ℤ, pos, ◌+ℤ◌, ◌≤ℤ◌, ltb_ℤ}
use govertone.Patch.Model.{diag, has_errors}
use govertone.Patch.Sointu.{Sointu, SointuUnit}
use govertone.Patch.Compiler.Normalize.{Limits}
use govertone.Patch.Compiler.Stack.{stack_loop, analyze_stack}

module _ {F : Type 0} (so : Sointu F) (limits : Limits) where
  -- The depth that units leave, from a depth at first.
  abbrev pub depth_after : ℤ → List SointuUnit → ℤ
  depth_after depth [] = depth
  depth_after depth (u ∷ us) = depth_after (depth +ℤ so.stack_change u) us

  -- A unit finds its operands, and leaves no more than the portable stack holds.
  abbrev pub Fits : ℤ → SointuUnit → Type 0
  Fits depth u =
      (so.stack_need u ≤ℤ depth)
      × (limits.portable ≡ true → depth +ℤ so.stack_change u ≤ℤ limits.max_portable_stack)

  module _ (id : String) where
    abbrev IsQuiet : List SointuUnit → ℕ → ℤ → Type 0
    IsQuiet us index depth = has_errors (stack_loop so limits id us index depth) ≡ false

    step-Fits :
        (u : SointuUnit) (us : List SointuUnit) (index : ℕ) (depth : ℤ)
        → IsQuiet (u ∷ us) index depth
        → Fits depth u × IsQuiet us (suc index) (depth +ℤ so.stack_change u)
    unfolding stack_loop has_errors diag
    step-Fits u us index depth h = elim (Bool-cases (ltb_ℤ depth (so.stack_need u))) [
      | inl under ↦ absurd (cc (rw under at h))
      | inr enough ↦
          let after = depth +ℤ so.stack_change u in
          elim (Bool-cases (limits.portable && ltb_ℤ limits.max_portable_stack after)) [
            | inl over ↦ absurd (cc (rw (enough, over) at h))
            | inr room ↦ ((ground arith, λ portable. ground arith), rw (enough, room) at h)
          ]
    ]

    step-IsQuiet :
        (u : SointuUnit) (us : List SointuUnit) (index : ℕ) (depth : ℤ)
        → Fits depth u
        → IsQuiet us (suc index) (depth +ℤ so.stack_change u)
        → IsQuiet (u ∷ us) index depth
    unfolding stack_loop has_errors diag
    step-IsQuiet u us index depth (need, room) h =
        let after = depth +ℤ so.stack_change u in
        let enough : ltb_ℤ depth (so.stack_need u) ≡ false = ground arith in
        elim (Bool-cases limits.portable) [
          | inl portable ↦
              let fits = room portable in
              let small : ltb_ℤ limits.max_portable_stack after ≡ false = ground arith in
              rw (enough, portable, small) h
          | inr free ↦ rw (enough, free) h
        ]

    loop-Fits :
        (pre : List SointuUnit) (u : SointuUnit) (post : List SointuUnit) (index : ℕ) (depth : ℤ)
        → IsQuiet (pre ++ u ∷ post) index depth
        → Fits (depth_after depth pre) u
    loop-Fits [] u post index depth h = (step-Fits u post index depth h).0
    loop-Fits (v ∷ pre) u post index depth h =
        loop-Fits pre u post (suc index) (depth +ℤ so.stack_change v)
          (step-Fits v (pre ++ u ∷ post) index depth h).1

    loop-IsQuiet :
        (us : List SointuUnit) (index : ℕ) (depth : ℤ)
        → ((pre : List SointuUnit) (u : SointuUnit) (post : List SointuUnit)
            → us ≡ pre ++ u ∷ post
            → Fits (depth_after depth pre) u)
        → IsQuiet us index depth
    unfolding stack_loop has_errors diag
    loop-IsQuiet [] index depth h = ground arith
    loop-IsQuiet (u ∷ us) index depth h = step-IsQuiet u us index depth (h [] u us refl) (
        loop-IsQuiet us (suc index) (depth +ℤ so.stack_change u)
          (λ pre v post e. h (u ∷ pre) v post (ap (λ l. u ∷ l) e)))

    -- The analysis of the stack reports no error exactly when, run from an empty stack, every unit
    -- finds as many values as it needs and, in the portable mode, leaves no more than the limit.
    pub analyze_stack_iff :
        (units : List SointuUnit)
        → (has_errors (analyze_stack so limits id units) ≡ false) ↔ (
            (pre : List SointuUnit) (u : SointuUnit) (post : List SointuUnit)
            → units ≡ pre ++ u ∷ post
            → Fits (depth_after (pos 0) pre) u)
    unfolding analyze_stack
    analyze_stack_iff units = (
      (λ h pre u post e. loop-Fits pre u post 0 (pos 0) (subst (λ us. IsQuiet us 0 (pos 0)) e h)),
      (λ h. loop-IsQuiet units 0 (pos 0) h),
    )
