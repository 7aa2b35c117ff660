-- ===== src/Patch/Compiler/Compile/Returned.antt =====
-- What Compile has checked when it returns a patch (internal/patch/compiler.go).
use Prim.Native.String.{String}
use govertone.Common.{◌≡◌, sym, subst, inl, inr, Bool-cases, Option-cases, false, some, List, []}
use govertone.Common.Float.{Float64}
use govertone.Common.Int.{ℤ}
use govertone.Common.Result.{ok, bind_inv}
use govertone.Patch.Model.{PatchSpec, has_errors, canonical}
use govertone.Patch.Schema.{new_schema_registry}
use govertone.Patch.Sointu.{Sointu, ParameterAddress}
use govertone.Patch.Compiler.Normalize.{Limits}
use govertone.Patch.Compiler.Spec.{normalize}
use govertone.Patch.Compiler.Compile.{
  CompiledPatch, LaidOut, add_hard_release, bind_instruments, link, assemble, compile,
}

module _ (fl : Float64) (so : Sointu fl.Float) (limits : Limits) where
  open fl use {Float}

  -- What a returned patch has from the specification and the layout.
  pub record IsFrom (spec : PatchSpec Float) (laid : LaidOut) (c : CompiledPatch Float)
      : Type 0 where
    pub checked : has_errors laid.diagnostics ≡ false
    pub digested : so.digest (canonical spec) ≡ some c.fingerprint
    pub table : List (ParameterAddress × ℤ)
    pub instruments :
        c.layout.instruments ≡ add_hard_release table spec.instruments 0 laid.layout.instruments
    pub total : c.layout.total_voices ≡ laid.layout.total_voices
    pub ordered : c.layout.ordered_ids ≡ laid.layout.ordered_ids
    pub source : c.spec ≡ spec

  link-IsFrom :
      (spec : PatchSpec Float) (laid : LaidOut) (fp : String) (table : List (ParameterAddress × ℤ))
      (c : CompiledPatch Float)
      → has_errors laid.diagnostics ≡ false
      → so.digest (canonical spec) ≡ some fp
      → link fl so limits spec laid fp table ≡ ok c
      → IsFrom spec laid c
  unfolding link
  link-IsFrom spec laid fp table c checked digested h =
      let (bindings, rest, _) = bind_inv (bind_instruments fl table spec.instruments 0 []) _ c h in
      elim (Bool-cases (so.synth laid.patch)) [
        | inl good ↦
            let made = rw good at rest in
            record {
              checked = checked;
              digested = cc;
              table = table;
              instruments = cc;
              total = cc;
              ordered = cc;
              source = cc;
            }
        | inr bad ↦ absurd (cc (rw bad at rest))
      ]

  pub assemble-IsFrom :
      (spec : PatchSpec Float) (laid : LaidOut) (c : CompiledPatch Float)
      → assemble fl so limits spec laid ≡ ok c
      → IsFrom spec laid c
  unfolding assemble
  assemble-IsFrom spec laid c h = elim (Bool-cases (has_errors laid.diagnostics)) [
    | inl wrong ↦ absurd (cc (rw wrong at h))
    | inr right ↦ elim (Option-cases (so.digest (canonical spec))) [
      | inl no_digest ↦ absurd (cc (rw (right, no_digest) at h))
      | inr (fp, digested) ↦ elim (Option-cases (so.bytecode laid.patch)) [
        | inl no_code ↦ absurd (cc (rw (right, digested, no_code) at h))
        | inr (table, code) ↦
            link-IsFrom spec laid fp table c right digested (rw (right, digested, code) at h)
      ]
    ]
  ]

  -- The fingerprint of a compiled patch is the digest of the canonical form of its specification.
  pub compile-digested :
      (input : PatchSpec Float) (c : CompiledPatch Float)
      → compile fl so limits input ≡ ok c
      → so.digest (canonical c.spec) ≡ some c.fingerprint
  unfolding compile
  compile-digested input c h =
      let normalized = normalize fl so limits (new_schema_registry fl so) input in
      elim (Bool-cases (has_errors normalized.1)) [
        | inl wrong ↦ absurd (cc (rw wrong at h))
        | inr right ↦
            let made = assemble-IsFrom normalized.0 _ c (rw right at h) in
            subst (λ spec. so.digest (canonical spec) ≡ some c.fingerprint) (sym made.source)
              made.digested
      ]
