-- ===== src/Lisp/Install/Controls.antt =====
-- The control bindings of the engine after an installation (internal/lisp/patch_bindings.go,
-- installCandidate, and internal/patch/fingerprint.go).
use Prim.Native.String.{String}
use govertone.Common.{
  ◌≡◌, refl, sym, ap, subst, ◌∙◌, false, not, Option, none, some, List, if◌then◌else◌,
}
use govertone.Common.Float.{Float64}
use govertone.Common.Maps.{put, string_key}
use govertone.Common.Text.{str_eq, str_eq_iff}
use govertone.Common.Result.{ok, bind_inv, outcome, returned, failed, panicked}
use govertone.Audio.Synth.{Synth}
use govertone.Patch.Sointu.{Sointu, SointuInstrument}
use govertone.Patch.Model.{InstrumentSpec, canonical}
use govertone.Patch.Compiler.Normalize.{Limits}
use govertone.Patch.Compiler.Compile.{CompiledPatch, compile}
use govertone.Patch.Compiler.Compile.Returned.{compile-digested}
use govertone.Patch.Registry.{
  Registry, PreparedRegistryUpdate, new_instrument, candidate, compile_candidate, order_with,
  prepare_definition, prepare_upsert, upserted, commit,
}
use govertone.Patch.Registry.Consistent.{is_some, Consistent, upsert, Prepares-IsFor}
use govertone.Patch.Registry.Commits.{commit-prepared, commit-unchanged}
use govertone.Lisp.Install.{
  Runtime, Installed, install_changed, install_unchanged, install_candidate,
}
use govertone.Lisp.Install.InSync.{IsInSync}

module _ (fl : Float64) (so : Sointu fl.Float) (limits : Limits) where
  open fl use {Float}

  candidate-digested :
      (definitions : List (String × InstrumentSpec Float)) (order : List String)
      (c : CompiledPatch Float)
      → compile_candidate fl so limits definitions order ≡ ok c
      → so.digest (canonical c.spec) ≡ some c.fingerprint
  unfolding compile_candidate
  candidate-digested definitions order c h =
      let compiled = compile fl so limits (candidate definitions order) in
      elim (outcome compiled) [
        | returned c' made ↦
            let same : c' ≡ c = cc (rw (made, compile_candidate) at h) in
            subst (λ (q : CompiledPatch Float). so.digest (canonical q.spec) ≡ some q.fingerprint)
              same (compile-digested fl so limits (candidate definitions order) c' made)
        | failed why made ↦ absurd (cc (rw (made, compile_candidate) at h))
        | panicked made ↦ absurd (cc (rw (made, compile_candidate) at h))
      ]

  inner-digested :
      (definitions : List (String × InstrumentSpec Float)) (order : List String)
      (c : CompiledPatch Float)
      → Consistent fl so limits definitions order c
      → so.digest (canonical c.spec) ≡ some c.fingerprint
  inner-digested definitions order c inner =
      subst (λ (q : CompiledPatch Float). so.digest (canonical q.spec) ≡ some q.fingerprint)
        (sym inner.same) (candidate-digested definitions order inner.base inner.made)

  abbrev fingerprint_of : Option (CompiledPatch Float) → String
  fingerprint_of none = ""
  fingerprint_of (some c) = c.fingerprint

  upserted-changed :
      (r : Registry Float) (i : InstrumentSpec Float) (made : CompiledPatch Float)
      (u : PreparedRegistryUpdate Float) (c : CompiledPatch Float)
      → upserted fl so limits r i made ≡ u
      → u.compiled ≡ some c
      → u.changed ≡ not (str_eq c.fingerprint r.compiled.fingerprint)
  upserted-changed r i made u c same given =
      let patch = ap (λ (v : PreparedRegistryUpdate Float). v.compiled) same ∙ given in
      ap (λ (v : PreparedRegistryUpdate Float). v.changed) (sym same)
      ∙ ap (λ f. not (str_eq f r.compiled.fingerprint)) (ap fingerprint_of patch)

  upsert-changed :
      (r : Registry Float) (spec : InstrumentSpec Float) (u : PreparedRegistryUpdate Float)
      (c : CompiledPatch Float)
      → prepare_upsert fl so limits r spec ≡ ok u
      → u.compiled ≡ some c
      → u.changed ≡ not (str_eq c.fingerprint r.compiled.fingerprint)
  unfolding prepare_upsert prepare_definition
  upsert-changed r spec u c h given =
      let (bare, rest, named) = bind_inv (new_instrument spec.id spec.voices spec.units) _ u h in
      let i : InstrumentSpec Float = record bare {
        metadata = spec.metadata;
        parameters = spec.parameters;
      } in
      let (made, done, _) =
        bind_inv
          (compile_candidate fl so limits (put i.id i r.definitions)
            (order_with fl so limits r i.id))
          _ u rest in
      let same : upserted fl so limits r i made ≡ u = cc in upserted-changed r i made u c same given

module _ (fl : Float64) (sy : Synth fl.Float) (to_patch : List SointuInstrument → sy.Patch)
    (so : Sointu fl.Float) (limits : Limits) where
  open fl use {Float}

  -- A definition that is installed again with other controls, but with the same units and the same
  -- values at the defaults of the controls, leaves the engine as it was, with the old bindings; the
  -- registry takes the new ones.
  pub install_candidate-controls :
      (s : Runtime fl sy to_patch) (spec : InstrumentSpec Float) (u : PreparedRegistryUpdate Float)
      (c : CompiledPatch Float) (tempo : Float)
      → IsInSync fl sy to_patch so limits s
      → prepare_upsert fl so limits s.registry spec ≡ ok u
      → u.compiled ≡ some c
      → canonical c.spec ≡ canonical s.registry.compiled.spec
      → let after = (install_candidate fl sy to_patch s u tempo).0 in
        (after.engine ≡ s.engine) × (after.registry.compiled.bindings ≡ c.bindings)
  unfolding install_candidate install_unchanged
  install_candidate-controls s spec u c tempo sync h given alike =
      let r = s.registry in
      let p = upsert spec h in
      let for = Prepares-IsFor fl so limits r u sync.registry.inner.lists p (ap is_some given) in
      let patch_is : for.ready.patch ≡ c = cc (for.ready.given) in
      let old = inner-digested fl so limits r.definitions r.order r.compiled sync.registry.inner in
      let new =
        subst (λ (q : CompiledPatch Float). so.digest (canonical q.spec) ≡ some q.fingerprint)
          patch_is
          (inner-digested fl so limits u.definitions u.order for.ready.patch for.ready.inner) in
      let alike_digest = sym new ∙ (ap so.digest alike ∙ old) in
      let equal : c.fingerprint ≡ r.compiled.fingerprint = cc in
      let unchanged : u.changed ≡ false =
        upsert-changed fl so limits r spec u c h given ∙ ap not ((str_eq_iff _ _).1 equal) in
      let (r', done, _, _, _, _) = commit-prepared fl so limits r u sync.registry p in
      let installed = commit-unchanged fl so limits r r' u for.ready unchanged done in
      let run : install_candidate fl sy to_patch s u tempo
          ≡ install_unchanged fl sy to_patch s u (ok r') =
        ap
          (λ b.
            if b
            then install_changed fl sy to_patch s u tempo u.compiled
            else install_unchanged fl sy to_patch s u (commit r u))
          unchanged
        ∙ ap (install_unchanged fl sy to_patch s u) done in
      subst
        (λ (o : Installed fl sy to_patch).
          (o.0.engine ≡ s.engine) × (o.0.registry.compiled.bindings ≡ c.bindings))
        (sym run)
        (
          refl,
          ap (λ (q : CompiledPatch Float). q.bindings) installed
              ∙ ap (λ (q : CompiledPatch Float). q.bindings) patch_is,
        )
