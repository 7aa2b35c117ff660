-- ===== src/Lisp/Install/InSync.antt =====
-- The engine, the registry and the allocator after an installation
-- (internal/lisp/patch_bindings.go, installCandidate).
use Prim.Native.String.{String}
use govertone.Common.{
  ℕ, ◌≡◌, ◌≢◌, refl, sym, ap, subst, ◌∙◌, inl, inr, Bool-cases, true, false, some, List,
  if◌then◌else◌,
}
use govertone.Common.Float.{Float64}
use govertone.Common.Text.{str_eq, str_eq_iff}
use govertone.Common.Result.{ok}
use govertone.Instruments.Voices.{reset}
use govertone.Audio.Synth.{Synth}
use govertone.Audio.PatchUpdate.{PatchUpdateResult, update_patch}
use govertone.Patch.Sointu.{Sointu, SointuInstrument}
use govertone.Patch.Compiler.Normalize.{Limits}
use govertone.Patch.Compiler.Compile.{CompiledPatch}
use govertone.Patch.Registry.{Registry, PreparedRegistryUpdate, commit, next_generation}
use govertone.Patch.Registry.Consistent.{is_some, IsConsistent, Prepares, Prepares-IsFor}
use govertone.Patch.Registry.Commits.{commit-IsConsistent, commit-changed, commit-prepared}
use govertone.Lisp.Install.{
  Runtime, engine_patch, settle, acknowledge, install_changed, install_unchanged, install_candidate,
}

module _ (fl : Float64) (sy : Synth fl.Float) (to_patch : List SointuInstrument → sy.Patch)
    (so : Sointu fl.Float) (limits : Limits) where
  open fl use {Float, to_int}
  open sy use {update}

  abbrev State : Type 0
  State = Runtime fl sy to_patch

  -- The three parts agree on the generation, and the engine and the registry on the fingerprint.
  pub record IsInSync (s : State) : Type 0 where
    pub generation : s.engine.generation ≡ s.registry.generation
    pub fingerprint : s.engine.fingerprint ≡ s.registry.compiled.fingerprint
    pub allocator : s.allocator.generation ≡ s.registry.generation
    pub registry : IsConsistent fl so limits s.registry

  -- A registry that follows, with its generation and its fingerprint.
  record Follows (r : Registry Float) (generation : ℕ) (fingerprint : String) : Type 0 where
    consistent : IsConsistent fl so limits r
    generation_lem : r.generation ≡ generation
    fingerprint_lem : r.compiled.fingerprint ≡ fingerprint

  unchanged-IsInSync :
      (s : State) (u : PreparedRegistryUpdate Float) (r : Registry Float)
      → IsInSync s
      → Follows r s.registry.generation s.registry.compiled.fingerprint
      → IsInSync (install_unchanged fl sy to_patch s u (ok r)).0
  unfolding install_unchanged
  unchanged-IsInSync s u r sync f = record {
    generation = sync.generation ∙ sym f.generation_lem;
    fingerprint = sync.fingerprint ∙ sym f.fingerprint_lem;
    allocator = sync.allocator ∙ sym f.generation_lem;
    registry = f.consistent;
  }

  settle-IsInSync :
      (s : State) (c : CompiledPatch Float) (result : PatchUpdateResult) (r : Registry Float)
      → s.engine.generation ≡ c.generation
      → s.engine.fingerprint ≡ c.fingerprint
      → result.generation ≡ c.generation
      → Follows r c.generation c.fingerprint
      → IsInSync (settle fl sy to_patch s c result (ok r)).0
  unfolding settle reset
  settle-IsInSync s c result r generation fingerprint acknowledged f = record {
    generation = generation ∙ sym f.generation_lem;
    fingerprint = fingerprint ∙ sym f.fingerprint_lem;
    allocator = acknowledged ∙ sym f.generation_lem;
    registry = f.consistent;
  }

  -- The update of the engine when the fingerprint is new.
  changed-IsInSync :
      (s : State) (u : PreparedRegistryUpdate Float) (tempo : Float) (c : CompiledPatch Float)
      (r : Registry Float)
      → IsInSync s
      → str_eq c.fingerprint s.engine.fingerprint ≡ false
      → commit s.registry u ≡ ok r
      → Follows r c.generation c.fingerprint
      → IsInSync (install_changed fl sy to_patch s u tempo (some c)).0
  unfolding install_changed update_patch acknowledge engine_patch
  changed-IsInSync s u tempo c r sync new done f =
      elim (Bool-cases (update s.engine.run.engine.synth (to_patch c.patch) (to_int tempo)).1) [
        | inl taken ↦ rw (new, taken, done) (settle-IsInSync _ c _ r refl refl refl f)
        | inr refused ↦
            rw (new, refused)
              (record {
                generation = sync.generation;
                fingerprint = sync.fingerprint;
                allocator = sync.allocator;
                registry = sync.registry;
              })
      ]

  -- A prepared update with a patch that is installed leaves the engine, the registry and the allocator
  -- of voices in step, also when the synth refuses the patch: one generation for the three, and one
  -- fingerprint. A changed patch is taken to have another fingerprint than the one in force.
  pub install_candidate-IsInSync :
      (s : State) (u : PreparedRegistryUpdate Float) (tempo : Float)
      → IsInSync s
      → Prepares fl so limits s.registry u
      → is_some u.compiled ≡ true
      → ((c : CompiledPatch Float)
          → u.changed ≡ true
          → u.compiled ≡ some c
          → c.fingerprint ≢ s.registry.compiled.fingerprint)
      → IsInSync (install_candidate fl sy to_patch s u tempo).0
  unfolding install_candidate
  install_candidate-IsInSync s u tempo sync p patched differs =
      let for = Prepares-IsFor fl so limits s.registry u sync.registry.inner.lists p patched in
      let c = for.ready.patch in
      let (r, done, _, _, generation, kept) =
        commit-prepared fl so limits s.registry u sync.registry p in
      let sound = commit-IsConsistent fl so limits s.registry r u for.ready done in
      elim (Bool-cases u.changed) [
        | inl changed ↦
            let (installed, at) =
              commit-changed fl so limits s.registry r u for.ready changed done in
            let new : str_eq c.fingerprint s.engine.fingerprint ≡ false =
              elim (Bool-cases (str_eq c.fingerprint s.engine.fingerprint)) [
                | inl equal ↦ absurd (
                    differs c changed for.ready.given ((str_eq_iff _ _).0 equal ∙ sync.fingerprint))
                | inr other ↦ other
              ] in
            let follows : Follows r c.generation c.fingerprint = record {
              consistent = sound;
              generation_lem = at;
              fingerprint_lem = ap (λ (q : CompiledPatch Float). q.fingerprint) installed;
            } in
            subst
              (λ b.
                IsInSync
                  (if b
                    then install_changed fl sy to_patch s u tempo u.compiled
                    else install_unchanged fl sy to_patch s u (commit s.registry u)).0)
              (sym changed)
              (subst (λ o. IsInSync (install_changed fl sy to_patch s u tempo o).0)
                (sym for.ready.given) (changed-IsInSync s u tempo c r sync new done follows))
        | inr same ↦
            let follows : Follows r s.registry.generation s.registry.compiled.fingerprint = record {
              consistent = sound;
              generation_lem =
                  generation
                  ∙ ap
                      (λ b.
                        if b then next_generation s.registry.generation else s.registry.generation)
                      same;
              fingerprint_lem = kept same;
            } in
            subst
              (λ b.
                IsInSync
                  (if b
                    then install_changed fl sy to_patch s u tempo u.compiled
                    else install_unchanged fl sy to_patch s u (commit s.registry u)).0)
              (sym same)
              (subst (λ o. IsInSync (install_unchanged fl sy to_patch s u o).0) (sym done)
                (unchanged-IsInSync s u r sync follows))
      ]
