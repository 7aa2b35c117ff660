-- ===== src/Patch/Registry/Commits.antt =====
-- What Commit does with a prepared update (internal/patch/registry.go).
use govertone.Common.{
  ℕ, ◌≡◌, ◌≢◌, refl, sym, ap, subst, ◌∙◌, inl, inr, Bool-cases, true, false, none, some, [], ◌==◌,
  arith, if◌then◌else◌,
}
use Prim.Native.String.{String}
use govertone.Common.Maps.{lookup, string_key}
use govertone.Common.Float.{Float64}
use govertone.Common.Result.{ok, err, ok_unique}
use govertone.Patch.Sointu.{Sointu}
use govertone.Patch.Compiler.Normalize.{Limits}
use govertone.Patch.Compiler.Compile.{CompiledPatch}
use govertone.Patch.Names.{normalize_instrument_id}
use govertone.Patch.Registry.{
  Registry, PreparedRegistryUpdate, stale, commit, next_generation, nothing_removed, prepare_remove,
}
use govertone.Patch.Registry.Consistent.{
  IsConsistent, IsReady, IsFor, Prepares, Reaches, start, commits, Prepares-IsFor, Prepares-cases,
  Prepares-base, new_registry-IsConsistent,
}

module _ {F : Type 0} where
  -- The registry after the commit of an update that is not stale.
  abbrev committed : Registry F → PreparedRegistryUpdate F → CompiledPatch F → Registry F
  committed r u c =
      let generation = if u.changed then c.generation else r.generation in
      record {
        definitions = u.definitions;
        order = u.order;
        compiled = if u.changed then c else record c { generation = r.generation };
        generation = generation;
      }

  commit-committed :
      (r : Registry F) (u : PreparedRegistryUpdate F) (c : CompiledPatch F)
      → u.base_generation ≡ r.generation
      → u.compiled ≡ some c
      → commit r u ≡ ok (committed r u c)
  unfolding commit
  commit-committed r u c base given =
      let same : (u.base_generation == r.generation) ≡ true = ground arith in
      elim (Bool-cases u.changed) [
        | inl changed ↦ rw (same, changed, given) refl
        | inr kept ↦ rw (same, kept, given) refl
      ]

  commit-base :
      (r r' : Registry F) (u : PreparedRegistryUpdate F)
      → commit r u ≡ ok r'
      → u.base_generation ≡ r.generation
  unfolding commit
  commit-base r r' u h = elim (Bool-cases (u.base_generation == r.generation)) [
    | inl same ↦ ground arith
    | inr other ↦ absurd (cc (rw other at h))
  ]

  commit-stale :
      (r : Registry F) (u : PreparedRegistryUpdate F)
      → u.base_generation ≢ r.generation
      → commit r u ≡ err stale
  unfolding commit
  commit-stale r u other =
      let differ : (u.base_generation == r.generation) ≡ false = ground arith in rw differ refl

next-ne : (g : ℕ) → next_generation g ≢ g
next-ne g e = absurd (omega arith)

module _ (fl : Float64) (so : Sointu fl.Float) (limits : Limits) where
  open fl use {Float}

  committed-IsConsistent :
      (r : Registry Float) (u : PreparedRegistryUpdate Float) (ready : IsReady fl so limits u)
      → IsConsistent fl so limits (committed r u ready.patch)
  committed-IsConsistent r u ready = elim (Bool-cases u.changed) [
    | inl changed ↦ rw changed (record { inner = ready.inner; current = refl })
    | inr kept ↦
        let inner = ready.inner in
        rw kept (record {
          inner = record {
            lists = inner.lists;
            base = inner.base;
            made = inner.made;
            same =
                ap (λ (c : CompiledPatch Float). record c { generation = r.generation }) inner.same;
          };
          current = refl;
        })
  ]

  pub commit-IsConsistent :
      (r r' : Registry Float) (u : PreparedRegistryUpdate Float)
      → IsReady fl so limits u
      → commit r u ≡ ok r'
      → IsConsistent fl so limits r'
  commit-IsConsistent r r' u ready h =
      subst (IsConsistent fl so limits)
        (ok_unique (commit r u) _ r'
          (commit-committed r u ready.patch (commit-base r r' u h) ready.given) h)
        (committed-IsConsistent r u ready)

  pub commit-changed :
      (r r' : Registry Float) (u : PreparedRegistryUpdate Float) (ready : IsReady fl so limits u)
      → u.changed ≡ true
      → commit r u ≡ ok r'
      → (r'.compiled ≡ ready.patch) × (r'.generation ≡ ready.patch.generation)
  commit-changed r r' u ready changed h =
      let c = ready.patch in
      let same =
        ok_unique (commit r u) _ r' (commit-committed r u c (commit-base r r' u h) ready.given) h in
      (
        ap (λ (q : Registry Float). q.compiled) (sym same)
            ∙ ap (λ b. if b then c else record c { generation = r.generation }) changed,
        ap (λ (q : Registry Float). q.generation) (sym same)
            ∙ ap (λ b. if b then c.generation else r.generation) changed,
      )

  pub commit-unchanged :
      (r r' : Registry Float) (u : PreparedRegistryUpdate Float) (ready : IsReady fl so limits u)
      → u.changed ≡ false
      → commit r u ≡ ok r'
      → r'.compiled ≡ record ready.patch { generation = r.generation }
  commit-unchanged r r' u ready kept h =
      let c = ready.patch in
      let same =
        ok_unique (commit r u) _ r' (commit-committed r u c (commit-base r r' u h) ready.given) h in
      ap (λ (q : Registry Float). q.compiled) (sym same)
      ∙ ap (λ b. if b then c else record c { generation = r.generation }) kept

  -- Whatever updates are prepared and committed, and in whatever order, but for the update of the
  -- removal of an ID that is not defined, which carries no patch: the order of the registry lists
  -- each defined ID once and nothing else, the patch in force is what the compiler makes of the
  -- definitions in that order, and it has the generation of the registry.
  pub Reaches-IsConsistent :
      (r : Registry Float) → Reaches fl so limits r → IsConsistent fl so limits r
  Reaches-IsConsistent r (start initial h) = new_registry-IsConsistent fl so limits initial r h
  Reaches-IsConsistent r' (commits {earlier} {r} {u} before p patched now h) =
      let lists = (Reaches-IsConsistent earlier before).inner.lists in
      commit-IsConsistent r r' u (Prepares-IsFor fl so limits earlier u lists p patched).ready h

  -- Removing an ID that is not defined: PrepareRemove succeeds, and the commit of its update to the
  -- same registry empties the definitions and their order, while the patch and the generation stay.
  pub commit-undefined :
      (r : Registry Float) (raw id : String)
      → normalize_instrument_id raw ≡ ok id
      → lookup id r.definitions ≡ none
      → (u : PreparedRegistryUpdate Float) × (prepare_remove fl so limits r raw ≡ ok u)
        × (commit r u ≡ ok (record r { definitions = []; order = [] }))
  unfolding prepare_remove commit
  commit-undefined r raw id named absent =
      let same : (r.generation == r.generation) ≡ true = ground arith in
      (nothing_removed fl so limits r, rw (named, absent, prepare_remove) refl, rw same refl)

  committed-generation :
      (r : Registry Float) (u : PreparedRegistryUpdate Float) (for : IsFor fl so limits r u)
      → (committed r u for.ready.patch).generation
        ≡ (if u.changed then next_generation r.generation else r.generation)
  committed-generation r u for = elim (Bool-cases u.changed) [
    | inl changed ↦ rw changed (rw changed at for.next)
    | inr kept ↦ rw kept refl
  ]

  nothing-commits :
      (r : Registry Float)
      → let u = nothing_removed fl so limits r in
        (r' : Registry Float) × (commit r u ≡ ok r')
        × (r'.definitions ≡ u.definitions)
        × (r'.order ≡ u.order)
        × (r'.generation ≡ (if u.changed then next_generation r.generation else r.generation))
        × (u.changed ≡ false → r'.compiled.fingerprint ≡ r.compiled.fingerprint)
  unfolding commit
  nothing-commits r =
      let same : (r.generation == r.generation) ≡ true = ground arith in
      (record r { definitions = []; order = [] }, rw same refl, refl, refl, refl, λ e. refl)

  -- An update that is committed to the registry it was prepared from goes in: it raises the
  -- generation by one when it changes the patch, and keeps the generation and the fingerprint when
  -- it does not.
  pub commit-prepared :
      (r : Registry Float) (u : PreparedRegistryUpdate Float)
      → IsConsistent fl so limits r
      → Prepares fl so limits r u
      → (r' : Registry Float) × (commit r u ≡ ok r')
        × (r'.definitions ≡ u.definitions)
        × (r'.order ≡ u.order)
        × (r'.generation ≡ (if u.changed then next_generation r.generation else r.generation))
        × (u.changed ≡ false → r'.compiled.fingerprint ≡ r.compiled.fingerprint)
  commit-prepared r u sound p = elim (Prepares-cases fl so limits r u sound.inner.lists p) [
    | inl for ↦ (
      committed r u for.ready.patch,
      commit-committed r u for.ready.patch for.base for.ready.given,
      refl,
      refl,
      committed-generation r u for,
      λ e. rw e (for.unchanged e),
    )
    | inr nothing ↦ rw (← nothing) (nothing-commits r)
  ]

  -- Of two updates that are prepared from one registry only one changes the patch: after the commit
  -- of one that changes it, the commit of the other is refused as stale.
  pub commit-once :
      (r r' : Registry Float) (u v : PreparedRegistryUpdate Float)
      → IsConsistent fl so limits r
      → Prepares fl so limits r u
      → Prepares fl so limits r v
      → u.changed ≡ true
      → commit r u ≡ ok r'
      → commit r' v ≡ err stale
  commit-once r r' u v sound pu pv changed h =
      elim (Prepares-cases fl so limits r u sound.inner.lists pu) [
        | inr nothing ↦ absurd (cc (ap (λ (w : PreparedRegistryUpdate Float). w.changed) nothing))
        | inl for_u ↦
            let base_v = Prepares-base fl so limits r v sound.inner.lists pv in
            let same =
              ok_unique (commit r u) _ r'
                (commit-committed r u for_u.ready.patch for_u.base for_u.ready.given) h in
            commit-stale r' v (λ e. next-ne r.generation (
              sym (
                committed-generation r u for_u
                ∙ ap (λ b. if b then next_generation r.generation else r.generation) changed)
              ∙ (ap (λ (q : Registry Float). q.generation) same ∙ (sym e ∙ base_v))))
      ]
