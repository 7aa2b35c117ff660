-- ===== src/Patch/Registry/Consistent.antt =====
-- The registry keeps its definitions, their order and the compiled patch together
-- (internal/patch/registry.go).
use Prim.Native.String.{String}
use govertone.Common.{
  ◌≡◌, ◌⊎◌, refl, sym, ap, subst, inl, inr, Bool, Bool-cases, Option-cases, true, false, Option,
  none, some, List, [], ◌∷◌, ◌++◌, length, ◌==◌, arith, if◌then◌else◌,
}
use govertone.Common.Float.{Float64}
use govertone.Common.Maps.{lookup, put, delete, string_key, lookup-put, lookup-delete, lookup-nil}
use govertone.Common.Text.{str_eq, str_eq_iff}
use govertone.Common.Result.{Result, ok, bind_inv, outcome, returned, failed, panicked}
use govertone.Patch.Names.{normalize_instrument_id}
use govertone.Patch.Model.{InstrumentSpec}
use govertone.Patch.Sointu.{Sointu}
use govertone.Patch.Schema.{member}
use govertone.Patch.Compiler.Normalize.{Limits}
use govertone.Patch.Compiler.Compile.{CompiledPatch}
use govertone.Patch.Registry.{
  Registry, PreparedRegistryUpdate, RegistryError, new_instrument, commit, compile_candidate,
  collect, new_registry, prepare_upsert, prepare_definition, order_with, upserted, prepare_remove,
  remove_known, removed_from, nothing_removed, next_generation, without,
}
use govertone.Patch.Registry.Names.{
  Distinct, member-snoc, member-without, snoc-Distinct, without-Distinct,
}

abbrev pub is_some {ℓ} : {A : Type ℓ} → Option A → Bool
is_some none = false
is_some (some x) = true

-- The order lists each defined ID once, and nothing else.
pub record Lists {F : Type 0} (definitions : List (String × InstrumentSpec F)) (order : List String)
    : Type 0 where
  pub distinct : Distinct order
  pub listed : (id : String) → is_some (lookup id definitions) ≡ member id order

module _ {F : Type 0} where
  put_new-Lists :
      (id : String) (i : InstrumentSpec F) (definitions : List (String × InstrumentSpec F))
      (order : List String)
      → lookup id definitions ≡ none
      → Lists definitions order
      → Lists (put id i definitions) (order ++ id ∷ [])
  put_new-Lists id i definitions order fresh l = record {
    distinct = snoc-Distinct id order (ground (arith, l.listed id)) l.distinct;
    listed = λ j. ground (
      arith,
      lookup-put id j i definitions,
      member-snoc j id order,
      l.listed j,
      str_eq_iff id j,
      str_eq_iff j id,
    );
  }

  put_old-Lists :
      (id : String) (i old : InstrumentSpec F) (definitions : List (String × InstrumentSpec F))
      (order : List String)
      → lookup id definitions ≡ some old
      → Lists definitions order
      → Lists (put id i definitions) order
  put_old-Lists id i old definitions order known l = record {
    distinct = l.distinct;
    listed = λ j.
        ground (arith, lookup-put id j i definitions, l.listed j, l.listed id, str_eq_iff id j);
  }

  delete-Lists :
      (id : String) (definitions : List (String × InstrumentSpec F)) (order : List String)
      → Lists definitions order
      → Lists (delete id definitions) (without id order)
  delete-Lists id definitions order l = record {
    distinct = without-Distinct id order l.distinct;
    listed = λ j. ground (
      arith,
      lookup-delete id j definitions,
      member-without j id order,
      l.listed j,
      str_eq_iff id j,
      str_eq_iff j id,
    );
  }

module _ (fl : Float64) (so : Sointu fl.Float) (limits : Limits) where
  open fl use {Float}

  -- The patch is what the compiler makes of the definitions in their order, but for its generation.
  pub record Consistent (definitions : List (String × InstrumentSpec Float)) (order : List String)
      (c : CompiledPatch Float) : Type 0 where
    pub lists : Lists definitions order
    pub base : CompiledPatch Float
    pub made : compile_candidate fl so limits definitions order ≡ ok base
    pub same : c ≡ record base { generation = c.generation }

  pub record IsConsistent (r : Registry Float) : Type 0 where
    pub inner : Consistent r.definitions r.order r.compiled
    pub current : r.compiled.generation ≡ r.generation

  -- A prepared update: with its patch, or of an ID that is not defined.
  pub record IsReady (u : PreparedRegistryUpdate Float) : Type 0 where
    pub patch : CompiledPatch Float
    pub given : u.compiled ≡ some patch
    pub inner : Consistent u.definitions u.order patch

  -- What one call prepares from a registry.
  pub data Prepares (r : Registry Float) (u : PreparedRegistryUpdate Float) : Type 0 where
    upsert :
        (spec : InstrumentSpec Float) → prepare_upsert fl so limits r spec ≡ ok u → Prepares r u
    remove : (id : String) → prepare_remove fl so limits r id ≡ ok u → Prepares r u

  -- The registries that come to be: a commit may follow its preparation after other commits. An
  -- update without a patch, which is that of an ID that is not defined, is not committed.
  pub data Reaches : Registry Float → Type 0 where
    start :
        (initial : List (InstrumentSpec Float)) {r : Registry Float}
        → new_registry fl so limits initial ≡ ok r
        → Reaches r
    commits :
        {earlier r r' : Registry Float} {u : PreparedRegistryUpdate Float}
        → Reaches earlier
        → Prepares earlier u
        → is_some u.compiled ≡ true
        → Reaches r
        → commit r u ≡ ok r'
        → Reaches r'

  collect-Lists :
      (is : List (InstrumentSpec Float)) (definitions : List (String × InstrumentSpec Float))
      (order : List String) (s : List (String × InstrumentSpec Float) × List String)
      → Lists definitions order
      → collect fl so limits is definitions order ≡ ok s
      → Lists s.0 s.1
  unfolding collect
  collect-Lists [] definitions order s l h =
      subst (λ (t : List (String × InstrumentSpec Float) × List String). Lists t.0 t.1) (cc) l
  collect-Lists (i ∷ is) definitions order s l h = elim (Option-cases (lookup i.id definitions)) [
    | inl fresh ↦
        collect-Lists is (put i.id i definitions) (order ++ i.id ∷ []) s
          (put_new-Lists i.id i definitions order fresh l) (rw (fresh, collect) at h)
    | inr (old, known) ↦ absurd (cc (rw (known, collect) at h))
  ]

  opened :
      (s : List (String × InstrumentSpec Float) × List String) (c : CompiledPatch Float)
      → Lists s.0 s.1
      → compile_candidate fl so limits s.0 s.1 ≡ ok c
      → IsConsistent (record {
        definitions = s.0;
        order = s.1;
        compiled = record c { generation = 1 };
        generation = 1;
      })
  opened s c lists made = record {
    inner = record { lists = lists; base = c; made = made; same = refl };
    current = refl;
  }

  pub new_registry-IsConsistent :
      (initial : List (InstrumentSpec Float)) (r : Registry Float)
      → new_registry fl so limits initial ≡ ok r
      → IsConsistent r
  unfolding new_registry
  new_registry-IsConsistent initial r h =
      let (s, rest, collected) = bind_inv (collect fl so limits initial [] []) _ r h in
      let (c, done, made) = bind_inv (compile_candidate fl so limits s.0 s.1) _ r rest in
      let lists =
        collect-Lists initial [] [] s
          (record { distinct = tt; listed = λ id. ap is_some (lookup-nil id) }) collected in
      subst IsConsistent (cc) (opened s c lists made)

  order_with-Lists :
      (r : Registry Float) (i : InstrumentSpec Float)
      → Lists r.definitions r.order
      → Lists (put i.id i r.definitions) (order_with fl so limits r i.id)
  unfolding order_with
  order_with-Lists r i l = elim (Option-cases (lookup i.id r.definitions)) [
    | inl fresh ↦ rw (fresh, order_with) (put_new-Lists i.id i r.definitions r.order fresh l)
    | inr (old, known) ↦
        rw (known, order_with) (put_old-Lists i.id i old r.definitions r.order known l)
  ]

  -- What a call prepares from a registry is ready, is based on it, and has the generation to come.
  pub record IsFor (r : Registry Float) (u : PreparedRegistryUpdate Float) : Type 0 where
    pub ready : IsReady u
    pub base : u.base_generation ≡ r.generation
    pub next :
        ready.patch.generation ≡ (if u.changed then next_generation r.generation else r.generation)
    pub unchanged : u.changed ≡ false → ready.patch.fingerprint ≡ r.compiled.fingerprint

  upserted-IsFor :
      (r : Registry Float) (i : InstrumentSpec Float) (c : CompiledPatch Float)
      → Lists r.definitions r.order
      → compile_candidate fl so limits (put i.id i r.definitions) (order_with fl so limits r i.id)
        ≡ ok c
      → IsFor r (upserted fl so limits r i c)
  upserted-IsFor r i c l made = record {
    ready = record {
      patch = record c {
        generation =
            if str_eq c.fingerprint r.compiled.fingerprint
            then r.generation
            else next_generation r.generation;
      };
      given = refl;
      inner = record { lists = order_with-Lists r i l; base = c; made = made; same = refl };
    };
    base = refl;
    next = ground arith;
    unchanged = λ e. ground (arith, str_eq_iff c.fingerprint r.compiled.fingerprint);
  }

  removed_from-IsFor :
      (r : Registry Float) (id : String) (c : CompiledPatch Float)
      → Lists r.definitions r.order
      → compile_candidate fl so limits (delete id r.definitions) (without id r.order) ≡ ok c
      → IsFor r (removed_from fl so limits r id c)
  removed_from-IsFor r id c l made = record {
    ready = record {
      patch = record c { generation = next_generation r.generation };
      given = refl;
      inner = record {
        lists = delete-Lists id r.definitions r.order l;
        base = c;
        made = made;
        same = refl;
      };
    };
    base = refl;
    next = refl;
    unchanged = λ e. cc;
  }

  remove_known-IsFor :
      (r : Registry Float) (id : String) (u : PreparedRegistryUpdate Float)
      → Lists r.definitions r.order
      → remove_known fl so limits r id ≡ ok u
      → IsFor r u
  unfolding remove_known
  remove_known-IsFor r id u l h = elim (Bool-cases (length (without id r.order) == 0)) [
    | inl last ↦ absurd (cc (rw last at h))
    | inr more ↦
        let (c, done, made) =
          bind_inv (compile_candidate fl so limits (delete id r.definitions) (without id r.order)) _
            u (rw more at h) in
        subst (IsFor r) (cc) (removed_from-IsFor r id c l made)
  ]

  -- What a call prepares is an update with a patch, or that of an ID that is not defined.
  pub Prepares-cases :
      (r : Registry Float) (u : PreparedRegistryUpdate Float)
      → Lists r.definitions r.order
      → Prepares r u
      → IsFor r u ⊎ (nothing_removed fl so limits r ≡ u)
  unfolding prepare_upsert prepare_definition prepare_remove
  Prepares-cases r u l (upsert spec h) =
      let (bare, rest, named) = bind_inv (new_instrument spec.id spec.voices spec.units) _ u h in
      let i : InstrumentSpec Float = record bare {
        metadata = spec.metadata;
        parameters = spec.parameters;
      } in
      let (c, done, made) =
        bind_inv
          (compile_candidate fl so limits (put i.id i r.definitions)
            (order_with fl so limits r i.id))
          _ u rest in
      inl (subst (IsFor r) (cc) (upserted-IsFor r i c l made))
  Prepares-cases r u l (remove raw h) = elim (outcome (normalize_instrument_id raw)) [
    | returned id named ↦ elim (Option-cases (lookup id r.definitions)) [
      | inl absent ↦
          let e : ◌≡◌ {A = Result RegistryError (PreparedRegistryUpdate Float)}
              (ok (nothing_removed fl so limits r)) (ok u) =
            rw (named, absent, prepare_remove) at h in
          inr (cc)
      | inr (old, known) ↦
          inl (remove_known-IsFor r id u l (rw (named, known, prepare_remove) at h))
    ]
    | failed why named ↦ absurd (cc (rw (named, prepare_remove) at h))
    | panicked named ↦ absurd (cc (rw (named, prepare_remove) at h))
  ]

  pub Prepares-IsFor :
      (r : Registry Float) (u : PreparedRegistryUpdate Float)
      → Lists r.definitions r.order
      → Prepares r u
      → is_some u.compiled ≡ true
      → IsFor r u
  Prepares-IsFor r u l p patched = elim (Prepares-cases r u l p) [
    | inl for ↦ for
    | inr nothing ↦
        absurd (cc (ap (λ (v : PreparedRegistryUpdate Float). is_some v.compiled) nothing))
  ]

  pub Prepares-base :
      (r : Registry Float) (u : PreparedRegistryUpdate Float)
      → Lists r.definitions r.order
      → Prepares r u
      → u.base_generation ≡ r.generation
  Prepares-base r u l p = elim (Prepares-cases r u l p) [
    | inl for ↦ for.base
    | inr nothing ↦ ap (λ (v : PreparedRegistryUpdate Float). v.base_generation) (sym nothing)
  ]
