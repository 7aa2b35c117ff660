-- ===== src/Patch/Registry.antt =====
-- internal/patch/registry.go: the definitions in force, and updates that are prepared and committed.
-- Its mutex makes every method one step. What the methods copy is a value here.
pub mod Names
pub mod Consistent
pub mod Commits
use Prim.Native.String.{String}
use govertone.Common.{
  ℕ, ◌+◌, ◌%◌, ◌==◌, leb, ltb, Bool, true, false, not, ◌||◌, Option, none, some, List, [], ◌∷◌,
  ◌++◌, map, length, if◌then◌else◌,
}
use govertone.Common.Float.{Float64}
use govertone.Common.Int.{ℤ, pos, ltb_ℤ, u64_mod}
use govertone.Common.Maps.{lookup, lookup_or, put, delete, string_key}
use govertone.Common.Result.{Result, ok, err, panic, ◌>>=◌}
use govertone.Common.Text.{str_eq}
use govertone.Instruments.Voices.{Definition}
use govertone.Patch.Names.{normalize_instrument_id, normalize_unit_id}
use govertone.Patch.Model.{
  UnitSpec, InstrumentSpec, InstrumentMetadata, PatchSpec, SourceInfo, no_source,
}
use govertone.Patch.Sointu.{Sointu}
use govertone.Patch.Schema.{member}
use govertone.Patch.Compiler.Normalize.{Limits}
use govertone.Patch.Compiler.Compile.{
  CompiledPatch, InstrumentLayout, CompiledInstrument, Compiled, compile,
}

pub record PreparedRegistryUpdate (F : Type 0) : Type 0 where
  pub base_generation : ℕ
  pub definitions : List (String × InstrumentSpec F)
  pub order : List String
  pub compiled : Option (CompiledPatch F)
  pub changed : Bool
  pub removed : List String
  pub changed_ids : List String

pub record Registry (F : Type 0) : Type 0 where
  pub definitions : List (String × InstrumentSpec F)
  pub order : List String
  pub compiled : CompiledPatch F
  pub generation : ℕ

pub record RegistrySnapshot (F : Type 0) : Type 0 where
  pub generation : ℕ
  pub fingerprint : String
  pub definitions : List (InstrumentSpec F)
  pub layout : InstrumentLayout

-- The errors of the registry; `not_compiled` is that of the compiler.
pub data RegistryError : Type 0 where
  invalid_id invalid_voices no_units duplicate last_synth stale not_compiled : RegistryError

-- `r.generation + 1`
abbrev pub next_generation : ℕ → ℕ
next_generation g = (g + 1) % u64_mod

abbrev pub without : String → List String → List String
without id [] = []
without id (j ∷ js) = let rest = without id js in if str_eq j id then rest else j ∷ rest

abbrev pub zero_compiled : CompiledInstrument
zero_compiled = record {
  id = "";
  index = 0;
  first_voice = pos 0;
  num_voices = pos 0;
  unit_ids = [];
  fingerprint = "";
  hard_release_operands = [];
}

module _ {F : Type 0} where
  abbrev pub zero_instrument : InstrumentSpec F
  zero_instrument = record {
    id = "";
    voices = pos 0;
    parameters = [];
    units = [];
    metadata = record { doc = ""; source = no_source; tags = [] };
  }

  -- The loop of NewInstrument over the units.
  unfoldable pub name_units :
      List (UnitSpec F) → List String → Result RegistryError (List (UnitSpec F))
  name_units [] seen = ok []
  name_units (u ∷ us) seen =
      let plain = name_units us seen >>= λ rest. ok (u ∷ rest) in
      let named = elim (normalize_unit_id u.id) as (λ r. Result RegistryError (List (UnitSpec F))) [
        | ok uid ↦
            let rest = name_units us (uid ∷ seen) >>= λ rest. ok (record u { id = uid } ∷ rest) in
            if member uid seen then err duplicate else rest
        | _ ↦ err invalid_id
      ] in
      if u.explicit_id then named else plain

  -- NewInstrument
  unfoldable pub new_instrument :
      String → ℤ → List (UnitSpec F) → Result RegistryError (InstrumentSpec F)
  new_instrument id voices units = elim (normalize_instrument_id id) [
    | ok name ↦
        if ltb_ℤ voices (pos 1) || ltb_ℤ (pos 32) voices
        then err invalid_voices
        else if length units == 0
        then err no_units
        else name_units units [] >>= λ named.
            ok (record zero_instrument { id = name; voices = voices; units = named })
    | _ ↦ err invalid_id
  ]

  unfoldable pub definitions_in :
      List (String × InstrumentSpec F) → List String → List (InstrumentSpec F)
  definitions_in definitions order = map (λ id. lookup_or zero_instrument id definitions) order

  -- The specification that `compileCandidate` and `patchSpecLocked` compile.
  unfoldable pub candidate : List (String × InstrumentSpec F) → List String → PatchSpec F
  candidate definitions order = record {
    instruments = definitions_in definitions order;
    source = no_source;
  }

  -- Commit. An update that is changed without a patch would be a nil dereference.
  unfoldable pub commit : Registry F → PreparedRegistryUpdate F → Result RegistryError (Registry F)
  commit r u =
      let kept : CompiledPatch F = elim u.compiled [
        | none ↦ r.compiled
        | some c ↦ record c { generation = r.generation }
      ] in
      if not (u.base_generation == r.generation)
      then err stale
      else if not u.changed
      then ok (record r { definitions = u.definitions; order = u.order; compiled = kept })
      else elim u.compiled [
        | none ↦ panic
        | some c ↦ ok (record {
          definitions = u.definitions;
          order = u.order;
          compiled = c;
          generation = c.generation;
        })
      ]

  unfoldable pub snapshot : Registry F → RegistrySnapshot F
  snapshot r = record {
    generation = r.generation;
    fingerprint = r.compiled.fingerprint;
    definitions = definitions_in r.definitions r.order;
    layout = r.compiled.layout;
  }

  -- Instruments
  unfoldable pub instruments : Registry F → List Definition
  instruments r =
      map
        (λ id.
          let c = lookup_or zero_compiled id r.compiled.layout.instruments in
          record { id = id; first_voice = c.first_voice; voices = c.num_voices })
        r.compiled.layout.ordered_ids

module _ (fl : Float64) (so : Sointu fl.Float) (limits : Limits) where
  open fl use {Float}

  abbrev pub Prepared : Type 0
  Prepared = Result RegistryError (PreparedRegistryUpdate Float)

  unfoldable pub compile_candidate :
      List (String × InstrumentSpec Float)
      → List String
      → Result RegistryError (CompiledPatch Float)
  compile_candidate definitions order = elim (compile fl so limits (candidate definitions order)) [
    | ok c ↦ ok c
    | err ds ↦ err not_compiled
    | panic ↦ panic
  ]

  -- The loop of NewRegistry over the first definitions.
  unfoldable pub collect :
      List (InstrumentSpec Float)
      → List (String × InstrumentSpec Float)
      → List String
      → Result RegistryError (List (String × InstrumentSpec Float) × List String)
  collect [] definitions order = ok (definitions, order)
  collect (i ∷ is) definitions order = elim (lookup i.id definitions) [
    | some old ↦ err duplicate
    | none ↦ collect is (put i.id i definitions) (order ++ i.id ∷ [])
  ]

  unfoldable pub new_registry : List (InstrumentSpec Float) → Result RegistryError (Registry Float)
  new_registry initial = collect initial [] [] >>= λ start.
      compile_candidate start.0 start.1 >>= λ c. ok (record {
        definitions = start.0;
        order = start.1;
        compiled = record c { generation = 1 };
        generation = 1;
      })

  -- The order with an ID in it.
  unfoldable pub order_with : Registry Float → String → List String
  order_with r id = elim (lookup id r.definitions) [
    | some old ↦ r.order
    | none ↦ r.order ++ id ∷ []
  ]

  abbrev pub upserted :
      Registry Float → InstrumentSpec Float → CompiledPatch Float → PreparedRegistryUpdate Float
  upserted r i c =
      let same = str_eq c.fingerprint r.compiled.fingerprint in
      record {
        base_generation = r.generation;
        definitions = put i.id i r.definitions;
        order = order_with r i.id;
        compiled =
            some (record c {
              generation = if same then r.generation else next_generation r.generation;
            });
        changed = not same;
        removed = [];
        changed_ids = i.id ∷ [];
      }

  -- PrepareUpsert from the normalized definition on.
  unfoldable pub prepare_definition : Registry Float → InstrumentSpec Float → Prepared
  prepare_definition r i =
      compile_candidate (put i.id i r.definitions) (order_with r i.id) >>= λ c. ok (upserted r i c)

  unfoldable pub prepare_upsert : Registry Float → InstrumentSpec Float → Prepared
  prepare_upsert r spec = new_instrument spec.id spec.voices spec.units >>= λ bare.
      prepare_definition r (record bare { metadata = spec.metadata; parameters = spec.parameters })

  -- What PrepareRemove returns for an ID that is not defined.
  abbrev pub nothing_removed : Registry Float → PreparedRegistryUpdate Float
  nothing_removed r = record {
    base_generation = r.generation;
    definitions = [];
    order = [];
    compiled = none;
    changed = false;
    removed = [];
    changed_ids = [];
  }

  abbrev pub removed_from :
      Registry Float → String → CompiledPatch Float → PreparedRegistryUpdate Float
  removed_from r id c = record {
    base_generation = r.generation;
    definitions = delete id r.definitions;
    order = without id r.order;
    compiled = some (record c { generation = next_generation r.generation });
    changed = true;
    removed = id ∷ [];
    changed_ids = [];
  }

  unfoldable pub remove_known : Registry Float → String → Prepared
  remove_known r id =
      if length (without id r.order) == 0
      then err last_synth
      else compile_candidate (delete id r.definitions) (without id r.order) >>= λ c.
          ok (removed_from r id c)

  unfoldable pub prepare_remove : Registry Float → String → Prepared
  prepare_remove r raw = elim (normalize_instrument_id raw) [
    | ok id ↦ elim (lookup id r.definitions) [
      | none ↦ ok (nothing_removed r)
      | some old ↦ remove_known r id
    ]
    | _ ↦ err invalid_id
  ]
