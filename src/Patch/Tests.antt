-- ===== src/Patch/Tests.antt =====
-- The compiler and the registry on a small Sointu: three types of units, and a digest that joins the
-- IDs of the instruments.
use Prim.Native.String.{String, ◌++◌ as join}
use govertone.Common.{
  ◌≡◌, refl, ◌↔◌, Bool, true, false, Option, none, some, List, [], ◌∷◌, ◌++◌, if◌then◌else◌, length,
}
use govertone.Common.Float.{whole}
use govertone.Common.Int.{ℤ, pos, negsuc, ◌+ℤ◌, scale}
use govertone.Common.Maps.{string_key, lookup, lookup_or, put, delete}
use govertone.Common.Result.{Result, ok, err, panic}
use govertone.Common.Text.{str_eq}
use govertone.Patch.Names.{
  is_space, is_control, trim_left, trim_right, trim_space, trim_colon, normalize_name,
  ends_in_slash, contains, all_plain, validate_id, id_error, normalize_id, normalize_instrument_id,
  normalize_unit_id,
}
use govertone.Patch.Names.Colons.{normalize_instrument_id-colons}
use govertone.Patch.Model.{
  Content, UnitSpec, InstrumentSpec, PatchSpec, CanonicalInstrument, no_source, int_param,
  float_param, bool_param, enum_param, ref_param, diag, has_errors, canonical_unit,
  canonical_instrument, canonical,
}
use govertone.Patch.Sointu.{Sointu, SointuUnit, UnitParameter}
use govertone.Patch.Schema.{
  behavior, default_param, set_default, alias, update_type, schema_of, find_alias,
  canonical_parameter, parameter_schema, add_parameters, sointu_schemas, oscillator_views,
  envelope_defaults, filter_views, delay_range, send_target, new_schema_registry,
}
use govertone.Patch.Compiler.Normalize.{
  default_limits, decimal, unit_name, error_code, controllable, bool_int, integer_of,
  normalize_reference, normalize_enum, normalize_parameter, normalize_descriptor,
}
use govertone.Patch.Compiler.Parameters
use govertone.Patch.Compiler.Parameters.{
  normalize_virtual_parameters, add_defaults, store_parameter, bind_control, add_parameter,
}
use govertone.Patch.Compiler.Spec.{
  unused_controls, unit_source, locate, complete_unit, normalize_unit, normalize_units,
  normalize_descriptors, normalize_instrument, normalize_instruments, normalize,
}
use govertone.Patch.Compiler.Stack.{stack_loop, analyze_stack}
use govertone.Patch.Compiler.Stack.Depth.{Fits, depth_after, analyze_stack_iff}
use govertone.Patch.Compiler.Operands.{
  modulation_port, output_gain_parameters, insert_name, sort_names, operands_of, number_units,
  number_instruments, total_units, has_enabled_envelope, hard_release_operands, unit_indices,
  parameter_int, resolve, convert_parameter, convert_parameters, convert_units,
}
use govertone.Patch.Compiler.Compile.{
  CompiledPatch, limit_diagnostics, with_stack, lay_out, add_hard_release, bind_names, bind_units,
  bind_instruments, link, assemble, compile,
}
use govertone.Patch.Compiler.Compile.Voices.{Tiles, compile-Tiles}
use govertone.Patch.Registry.{
  Registry, PreparedRegistryUpdate, stale, next_generation, commit, new_registry, collect,
  compile_candidate, candidate, definitions_in, prepare_upsert, prepare_remove, prepare_definition,
  order_with, new_instrument, name_units,
}
use govertone.Patch.Registry.Consistent.{
  is_some, IsConsistent, Reaches, start, commits, upsert, new_registry-IsConsistent,
}
use govertone.Patch.Registry.Commits.{
  Reaches-IsConsistent, commit-prepared, commit-once, commit-undefined,
}

abbrev level : UnitParameter
level = record {
  name = "gain";
  min_value = pos 0;
  max_value = pos 128;
  neutral = pos 64;
  can_set = true;
  can_modulate = true;
}

-- An oscillator leaves a value, an output takes one, and a gain keeps one.
abbrev need : SointuUnit → ℤ
need u = if str_eq u.unit_type "oscillator" then pos 0 else pos 1

abbrev effect : SointuUnit → ℤ
effect u =
    if str_eq u.unit_type "oscillator"
    then pos 1
    else if str_eq u.unit_type "out"
    then negsuc 0
    else pos 0

abbrev joined : List (CanonicalInstrument ℤ) → String
joined [] = ""
joined (i ∷ is) = join i.id (join "/" (joined is))

abbrev pub small : Sointu ℤ
small = record {
  unit_types = ("oscillator", level ∷ []) ∷ ("out", level ∷ []) ∷ ("distort", level ∷ []) ∷ [];
  sine = pos 0;
  trisaw = pos 1;
  pulse = pos 2;
  gate = pos 3;
  sample = pos 4;
  stack_need = need;
  stack_change = effect;
  bytecode = λ patch. some ((((0, 1), "gain"), pos 5) ∷ []);
  synth = λ patch. true;
  digest = λ is. some (joined is);
}

abbrev pub plain_unit : String → UnitSpec ℤ
plain_unit t = record {
  id = "";
  explicit_id = false;
  unit_type = t;
  parameters = [];
  control_bindings = [];
  stereo = false;
  stereo_set = false;
  disabled = false;
  source = no_source;
}

abbrev output : Content ℤ → UnitSpec ℤ
output gain = record (plain_unit "out") {
  parameters = ("gain", record { content = gain; explicit = true }) ∷ [];
}

abbrev pub tone : String → ℤ → InstrumentSpec ℤ
tone id voices = record {
  id = id;
  voices = voices;
  parameters = [];
  units = plain_unit "oscillator" ∷ output (Content.integer (pos 64)) ∷ [];
  metadata = record { doc = ""; source = no_source; tags = [] };
}

abbrev duo : PatchSpec ℤ
duo = record { instruments = tone "lead" (pos 8) ∷ tone "bass" (pos 4) ∷ []; source = no_source }

abbrev zero_patch : CompiledPatch ℤ
zero_patch = record {
  patch = [];
  spec = record { instruments = []; source = no_source };
  layout = record { instruments = []; ordered_ids = []; total_voices = pos 0 };
  fingerprint = "";
  diagnostics = [];
  bindings = [];
  generation = 0;
}

abbrev pub value_of {ℓ} : {E : Type 0} {A : Type ℓ} → A → Result E A → A
value_of z (ok x) = x
value_of z (err e) = z
value_of z panic = z

abbrev returns {ℓ} : {E : Type 0} {A : Type ℓ} → Result E A → Bool
returns (ok x) = true
returns (err e) = false
returns panic = false

value_of_lem {ℓ} :
    {E : Type 0} {A : Type ℓ} (z : A) (r : Result E A) → returns r ≡ true → r ≡ ok (value_of z r)
value_of_lem z (ok x) h = refl
value_of_lem z (err e) h = cc
value_of_lem z panic h = cc

abbrev compiled_duo : CompiledPatch ℤ
compiled_duo = value_of zero_patch (compile whole small default_limits duo)

duo_compiles : compile whole small default_limits duo ≡ ok compiled_duo
unfolding compile normalize normalize_instruments normalize_instrument normalize_descriptors
    normalize_units normalize_unit complete_unit Parameters.add_parameters add_parameter
    bind_control store_parameter normalize_virtual_parameters add_defaults unused_controls locate
    unit_source normalize_parameter normalize_descriptor normalize_enum normalize_reference
    integer_of bool_int controllable error_code unit_name decimal new_schema_registry send_target
    delay_range filter_views envelope_defaults oscillator_views sointu_schemas add_parameters
    parameter_schema canonical_parameter find_alias schema_of update_type alias set_default
    default_param behavior int_param float_param bool_param enum_param ref_param diag has_errors
    canonical canonical_instrument canonical_unit normalize_instrument_id normalize_unit_id
    normalize_id validate_id normalize_name trim_space trim_left trim_right trim_colon all_plain
    ends_in_slash contains is_space is_control id_error assemble link bind_instruments bind_units
    bind_names add_hard_release lay_out with_stack limit_diagnostics analyze_stack stack_loop
    number_instruments number_units total_units has_enabled_envelope hard_release_operands
    unit_indices parameter_int resolve convert_parameter convert_parameters convert_units
    operands_of sort_names insert_name output_gain_parameters modulation_port lookup lookup_or put
    delete ◌+ℤ◌
duo_compiles = refl

duo_voices : compiled_duo.layout.total_voices ≡ pos 12
unfolding compile normalize normalize_instruments normalize_instrument normalize_descriptors
    normalize_units normalize_unit complete_unit Parameters.add_parameters add_parameter
    bind_control store_parameter normalize_virtual_parameters add_defaults unused_controls locate
    unit_source normalize_parameter normalize_descriptor normalize_enum normalize_reference
    integer_of bool_int controllable error_code unit_name decimal new_schema_registry send_target
    delay_range filter_views envelope_defaults oscillator_views sointu_schemas add_parameters
    parameter_schema canonical_parameter find_alias schema_of update_type alias set_default
    default_param behavior int_param float_param bool_param enum_param ref_param diag has_errors
    canonical canonical_instrument canonical_unit normalize_instrument_id normalize_unit_id
    normalize_id validate_id normalize_name trim_space trim_left trim_right trim_colon all_plain
    ends_in_slash contains is_space is_control id_error assemble link bind_instruments bind_units
    bind_names add_hard_release lay_out with_stack limit_diagnostics analyze_stack stack_loop
    number_instruments number_units total_units has_enabled_envelope hard_release_operands
    unit_indices parameter_int resolve convert_parameter convert_parameters convert_units
    operands_of sort_names insert_name output_gain_parameters modulation_port lookup lookup_or put
    delete ◌+ℤ◌
duo_voices = refl

compile-Tiles_example :
    Tiles (pos 32) (pos 0) compiled_duo.layout.instruments compiled_duo.layout.total_voices
compile-Tiles_example = compile-Tiles whole small default_limits duo compiled_duo duo_compiles

abbrev sounding : List SointuUnit
sounding =
    record {
      unit_type = "oscillator";
      id = pos 1;
      parameters = [];
      var_args = [];
      disabled = false;
    }
    ∷ record { unit_type = "out"; id = pos 2; parameters = []; var_args = []; disabled = false }
    ∷ []

analyze_stack_iff_example :
    (has_errors (analyze_stack small default_limits "lead" sounding) ≡ false) ↔ (
      (pre : List SointuUnit) (u : SointuUnit) (post : List SointuUnit)
      → sounding ≡ pre ++ u ∷ post
      → Fits small default_limits (depth_after small default_limits (pos 0) pre) u)
analyze_stack_iff_example = analyze_stack_iff small default_limits "lead" sounding

lead_kept : normalize_instrument_id "lead" ≡ ok "lead"
unfolding normalize_instrument_id normalize_id validate_id normalize_name trim_space trim_left
    trim_right trim_colon all_plain ends_in_slash contains is_space is_control
lead_kept = refl

normalize_instrument_id-colons_example :
    (normalize_instrument_id ":lead" ≡ ok "lead") × (normalize_instrument_id "::lead" ≡ ok ":lead")
normalize_instrument_id-colons_example = normalize_instrument_id-colons "lead" lead_kept

-- A registry of one definition, and two updates that are prepared from it.
abbrev empty_registry : Registry ℤ
empty_registry = record { definitions = []; order = []; compiled = zero_patch; generation = 0 }

abbrev no_update : PreparedRegistryUpdate ℤ
no_update = record {
  base_generation = 0;
  definitions = [];
  order = [];
  compiled = none;
  changed = false;
  removed = [];
  changed_ids = [];
}

abbrev pub solo : Registry ℤ
solo = value_of empty_registry (new_registry whole small default_limits (tone "lead" (pos 8) ∷ []))

abbrev pub with_bass : PreparedRegistryUpdate ℤ
with_bass =
    value_of no_update (prepare_upsert whole small default_limits solo (tone "bass" (pos 4)))

abbrev pub with_pad : PreparedRegistryUpdate ℤ
with_pad = value_of no_update (prepare_upsert whole small default_limits solo (tone "pad" (pos 2)))

abbrev pub both : Registry ℤ
both = value_of empty_registry (commit solo with_bass)

-- The same units and values, with the gain as a control.
abbrev pub controlled_tone : InstrumentSpec ℤ
controlled_tone = record (tone "lead" (pos 8)) {
  parameters =
      (
        "level",
        record {
          id = "level";
          default = pos 64;
          minimum = pos 0;
          maximum = pos 128;
          scope = "";
          smoothing = pos 0;
          curve = "";
        },
      )
      ∷ [];
  units =
      plain_unit "oscillator"
      ∷ output (
          Content.control (record {
            parameter = "level";
            transform = record { scale = pos 1; offset = pos 0; clamp = false };
          }))
      ∷ [];
}

abbrev pub with_control : PreparedRegistryUpdate ℤ
with_control = value_of no_update (prepare_upsert whole small default_limits solo controlled_tone)

abbrev pub patch_of : PreparedRegistryUpdate ℤ → CompiledPatch ℤ
patch_of u = elim u.compiled as (λ _. CompiledPatch ℤ) [ none ↦ zero_patch | some c ↦ c ]

abbrev pub fingerprint_of : Option (CompiledPatch ℤ) → String
fingerprint_of none = ""
fingerprint_of (some c) = c.fingerprint

abbrev pub bass_patch : CompiledPatch ℤ
bass_patch = patch_of with_bass

abbrev pub control_patch : CompiledPatch ℤ
control_patch = patch_of with_control

-- How the calls above run.
pub record Runs : Type 0 where
  pub solo_returns :
      returns (new_registry whole small default_limits (tone "lead" (pos 8) ∷ [])) ≡ true
  pub bass_returns :
      returns (prepare_upsert whole small default_limits solo (tone "bass" (pos 4))) ≡ true
  pub pad_returns :
      returns (prepare_upsert whole small default_limits solo (tone "pad" (pos 2))) ≡ true
  pub control_returns :
      returns (prepare_upsert whole small default_limits solo controlled_tone) ≡ true
  pub commit_returns : returns (commit solo with_bass) ≡ true
  pub changed : with_bass.changed ≡ true
  pub given : is_some with_control.compiled ≡ true
  pub bass_given : is_some with_bass.compiled ≡ true
  pub drum_named : normalize_instrument_id "drum" ≡ ok "drum"
  pub drum_absent : lookup "drum" solo.definitions ≡ none
  pub unchanged : with_control.changed ≡ false
  pub canonical_kept : canonical control_patch.spec ≡ canonical solo.compiled.spec
  pub fingerprints :
      (solo.compiled.fingerprint ≡ "lead/") × (fingerprint_of with_bass.compiled ≡ "lead/bass/")
  pub generations : (solo.generation ≡ 1) × (both.generation ≡ 2)
  pub bound : length control_patch.bindings ≡ 1

pub runs : Runs
unfolding new_registry collect compile_candidate candidate definitions_in prepare_upsert
    prepare_definition order_with new_instrument name_units commit compile normalize
    normalize_instruments normalize_instrument normalize_descriptors normalize_units normalize_unit
    complete_unit Parameters.add_parameters add_parameter bind_control store_parameter
    normalize_virtual_parameters add_defaults unused_controls locate unit_source normalize_parameter
    normalize_descriptor normalize_enum normalize_reference integer_of bool_int controllable
    error_code unit_name decimal new_schema_registry send_target delay_range filter_views
    envelope_defaults oscillator_views sointu_schemas add_parameters parameter_schema
    canonical_parameter find_alias schema_of update_type alias set_default default_param behavior
    int_param float_param bool_param enum_param ref_param diag has_errors canonical
    canonical_instrument canonical_unit normalize_instrument_id normalize_unit_id normalize_id
    validate_id normalize_name trim_space trim_left trim_right trim_colon all_plain ends_in_slash
    contains is_space is_control id_error assemble link bind_instruments bind_units bind_names
    add_hard_release lay_out with_stack limit_diagnostics analyze_stack stack_loop
    number_instruments number_units total_units has_enabled_envelope hard_release_operands
    unit_indices parameter_int resolve convert_parameter convert_parameters convert_units
    operands_of sort_names insert_name output_gain_parameters modulation_port lookup lookup_or put
    delete ◌+ℤ◌ scale
runs = record {
  solo_returns = refl;
  bass_returns = refl;
  pad_returns = refl;
  control_returns = refl;
  commit_returns = refl;
  changed = refl;
  given = refl;
  bass_given = refl;
  drum_named = refl;
  drum_absent = refl;
  unchanged = refl;
  canonical_kept = refl;
  fingerprints = (refl, refl);
  generations = (refl, refl);
  bound = refl;
}

pub solo_made : new_registry whole small default_limits (tone "lead" (pos 8) ∷ []) ≡ ok solo
solo_made = value_of_lem empty_registry _ runs.solo_returns

pub bass_made : prepare_upsert whole small default_limits solo (tone "bass" (pos 4)) ≡ ok with_bass
bass_made = value_of_lem no_update _ runs.bass_returns

pad_made : prepare_upsert whole small default_limits solo (tone "pad" (pos 2)) ≡ ok with_pad
pad_made = value_of_lem no_update _ runs.pad_returns

pub control_made : prepare_upsert whole small default_limits solo controlled_tone ≡ ok with_control
control_made = value_of_lem no_update _ runs.control_returns

committed : commit solo with_bass ≡ ok both
committed = value_of_lem empty_registry _ runs.commit_returns

patch_of_lem :
    (o : Option (CompiledPatch ℤ))
    → is_some o ≡ true
    → o ≡ some (elim o as (λ _. CompiledPatch ℤ) [ none ↦ zero_patch | some c ↦ c ])
patch_of_lem none h = cc
patch_of_lem (some c) h = refl

pub control_given : with_control.compiled ≡ some control_patch
control_given = patch_of_lem with_control.compiled runs.given

pub solo_reached : Reaches whole small default_limits solo
solo_reached = start (tone "lead" (pos 8) ∷ []) solo_made

Reaches-IsConsistent_example : IsConsistent whole small default_limits both
Reaches-IsConsistent_example = Reaches-IsConsistent whole small default_limits both (
    commits solo_reached (upsert (tone "bass" (pos 4)) bass_made) runs.bass_given solo_reached
      committed)

pub solo-IsConsistent : IsConsistent whole small default_limits solo
solo-IsConsistent = new_registry-IsConsistent whole small default_limits _ solo solo_made

commit-prepared_example :
    (r' : Registry ℤ) × (commit solo with_bass ≡ ok r')
    × (r'.definitions ≡ with_bass.definitions)
    × (r'.order ≡ with_bass.order)
    × (r'.generation
        ≡ (if with_bass.changed then next_generation solo.generation else solo.generation))
    × (with_bass.changed ≡ false → r'.compiled.fingerprint ≡ solo.compiled.fingerprint)
commit-prepared_example =
    commit-prepared whole small default_limits solo with_bass solo-IsConsistent
      (upsert (tone "bass" (pos 4)) bass_made)

commit-once_example : commit both with_pad ≡ err stale
commit-once_example =
    commit-once whole small default_limits solo both with_bass with_pad solo-IsConsistent
      (upsert (tone "bass" (pos 4)) bass_made) (upsert (tone "pad" (pos 2)) pad_made) runs.changed
      committed

commit-undefined_example :
    (u : PreparedRegistryUpdate ℤ) × (prepare_remove whole small default_limits solo "drum" ≡ ok u)
    × (commit solo u ≡ ok (record solo { definitions = []; order = [] }))
commit-undefined_example =
    commit-undefined whole small default_limits solo "drum" "drum" runs.drum_named runs.drum_absent
