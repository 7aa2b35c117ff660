-- ===== src/Patch/Names/Colons.antt =====
-- The colon that a keyword begins with (internal/patch/model.go).
use Prim.Native.Char.{Char}
use Prim.Native.String.{String}
use govertone.Common.{◌≡◌, refl, ap, ◌∙◌, true, arith}
use govertone.Common.Text.{str_eq_iff}
use govertone.Common.Result.{ok}
use govertone.Patch.Names.{
  is_space, trim_left, trim_right, trim_space, trim_colon, normalize_name, all_plain, validate_id,
  normalize_id, normalize_instrument_id,
}

abbrev pub colon : Char
colon = ":"

trim_right-plain : (s : String) → all_plain s ≡ true → trim_right s ≡ s
unfolding trim_right all_plain
trim_right-plain String.[] h = refl
trim_right-plain (String.◌∷◌ c s) h = ground (arith, trim_right-plain s)

trim_right-colon :
    (s : String) → trim_right s ≡ s → trim_right (String.◌∷◌ colon s) ≡ String.◌∷◌ colon s
unfolding trim_right is_space
trim_right-colon s h = ap (String.◌∷◌ colon) h

trim_space-colon :
    (s : String) → trim_right s ≡ s → trim_space (String.◌∷◌ colon s) ≡ String.◌∷◌ colon s
unfolding trim_space trim_left trim_right is_space
trim_space-colon s h = ap (String.◌∷◌ colon) h

name-colon : (s : String) → trim_right s ≡ s → normalize_name (String.◌∷◌ colon s) ≡ s
unfolding normalize_name trim_colon
name-colon s h = rw (trim_space-colon s h) refl

-- What an accepted name is like when normalization keeps it.
kept :
    (kind t : String) → normalize_id kind t ≡ ok t → (normalize_name t ≡ t) × (validate_id t ≡ true)
unfolding normalize_id
kept kind t h = ground arith

plain : (t : String) → normalize_name t ≡ t → validate_id t ≡ true → all_plain t ≡ true
unfolding validate_id
plain t same v = ground arith

validate-colon :
    (s : String)
    → trim_right s ≡ s
    → normalize_name s ≡ s
    → validate_id (String.◌∷◌ colon s) ≡ validate_id s
unfolding validate_id
validate-colon s h same = rw (name-colon s h, same) refl

accepted :
    (kind raw s : String)
    → trim_space raw ≡ raw
    → normalize_name raw ≡ s
    → validate_id s ≡ true
    → normalize_id kind raw ≡ ok s
unfolding normalize_id
accepted kind raw s trimmed name v = rw (trimmed, name, v, (str_eq_iff raw raw).1 refl) refl

-- A name that is its own instrument ID is also the ID of its keyword, the name after a colon. A
-- second colon passes the validation and stays: the ID is then the keyword, whose own ID is the
-- name, so that normalizing an ID again changes it.
pub normalize_instrument_id-colons :
    (t : String)
    → normalize_instrument_id t ≡ ok t
    → (normalize_instrument_id (String.◌∷◌ colon t) ≡ ok t)
      × (normalize_instrument_id (String.◌∷◌ colon (String.◌∷◌ colon t)) ≡ ok (String.◌∷◌ colon t))
unfolding normalize_instrument_id
normalize_instrument_id-colons t h =
    let kind : String = "instrument ID" in
    let (same, v) = kept kind t h in
    let right = trim_right-plain t (plain t same v) in
    let keyword = String.◌∷◌ colon t in
    let right' : trim_right keyword ≡ keyword = trim_right-colon t right in
    (
      accepted kind keyword t (trim_space-colon t right) (name-colon t right) v,
      accepted kind (String.◌∷◌ colon keyword) keyword (trim_space-colon keyword right')
          (name-colon keyword right') (validate-colon t right same ∙ v),
    )
