-- ===== src/Patch/Names.antt =====
-- internal/patch/model.go: the names of instruments, units and parameters. A text is valid UTF-8.
pub mod Colons
use Prim.Native.Char.{Char, code}
use Prim.Native.String.{String, ◌++◌}
use text.Mathlib.Text.{starts_with}
use govertone.Common.{ℕ, ◌==◌, leb, Bool, true, false, not, ◌&&◌, ◌||◌, if◌then◌else◌}
use govertone.Common.Text.{str_eq}
use govertone.Common.Result.{Result, ok, err}

-- `unicode.IsSpace` and `unicode.IsControl`
unfoldable pub is_space : ℕ → Bool
is_space c =
    (leb 0x09 c && leb c 0x0d)
    || (c == 0x20 || c == 0x85 || c == 0xa0 || c == 0x1680 || (leb 0x2000 c && leb c 0x200a))
    || (c == 0x2028 || c == 0x2029 || c == 0x202f || c == 0x205f || c == 0x3000)

unfoldable pub is_control : ℕ → Bool
is_control c = leb c 0x1f || (leb 0x7f c && leb c 0x9f)

-- `strings.TrimSpace`, from the left and from the right
unfoldable pub trim_left : String → String
trim_left String.[] = String.[]
trim_left (String.◌∷◌ c s) =
    let rest = trim_left s in if is_space (code c) then rest else String.◌∷◌ c s

unfoldable pub trim_right : String → String
trim_right String.[] = String.[]
trim_right (String.◌∷◌ c s) =
    let rest = trim_right s in
    if is_space (code c) && str_eq rest "" then String.[] else String.◌∷◌ c rest

unfoldable pub trim_space : String → String
trim_space s = trim_right (trim_left s)

-- `strings.TrimPrefix(s, ":")`
unfoldable pub trim_colon : String → String
trim_colon String.[] = String.[]
trim_colon (String.◌∷◌ c s) = if code c == b':' then s else String.◌∷◌ c s

unfoldable pub normalize_name : String → String
normalize_name s = trim_colon (trim_space s)

-- `strings.HasSuffix(s, "/")`
unfoldable pub ends_in_slash : String → Bool
ends_in_slash String.[] = false
ends_in_slash (String.◌∷◌ c s) =
    let rest = ends_in_slash s in if str_eq s "" then code c == b'/' else rest

-- `strings.Contains(s, t)`
unfoldable pub contains : String → String → Bool
contains String.[] t = str_eq t ""
contains (String.◌∷◌ c s) t =
    let rest = contains s t in if starts_with (String.◌∷◌ c s) t then true else rest

-- The loop over the runes.
unfoldable pub all_plain : String → Bool
all_plain String.[] = true
all_plain (String.◌∷◌ c s) =
    let rest = all_plain s in
    if is_space (code c) || (is_control (code c) || code c == b':') then false else rest

-- `validateID`, but for its message
unfoldable pub validate_id : String → Bool
validate_id raw =
    let s = normalize_name raw in
    not (str_eq s "")
    && (not (starts_with s "/" || (ends_in_slash s || contains s "//")) && all_plain s)

-- The message of an error: that the name is empty, or a text with the name in it.
unfoldable pub id_error : String → String → String
id_error kind s =
    if str_eq s "" then kind ++ " cannot be empty" else "invalid " ++ (kind ++ (" " ++ s))

unfoldable pub normalize_id : String → String → Result String String
normalize_id kind raw =
    let s = normalize_name raw in
    if not (str_eq raw (trim_space raw))
    then err ("invalid " ++ (kind ++ (" " ++ raw)))
    else if validate_id s
    then ok s
    else err (id_error kind (normalize_name s))

unfoldable pub normalize_instrument_id : String → Result String String
normalize_instrument_id = normalize_id "instrument ID"

unfoldable pub normalize_unit_id : String → Result String String
normalize_unit_id = normalize_id "unit ID"
