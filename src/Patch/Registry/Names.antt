-- ===== src/Patch/Registry/Names.antt =====
-- Lists of names: the order of the registry (internal/patch/registry.go).
use Prim.Native.String.{String}
use govertone.Common.{
  ◌≡◌, refl, inl, inr, Bool-cases, true, false, List, [], ◌∷◌, ◌++◌, arith, if◌then◌else◌,
}
use govertone.Common.Text.{str_eq, str_eq_iff}
use govertone.Patch.Schema.{member}
use govertone.Patch.Registry.{without}

abbrev pub Distinct : List String → Type 0
Distinct [] = Unit {0}
Distinct (s ∷ ss) = (member s ss ≡ false) × Distinct ss

pub member-snoc :
    (j id : String) (order : List String)
    → member j (order ++ id ∷ []) ≡ (if str_eq j id then true else member j order)
member-snoc j id [] = refl
member-snoc j id (k ∷ order) = ground (arith, member-snoc j id order)

pub member-without :
    (j id : String) (order : List String)
    → member j (without id order) ≡ (if str_eq j id then false else member j order)
member-without j id [] = ground arith
member-without j id (k ∷ order) =
    ground (arith, member-without j id order, str_eq_iff j id, str_eq_iff j k, str_eq_iff k id)

pub snoc-Distinct :
    (id : String) (order : List String)
    → member id order ≡ false
    → Distinct order
    → Distinct (order ++ id ∷ [])
snoc-Distinct id [] h d = (refl, tt)
snoc-Distinct id (k ∷ order) h (first, d) = (
  ground (arith, member-snoc k id order, str_eq_iff id k, str_eq_iff k id),
  snoc-Distinct id order (ground (arith, str_eq_iff id k)) d,
)

pub without-Distinct :
    (id : String) (order : List String) → Distinct order → Distinct (without id order)
without-Distinct id [] d = tt
without-Distinct id (k ∷ order) (first, d) = elim (Bool-cases (str_eq k id)) [
  | inl same ↦ rw same (without-Distinct id order d)
  | inr other ↦ rw other (ground (arith, member-without k id order), without-Distinct id order d)
]
