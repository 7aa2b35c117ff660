-- ===== src/Common/Maps.antt =====
-- Go's maps as association lists: the first entry of a key counts, and a write replaces it. The
-- order of the entries stands for the order in which a range visits them.
use Prim.Native.Nat.{ℕ}
use Prim.Native.String.{String}
use mathlib.Core.Path.{◌≡◌, refl, sym}
use mathlib.Core.Logic.{◌≢◌, ◌⊎◌, inl, inr, ◌↔◌}
use mathlib.Core.Bool.{Bool, true, false}
use mathlib.Core.Option.{Option, none, some}
use mathlib.Core.List.{List, [], ◌∷◌}
use native.Mathlib.Omega.{arith}
use govertone.Common.Tests.{◌==◌, if◌then◌else◌, Bool-cases}
use govertone.Common.Int.{ℤ, eqb_ℤ, eqb_ℤ_iff}
use govertone.Common.Text.{str_eq, str_eq_iff}

pub record Key {ℓ} (K : Type ℓ) : Type ℓ where
  pub same : K → K → Bool
  pub same_iff : (a b : K) → (same a b ≡ true) ↔ (a ≡ b)

pub nat_same_iff : (a b : ℕ) → ((a == b) ≡ true) ↔ (a ≡ b)
nat_same_iff = ground arith

instance abbrev pub nat_key : Key ℕ
nat_key = record { same = ◌==◌; same_iff = nat_same_iff }

instance abbrev pub int_key : Key ℤ
int_key = record { same = eqb_ℤ; same_iff = eqb_ℤ_iff }

instance abbrev pub string_key : Key String
string_key = record { same = str_eq; same_iff = str_eq_iff }

module _ {ℓ κ} {A : Type ℓ} {B : Type κ} ⦃a : Key A⦄ ⦃b : Key B⦄ where
  abbrev pub pair_same : A × B → A × B → Bool
  pair_same x y = if a.same x.0 y.0 then b.same x.1 y.1 else false

  pub pair_same_iff : (x y : A × B) → (pair_same x y ≡ true) ↔ (x ≡ y)
  pair_same_iff x y = ground (arith, a.same_iff x.0 y.0, b.same_iff x.1 y.1)

  instance abbrev pub pair_key : Key (A × B)
  pair_key = record { same = pair_same; same_iff = pair_same_iff }

pub same_refl {ℓ} : {K : Type ℓ} ⦃key : Key K⦄ (k : K) → key.same k k ≡ true
same_refl ⦃key⦄ k = (key.same_iff k k).1 refl

module _ {ℓ κ} {K : Type ℓ} {V : Type κ} ⦃key : Key K⦄ where
  unfoldable pub lookup : K → List (K × V) → Option V
  lookup k [] = none
  lookup k (e ∷ m) = let rest = lookup k m in if key.same e.0 k then some e.1 else rest

  unfoldable pub put : K → V → List (K × V) → List (K × V)
  put k v [] = (k, v) ∷ []
  put k v (e ∷ m) = let rest = put k v m in if key.same e.0 k then (k, v) ∷ m else e ∷ rest

  unfoldable pub delete : K → List (K × V) → List (K × V)
  delete k [] = []
  delete k (e ∷ m) = let rest = delete k m in if key.same e.0 k then rest else e ∷ rest

  -- A read with the zero value of a missing key.
  unfoldable pub lookup_or : V → K → List (K × V) → V
  lookup_or z k m = elim (lookup k m) [ some v ↦ v | none ↦ z ]

  pub lookup-nil : (k : K) → lookup k [] ≡ none
  unfolding lookup
  lookup-nil k = refl

  pub lookup-put :
      (k j : K) (v : V) (m : List (K × V))
      → lookup j (put k v m) ≡ (if key.same k j then some v else lookup j m)
  unfolding lookup put
  lookup-put k j v [] = ground arith
  lookup-put k j v (e ∷ m) = ground (
    arith,
    lookup-put k j v m,
    key.same_iff e.0 k,
    key.same_iff e.0 j,
    key.same_iff k j,
    same_refl j,
  )

  pub lookup-delete :
      (k j : K) (m : List (K × V))
      → lookup j (delete k m) ≡ (if key.same k j then none else lookup j m)
  unfolding lookup delete
  lookup-delete k j [] = ground arith
  lookup-delete k j (e ∷ m) = ground (
    arith,
    lookup-delete k j m,
    key.same_iff e.0 k,
    key.same_iff e.0 j,
    key.same_iff k j,
    same_refl j,
  )

  pub lookup-put_same : (k : K) (v : V) (m : List (K × V)) → lookup k (put k v m) ≡ some v
  lookup-put_same k v m = ground (arith, lookup-put k k v m, same_refl k)

  pub lookup-put_other :
      (k j : K) (v : V) (m : List (K × V)) → j ≢ k → lookup j (put k v m) ≡ lookup j m
  lookup-put_other k j v m h = ground (arith, lookup-put k j v m, key.same_iff k j)

  -- What a write left under a key is what was written, or what was there.
  pub lookup-put_inv :
      (k j : K) (v w : V) (m : List (K × V))
      → lookup j (put k v m) ≡ some w
      → ((j ≡ k) × (w ≡ v)) ⊎ ((j ≢ k) × (lookup j m ≡ some w))
  lookup-put_inv k j v w m e = elim (Bool-cases (key.same k j)) [
    | inl hit ↦ inl (sym ((key.same_iff k j).0 hit), ground (arith, lookup-put k j v m))
    | inr miss ↦
        inr ((λ p. absurd (ground (arith, key.same_iff k j))), ground (arith, lookup-put k j v m))
  ]

  pub lookup-delete_other :
      (k j : K) (m : List (K × V)) → j ≢ k → lookup j (delete k m) ≡ lookup j m
  lookup-delete_other k j m h = ground (arith, lookup-delete k j m, key.same_iff k j)

  pub lookup-delete_same : (k : K) (m : List (K × V)) → lookup k (delete k m) ≡ none
  lookup-delete_same k m = ground (arith, lookup-delete k k m, same_refl k)

  pub lookup-delete_inv :
      (k j : K) (w : V) (m : List (K × V))
      → lookup j (delete k m) ≡ some w
      → (j ≢ k) × (lookup j m ≡ some w)
  lookup-delete_inv k j w m e = elim (Bool-cases (key.same k j)) [
    | inl hit ↦ absurd (ground (arith, lookup-delete k j m))
    | inr miss ↦
        ((λ p. absurd (ground (arith, key.same_iff k j))), ground (arith, lookup-delete k j m))
  ]

  pub lookup_or-some :
      (z v : V) (k : K) (m : List (K × V)) → lookup k m ≡ some v → lookup_or z k m ≡ v
  unfolding lookup_or
  lookup_or-some z v k m e = ground arith

  pub lookup_or-none : (z : V) (k : K) (m : List (K × V)) → lookup k m ≡ none → lookup_or z k m ≡ z
  unfolding lookup_or
  lookup_or-none z k m e = ground arith
