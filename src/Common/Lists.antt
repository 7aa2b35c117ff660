-- ===== src/Common/Lists.antt =====
-- Lists measured and indexed by native numbers, under the library's names, and the exchange of
-- two entries of an array.
use Prim.Native.Nat.{ℕ, zero, suc, ◌+◌, ◌<◌}
use mathlib.Core.Path.{◌≡◌, refl, ap, ◌∙◌}
use mathlib.Core.Logic.{∥∥₁_elim}
use mathlib.Core.List.{List, [], ◌∷◌, ◌++◌, Mem, Perm, Permᴰ, not-mem-nil, forall_mem-cons}
use mathlib.Core.List.Perm
use native.Mathlib.Nat.{ℕ_set}
use native.Mathlib.Omega.{arith}
use govertone.Common.Tests.{◌==◌, if◌then◌else◌}

module _ {ℓ} {A : Type ℓ} where
  abbrev pub length : List A → ℕ
  length [] = 0
  length (x ∷ xs) = suc (length xs)

  -- The entry at an index, or the default past the end.
  abbrev pub get_or : List A → ℕ → A → A
  get_or [] i d = d
  get_or (x ∷ xs) zero d = x
  get_or (x ∷ xs) (suc i) d = get_or xs i d

  -- A write past the end changes nothing.
  abbrev pub set : List A → ℕ → A → List A
  set [] i v = []
  set (x ∷ xs) zero v = v ∷ xs
  set (x ∷ xs) (suc i) v = x ∷ set xs i v

  abbrev pub take : ℕ → List A → List A
  take zero xs = []
  take (suc n) [] = []
  take (suc n) (x ∷ xs) = x ∷ take n xs

  pub nil_of_length : (xs : List A) → length xs ≡ 0 → xs ≡ []
  nil_of_length [] h = refl
  nil_of_length (x ∷ xs) h = absurd (omega arith)

  pub length-append : (xs ys : List A) → length (xs ++ ys) ≡ length xs + length ys
  length-append [] ys = omega arith
  length-append (x ∷ xs) ys = omega (arith, length-append xs ys)

  pub length-set : (xs : List A) (i : ℕ) (v : A) → length (set xs i v) ≡ length xs
  length-set [] i v = refl
  length-set (x ∷ xs) zero v = refl
  length-set (x ∷ xs) (suc i) v = ap suc (length-set xs i v)

  length_of_permᴰ : {xs ys : List A} → Permᴰ xs ys → length xs ≡ length ys
  length_of_permᴰ Permᴰ.nil = refl
  length_of_permᴰ (Permᴰ.cons _ p) = ap suc (length_of_permᴰ p)
  length_of_permᴰ (Permᴰ.swap _ _) = refl
  length_of_permᴰ (Permᴰ.trans p q) = length_of_permᴰ p ∙ length_of_permᴰ q

  pub length-perm : {xs ys : List A} → Perm xs ys → length xs ≡ length ys
  length-perm p = ∥∥₁_elim p (ℕ_set _ _) length_of_permᴰ

  pub get_or-set :
      (xs : List A) (i j : ℕ) (v d : A)
      → i < length xs
      → get_or (set xs i v) j d ≡ (if i == j then v else get_or xs j d)
  get_or-set [] i j v d h = absurd (omega arith)
  get_or-set (x ∷ xs) zero zero v d h = ground arith
  get_or-set (x ∷ xs) zero (suc j) v d h = ground arith
  get_or-set (x ∷ xs) (suc i) zero v d h = ground arith
  get_or-set (x ∷ xs) (suc i) (suc j) v d h = ground (arith, get_or-set xs i j v d)

  pub get_or-append :
      (xs ys : List A) (i : ℕ) (d : A) → i < length xs → get_or (xs ++ ys) i d ≡ get_or xs i d
  get_or-append [] ys i d h = absurd (omega arith)
  get_or-append (x ∷ xs) ys zero d h = refl
  get_or-append (x ∷ xs) ys (suc i) d h = get_or-append xs ys i d (omega arith)

  pub get_or-take :
      (n : ℕ) (xs : List A) (i : ℕ) (d : A) → i < n → get_or (take n xs) i d ≡ get_or xs i d
  get_or-take zero xs i d h = absurd (omega arith)
  get_or-take (suc n) [] i d h = refl
  get_or-take (suc n) (x ∷ xs) zero d h = refl
  get_or-take (suc n) (x ∷ xs) (suc i) d h = get_or-take n xs i d (omega arith)

  -- An array without its last entry, and that entry.
  pub take-snoc :
      (n : ℕ) (xs : List A) (d : A) → length xs ≡ suc n → take n xs ++ get_or xs n d ∷ [] ≡ xs
  take-snoc zero (x ∷ []) d h = refl
  take-snoc zero (x ∷ y ∷ xs) d h = absurd (omega arith)
  take-snoc zero [] d h = absurd (omega arith)
  take-snoc (suc n) [] d h = absurd (omega arith)
  take-snoc (suc n) (x ∷ xs) d h = ap (◌∷◌ x) (take-snoc n xs d (omega arith))

module _ {ℓ} {A : Type ℓ} where
  -- Writing `v` at `i` puts the old entry out and `v` in.
  set-perm :
      (xs : List A) (i : ℕ) (v d : A) → i < length xs → Perm (get_or xs i d ∷ set xs i v) (v ∷ xs)
  set-perm [] i v d h = absurd (omega arith)
  set-perm (x ∷ xs) zero v d h = Perm.swap v x xs
  set-perm (x ∷ xs) (suc i) v d h =
      Perm.trans (Perm.swap x (get_or xs i d) (set xs i v))
        (Perm.trans (Perm.cons x (set-perm xs i v d (omega arith))) (Perm.swap v x xs))

  abbrev pub swap : A → List A → ℕ → ℕ → List A
  swap d xs i j = set (set xs i (get_or xs j d)) j (get_or xs i d)

  pub length-swap : (d : A) (xs : List A) (i j : ℕ) → length (swap d xs i j) ≡ length xs
  length-swap d xs i j = length-set (set xs i (get_or xs j d)) j _ ∙ length-set xs i _

  module _ (d : A) (xs : List A) (i j : ℕ) (hi : i < length xs) (hj : j < length xs) where
    pub get_or-swap :
        (c : ℕ)
        → get_or (swap d xs i j) c d
          ≡ (if j == c then get_or xs i d else if i == c then get_or xs j d else get_or xs c d)
    get_or-swap c = rw (
      get_or-set (set xs i (get_or xs j d)) j c (get_or xs i d) d (rw length-set hj),
      get_or-set xs i c (get_or xs j d) d hi,
    )

    pub swap-perm : Perm (swap d xs i j) xs
    swap-perm =
        let w = set xs i (get_or xs j d) in
        let same : get_or w j d ≡ get_or xs j d =
          ground (arith, get_or-set xs i j (get_or xs j d) d) in
        let back = set-perm w j (get_or xs i d) d (rw length-set hj) in
        Perm.cons_inv (Perm.trans (rw same at back) (set-perm xs i (get_or xs j d) d hi))

module _ {ℓ κ} {A : Type ℓ} {P : A → Type κ} (prop : (x : A) → IsProp (P x)) where
  -- What holds at every index holds of every entry.
  pub forall_mem_of_get_or :
      (xs : List A) (d : A)
      → ((i : ℕ) → i < length xs → P (get_or xs i d))
      → (x : A) → Mem x xs
      → P x
  forall_mem_of_get_or [] d h = λ x m. absurd (not-mem-nil m)
  forall_mem_of_get_or (y ∷ xs) d h =
      (forall_mem-cons prop).1
        (h 0 (omega arith), forall_mem_of_get_or xs d λ i p. h (suc i) (omega arith))
