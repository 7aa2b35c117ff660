-- ===== src/Common/Result.antt =====
-- What a Go function with an error result does: it returns a value or an error, or it panics.
use mathlib.Core.Path.{◌≡◌, refl}

pub data Result {ℓ} (E : Type 0) (A : Type ℓ) : Type ℓ where
  panic : Result E A
  err : E → Result E A
  ok : A → Result E A

module _ {ℓ κ} {E : Type 0} {A : Type ℓ} {B : Type κ} where
  infixl 5 ◌>>=◌
  abbrev pub ◌>>=◌ : Result E A → (A → Result E B) → Result E B
  panic >>= next = panic
  err why >>= next = err why
  ok x >>= next = next x

  -- If a chain returned, so did both of its parts.
  pub bind_inv :
      (first : Result E A) (next : A → Result E B) (y : B)
      → first >>= next ≡ ok y
      → (x : A) × (next x ≡ ok y) × (first ≡ ok x)
  bind_inv panic next y e = cc
  bind_inv (err why) next y e = cc
  bind_inv (ok x) next y e = (x, e, refl)

  -- Two chains are the same if they go on the same way from what the first part returns.
  pub bind_cong :
      (first : Result E A) (f g : A → Result E B)
      → ((x : A) → first ≡ ok x → f x ≡ g x)
      → first >>= f ≡ first >>= g
  bind_cong panic f g h = refl
  bind_cong (err why) f g h = refl
  bind_cong (ok x) f g h = h x refl

pub bind_assoc {ℓ κ μ} :
    {E : Type 0} {A : Type ℓ} {B : Type κ} {C : Type μ} (first : Result E A) (f : A → Result E B)
    (g : B → Result E C)
    → ((first >>= f) >>= g) ≡ (first >>= λ x. (f x >>= g))
bind_assoc panic f g = refl
bind_assoc (err why) f g = refl
bind_assoc (ok x) f g = refl

pub ok_unique {ℓ} :
    {E : Type 0} {A : Type ℓ} (r : Result E A) (x y : A) → r ≡ ok x → r ≡ ok y → x ≡ y
ok_unique panic x y p q = cc
ok_unique (err why) x y p q = cc
ok_unique (ok z) x y p q = cc

-- A call returned, or it did not.
pub data Outcome {ℓ} {E : Type 0} {A : Type ℓ} (r : Result E A) : Type ℓ where
  returned : (x : A) → r ≡ ok x → Outcome r
  failed : (why : E) → r ≡ err why → Outcome r
  panicked : r ≡ panic → Outcome r

pub outcome {ℓ} : {E : Type 0} {A : Type ℓ} (r : Result E A) → Outcome r
outcome panic = panicked refl
outcome (err why) = failed why refl
outcome (ok x) = returned x refl
