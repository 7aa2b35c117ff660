-- ===== src/Heap/Order.antt =====
-- The order of a heap, and what an order must satisfy for the heap to work.
use govertone.Common.{ℕ, zero, suc, ◌≤◌, ◌<◌, ◌≡◌, Bool, true, false, List, arith, length, get_or}
use govertone.Heap.{parent, less_at}

-- A strict weak order: `less b a ≡ false` reads "a is at most b".
pub record IsOrder {ℓ} {A : Type ℓ} (less : A → A → Bool) : Type ℓ where
  pub asym : (a b : A) → less a b ≡ true → less b a ≡ false
  pub trans : (a b c : A) → less b a ≡ false → less c b ≡ false → less c a ≡ false

module _ {ℓ} {A : Type ℓ} (default : A) (less : A → A → Bool) where
  -- Among the first `n` entries, each one whose parent is at `lo` or later is at least its parent.
  abbrev pub IsHeapFrom : ℕ → ℕ → List A → Type 0
  IsHeapFrom lo n h =
      (c : ℕ) → 0 < c → c < n → lo ≤ parent c → less_at default less h c (parent c) ≡ false

  abbrev pub IsHeap : List A → Type 0
  IsHeap h = IsHeapFrom 0 (length h) h

  -- The edges past `i`, from its parent to its children, are in order.
  abbrev pub IsBridged : ℕ → ℕ → List A → ℕ → Type 0
  IsBridged lo n h i =
      (c : ℕ)
      → 0 < c
      → c < n
      → parent c ≡ i
      → 0 < i
      → lo ≤ parent i
      → less_at default less h c (parent i) ≡ false

module _ {ℓ} {A : Type ℓ} (default : A) (less : A → A → Bool) (o : IsOrder less) where
  root_least_below :
      (k : ℕ) (h : List A) (n i : ℕ)
      → IsHeapFrom default less 0 n h
      → i < k
      → i < n
      → less_at default less h i 0 ≡ false
  root_least_below zero h n i v f p = absurd (omega arith)
  root_least_below (suc k) h n zero v f p =
      ground (arith, o.asym (get_or h 0 default) (get_or h 0 default))
  root_least_below (suc k) h n (suc i) v f p =
      o.trans _ _ _ (root_least_below k h n (parent (suc i)) v (omega arith) (omega arith))
        (v (suc i) (omega arith) p (omega arith))

  -- No entry of a heap is less than its root.
  pub root_least :
      (h : List A) (n i : ℕ)
      → IsHeapFrom default less 0 n h
      → i < n
      → less_at default less h i 0 ≡ false
  root_least h n i v p = root_least_below (suc i) h n i v (omega arith) p
