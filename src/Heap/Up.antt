-- ===== src/Heap/Up.antt =====
-- Push restores the order of the heap.
use mathlib.Core.List.{perm_middle, append-nil}
use mathlib.Core.List.Perm
use govertone.Common.{
  ℕ, zero, suc, ◌+◌, ◌-◌, ◌<◌, ◌≡◌, ◌≢◌, inl, inr, Bool, true, false, List, [], ◌∷◌, ◌++◌, Perm,
  arith, Bool-cases, ◌==◌, not, ◌||◌, length, length-append, get_or, get_or-append, swap,
  length-swap, get_or-swap, swap-perm,
}
use govertone.Heap.{parent, less_at, up_loop, up, push}
use govertone.Heap.Order.{IsOrder, IsHeap, IsBridged}

module _ {ℓ} {A : Type ℓ} (default : A) (less : A → A → Bool) (o : IsOrder less) where
  -- Only the edge above `i` may be out of order.
  record UpInv (h : List A) (i : ℕ) : Type 0 where
    inside : i < length h
    edges : (c : ℕ) → 0 < c → c < length h → c ≢ i → less_at default less h c (parent c) ≡ false
    bridged : IsBridged default less 0 (length h) h i

  swap-UpInv :
      (h : List A) (i : ℕ)
      → UpInv h i
      → 0 < i
      → less_at default less h i (parent i) ≡ true
      → UpInv (swap default h (parent i) i) (parent i)
  swap-UpInv h i v pos below =
      let at = get_or-swap default h (parent i) i (omega (arith, v.inside)) v.inside in
      let x = λ (c : ℕ). get_or h c default in
      let asym = o.asym (x i) (x (parent i)) below in
      record {
        inside = omega (arith, v.inside, length-swap default h (parent i) i);
        edges = λ c p q r. ground (
          arith,
          length-swap default h (parent i) i,
          at c,
          at (parent c),
          v.edges c,
          v.bridged c,
          o.trans (x i) (x (parent i)) (x c) asym,
        );
        bridged = λ c p q r s t. ground (
          arith,
          length-swap default h (parent i) i,
          at c,
          at (parent (parent i)),
          v.edges c,
          v.edges (parent i),
          o.trans (x (parent (parent i))) (x (parent i)) (x c),
        );
      }

  up_loop-IsHeap :
      (k : ℕ) (h : List A) (i : ℕ)
      → i < k
      → UpInv h i
      → IsHeap default less (up_loop default less k h i) × Perm (up_loop default less k h i) h
  unfolding up_loop
  up_loop-IsHeap zero h i f v = absurd (omega arith)
  up_loop-IsHeap (suc k) h i f v =
      elim (Bool-cases (parent i == i || not (less_at default less h i (parent i)))) [
        | inl e ↦ rw e (λ c p q r. ground (arith, v.edges c), Perm.rfl)
        | inr e ↦
            let inside = v.inside in
            let pos : 0 < i = ground arith in
            let below : less_at default less h i (parent i) ≡ true = ground arith in
            let (heap, perm) =
              up_loop-IsHeap k (swap default h (parent i) i) (parent i) (omega arith)
                (swap-UpInv h i v pos below) in
            rw e (heap, Perm.trans perm (swap-perm default h (parent i) i (omega arith) inside))
      ]

  -- Push adds exactly the entry, and keeps the order.
  pub push_lem :
      (h : List A) (x : A)
      → IsHeap default less h
      → IsHeap default less (push default less h x) × Perm (push default less h x) (x ∷ h)
  unfolding push up
  push_lem h x v =
      let size : length (h ++ x ∷ []) ≡ length h + 1 = length-append h (x ∷ []) in
      let start : UpInv (h ++ x ∷ []) (length (h ++ x ∷ []) - 1) = record {
        inside = omega (arith, size);
        edges = λ c p q r. ground (
          arith,
          size,
          v c,
          get_or-append h (x ∷ []) c default,
          get_or-append h (x ∷ []) (parent c) default,
        );
        bridged = λ c p q r s t. absurd (omega (arith, size));
      } in
      let (heap, perm) =
        up_loop-IsHeap (suc (length (h ++ x ∷ []) - 1)) (h ++ x ∷ []) _ (omega arith) start in
      (heap, Perm.trans perm (rw append-nil at (perm_middle {a = x} h [])))
