-- ===== src/Heap/Size.antt =====
-- How many entries the heap has (container/heap, internal/scheduler/scheduler.go), whatever its order.
use govertone.Common.{
  ℕ, zero, suc, ◌+◌, ◌-◌, ◌<◌, ◌≤◌, ◌≡◌, refl, ap, Bool, List, [], ◌∷◌, arith, length, take, swap,
  length-swap,
}
use govertone.Heap.{smaller_child, down_loop, down, pop}

module _ {ℓ} {A : Type ℓ} (default : A) (less : A → A → Bool) where
  length-down_loop :
      (k : ℕ) (h : List A) (i n : ℕ) → length (down_loop default less k h i n) ≡ length h
  unfolding down_loop
  length-down_loop zero h i n = refl
  length-down_loop (suc k) h i n =
      let j = smaller_child default less h i n in
      ground (arith, length-down_loop k (swap default h i j) j n, length-swap default h i j)

  length-take : (n : ℕ) (xs : List A) → n ≤ length xs → length (take n xs) ≡ n
  length-take zero xs h = refl
  length-take (suc n) [] h = absurd (omega arith)
  length-take (suc n) (x ∷ xs) h = ap suc (length-take n xs (omega arith))

  pub length-pop : (h : List A) → 0 < length h → length (pop default less h).1 + 1 ≡ length h
  unfolding pop down
  length-pop h p =
      let n = length h - 1 in
      let moved = down_loop default less (suc n) (swap default h 0 n) 0 n in
      let size = length-down_loop (suc n) (swap default h 0 n) 0 n in
      let same = length-swap default h 0 n in
      omega (arith, length-take n moved (omega (arith, size, same)))
