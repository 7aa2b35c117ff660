-- ===== src/Heap.antt =====
-- Go's container/heap, as the scheduler uses it (internal/scheduler/scheduler.go): the slice is a
-- list, Less is a Boolean test on the entries, and Swap, Push and Pop are those of eventHeap.
-- No call below is given an index past the end, so that a slice access never panics; the default
-- entry is what `get_or` needs for totality.
pub mod Order
pub mod Up
pub mod Down
pub mod Size
use govertone.Common.{
  ℕ, zero, suc, ◌+◌, ◌-◌, ◌*◌, ◌/◌, Bool, true, false, not, ◌&&◌, ◌||◌, List, [], ◌∷◌, ◌++◌, ltb,
  ◌==◌, if◌then◌else◌, length, get_or, take, swap,
}

abbrev pub parent : ℕ → ℕ
parent c = (c - 1) / 2

module _ {ℓ} {A : Type ℓ} (default : A) (less : A → A → Bool) where
  -- `h.Less(i, j)`
  abbrev pub less_at : List A → ℕ → ℕ → Bool
  less_at h i j = less (get_or h i default) (get_or h j default)

  -- Each round of `up` moves to the parent; the fuel is one more than the index.
  up_loop : ℕ → List A → ℕ → List A
  up_loop zero h j = h
  up_loop (suc k) h j =
      let rest = up_loop k (swap default h (parent j) j) (parent j) in
      if parent j == j || not (less_at h j (parent j)) then h else rest

  unfoldable pub up : List A → ℕ → List A
  unfolding up_loop
  up h j = up_loop (suc j) h j

  -- The child of `i` that `down` compares: the right one only if it exists and is less.
  smaller_child : List A → ℕ → ℕ → ℕ
  smaller_child h i n =
      if ltb (2 * i + 2) n && less_at h (2 * i + 2) (2 * i + 1) then 2 * i + 2 else 2 * i + 1

  -- Each round of `down` moves to a child, so that `n` rounds are enough.
  down_loop : ℕ → List A → ℕ → ℕ → List A
  down_loop zero h i n = h
  down_loop (suc k) h i n =
      let j = smaller_child h i n in
      let rest = down_loop k (swap default h i j) j n in
      if ltb (2 * i + 1) n && less_at h j i then rest else h

  unfoldable pub down : List A → ℕ → ℕ → List A
  unfolding down_loop smaller_child
  down h i n = down_loop (suc n) h i n

  -- `for i := n/2 - 1; i >= 0; i--`, with the number of rounds left.
  init_loop : ℕ → List A → ℕ → List A
  init_loop zero h n = h
  init_loop (suc i) h n = init_loop i (down h i n) n

  unfoldable pub init : List A → List A
  unfolding init_loop
  init h = init_loop (length h / 2) h (length h)

  unfoldable pub push : List A → A → List A
  push h x = up (h ++ x ∷ []) (length (h ++ x ∷ []) - 1)

  -- On a heap that is not empty.
  unfoldable pub pop : List A → A × List A
  pop h =
      let n = length h - 1 in
      let moved = down (swap default h 0 n) 0 n in (get_or moved n default, take n moved)
