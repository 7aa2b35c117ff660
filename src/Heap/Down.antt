-- ===== src/Heap/Down.antt =====
-- Pop and Init restore the order of the heap.
use mathlib.Core.List.{perm_middle, append-nil}
use mathlib.Core.List.Perm
use govertone.Common.{
  ℕ, zero, suc, ◌+◌, ◌-◌, ◌*◌, ◌/◌, ◌≤◌, ◌<◌, ◌≡◌, ◌≢◌, refl, sym, ap, ◌∙◌, ◌⊎◌, inl, inr, Bool,
  true, false, List, [], ◌∷◌, ◌++◌, Perm, arith, Bool-cases, ltb, ◌&&◌, length, length-append,
  get_or, get_or-take, take, take-snoc, swap, length-swap, get_or-swap, swap-perm, length-perm,
}
use govertone.Heap.{parent, less_at, smaller_child, down_loop, down, init_loop, init, pop}
use govertone.Heap.Order.{IsOrder, IsHeapFrom, IsHeap, IsBridged}

module _ {ℓ} {A : Type ℓ} (default : A) (less : A → A → Bool) (o : IsOrder less) where
  -- Among the first `n` entries only the edges below `i` may be out of order.
  record SettledBut (lo n : ℕ) (h : List A) (i : ℕ) : Type 0 where
    fits : n ≤ length h
    edges :
        (c : ℕ)
        → 0 < c
        → c < n
        → lo ≤ parent c
        → parent c ≢ i
        → less_at default less h c (parent c) ≡ false
    bridged : IsBridged default less lo n h i

  record IsLeastChild (h : List A) (i n m : ℕ) : Type 0 where
    exists : m < n
    child : (m ≡ 2 * i + 1) ⊎ (m ≡ 2 * i + 2)
    least : (c : ℕ) → 0 < c → c < n → parent c ≡ i → less_at default less h c m ≡ false

  smaller_child-IsLeastChild :
      (h : List A) (i n : ℕ) → 2 * i + 1 < n → IsLeastChild h i n (smaller_child default less h i n)
  unfolding smaller_child
  smaller_child-IsLeastChild h i n p =
      let l = get_or h (2 * i + 1) default in
      let r = get_or h (2 * i + 2) default in
      elim (Bool-cases (ltb (2 * i + 2) n && less_at default less h (2 * i + 2) (2 * i + 1))) [
        | inl e ↦ rw e (record {
          exists = ground arith;
          child = inr (omega arith);
          least = λ c q t s. ground (arith, o.asym r r, o.asym r l);
        })
        | inr e ↦ rw e (record {
          exists = p;
          child = inl (omega arith);
          least = λ c q t s. ground (arith, o.asym l l, o.asym r l);
        })
      ]

  swap-SettledBut :
      (lo n : ℕ) (h : List A) (i m : ℕ)
      → SettledBut lo n h i
      → IsLeastChild h i n m
      → less_at default less h m i ≡ true
      → SettledBut lo n (swap default h i m) m
  swap-SettledBut lo n h i m v s below =
      let fits = v.fits in
      let exists = s.exists in
      let child = s.child in
      let at = get_or-swap default h i m (omega arith) (omega arith) in
      let x = λ (c : ℕ). get_or h c default in
      record {
        fits = omega (arith, length-swap default h i m);
        edges = λ c p q r t.
            ground
              (arith, at c, at (parent c), v.edges c, v.bridged m, s.least c, o.asym (x m) (x i));
        bridged = λ c p q r t u. ground (arith, at c, at (parent m), v.edges c);
      }

  -- What `down` leaves: the entries in order, none lost, those past the first `n` untouched.
  abbrev Sifted : ℕ → ℕ → List A → List A → Type ℓ
  Sifted lo n h g =
      IsHeapFrom default less lo n g
      × Perm g h
      × ((c : ℕ) → n ≤ c → get_or g c default ≡ get_or h c default)

  down_loop-Sifted :
      (k lo n : ℕ) (h : List A) (i : ℕ)
      → n - i < k
      → SettledBut lo n h i
      → Sifted lo n h (down_loop default less k h i n)
  unfolding down_loop
  down_loop-Sifted zero lo n h i f v = absurd (omega arith)
  down_loop-Sifted (suc k) lo n h i f v =
      let m = smaller_child default less h i n in
      let x = λ (c : ℕ). get_or h c default in
      elim (Bool-cases (ltb (2 * i + 1) n)) [
        | inr e ↦ rw e (λ c p q r. ground (arith, v.edges c), Perm.rfl, λ c p. refl)
        | inl e ↦
            let s = smaller_child-IsLeastChild h i n (ground arith) in
            let fits = v.fits in
            let exists = s.exists in
            let child = s.child in
            elim (Bool-cases (less_at default less h m i)) [
              | inr stay ↦
                  rw (e, stay)
                    (
                      λ c p q r. ground (arith, v.edges c, s.least c, o.trans (x i) (x m) (x c)),
                      Perm.rfl,
                      λ c p. refl,
                    )
              | inl go ↦
                  let (heap, perm, kept) =
                    down_loop-Sifted k lo n (swap default h i m) m (omega arith)
                      (swap-SettledBut lo n h i m v s go) in
                  let hi : i < length h = omega arith in
                  let hm : m < length h = omega arith in
                  rw (e, go)
                    (
                      heap,
                      Perm.trans perm (swap-perm default h i m hi hm),
                      λ c p. ground (arith, kept c, get_or-swap default h i m hi hm c),
                    )
            ]
      ]

  down-Sifted :
      (lo n : ℕ) (h : List A) (i : ℕ)
      → SettledBut lo n h i
      → Sifted lo n h (down default less h i n)
  unfolding down
  down-Sifted lo n h i v = down_loop-Sifted (suc n) lo n h i (omega arith) v

  -- One round of Init: the tree below `i` is in order, and so is the one below `i - 1` afterwards.
  init_loop-IsHeap :
      (i n : ℕ) (h : List A)
      → n ≡ length h
      → IsHeapFrom default less i n h
      → IsHeapFrom default less 0 n (init_loop default less i h n)
        × Perm (init_loop default less i h n) h
  unfolding init_loop
  init_loop-IsHeap zero n h e v = (v, Perm.rfl)
  init_loop-IsHeap (suc i) n h e v =
      let start : SettledBut i n h i = record {
        fits = omega arith;
        edges = λ c p q r s. v c p q (omega arith);
        bridged = λ c p q r s t. absurd (omega arith);
      } in
      let (heap, perm, kept) = down-Sifted i n h i start in
      let (heap', perm') =
        init_loop-IsHeap i n (down default less h i n) (omega (arith, length-perm perm)) heap in
      (heap', Perm.trans perm' perm)

  -- Init puts any entries in order.
  pub init_lem :
      (h : List A) → IsHeap default less (init default less h) × Perm (init default less h) h
  unfolding init
  init_lem h =
      let (heap, perm) =
        init_loop-IsHeap (length h / 2) (length h) h refl λ c p q r. absurd (omega arith) in
      (rw (length-perm perm) heap, perm)

  -- Pop takes the root of a heap that is not empty, and keeps the others in order.
  pub pop_lem :
      (h : List A)
      → IsHeap default less h
      → 0 < length h
      → IsHeap default less (pop default less h).1
        × Perm ((pop default less h).0 ∷ (pop default less h).1) h
        × ((pop default less h).0 ≡ get_or h 0 default)
  unfolding pop
  pop_lem h v p =
      let n = length h - 1 in
      let last : n < length h = omega arith in
      let w = swap default h 0 n in
      let at = get_or-swap default h 0 n p last in
      let size = length-swap default h 0 n in
      let start : SettledBut 0 n w 0 = record {
        fits = omega (arith, size);
        edges = λ c p q r s. ground (arith, at c, at (parent c), v c);
        bridged = λ c p q r s t. absurd (omega arith);
      } in
      let (heap, perm, kept) = down-Sifted 0 n w 0 start in
      let g = down default less w 0 n in
      let whole : take n g ++ get_or g n default ∷ [] ≡ g =
        take-snoc n g default (omega (arith, length-perm perm, size)) in
      let count : length (take n g) + 1 ≡ length g =
        sym (length-append (take n g) (get_or g n default ∷ [])) ∙ ap length whole in
      let total : length g ≡ length h = omega (arith, length-perm perm, size) in
      (
        λ c p q r. ground (
          arith,
          heap c,
          count,
          total,
          get_or-take n g c default,
          get_or-take n g (parent c) default,
        ),
        Perm.trans
            (Perm.symm (rw append-nil at (perm_middle {a = get_or g n default} (take n g) [])))
            (rw whole (Perm.trans perm (swap-perm default h 0 n p last))),
        ground (arith, kept n, at n),
      )
