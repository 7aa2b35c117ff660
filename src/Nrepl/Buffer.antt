-- ===== src/Nrepl/Buffer.antt =====
-- boundedBuffer (internal/nrepl/server.go): the output of an evaluation, up to a limit. `remaining`
-- starts at a positive limit and never falls below 0.
use mathlib.Core.List.{append-nil, append_assoc}
use govertone.Common.{
  ℕ, zero, suc, ◌-◌, ◌≤◌, ◌≡◌, refl, ap, ◌∙◌, sym, inl, inr, Bool, Bool-cases, true, false, List,
  [], ◌∷◌, ◌++◌, length, length-append, take, ltb, arith, if◌then◌else◌,
}

none_left : (n : ℕ) → 0 - suc n ≡ 0
none_left n = omega arith

minus_zero : (n : ℕ) → n - 0 ≡ n
minus_zero n = omega arith

one_less : (m n : ℕ) → suc m - suc n ≡ m - n
one_less m n = omega arith

module _ {A : Type 0} where
  take-all : (n : ℕ) (xs : List A) → length xs ≤ n → take n xs ≡ xs
  take-all zero [] h = refl
  take-all zero (x ∷ xs) h = absurd (omega arith)
  take-all (suc n) [] h = refl
  take-all (suc n) (x ∷ xs) h = ap (◌∷◌ x) (take-all n xs (omega arith))

  take-append : (n : ℕ) (xs ys : List A) → take n (xs ++ ys) ≡ take n xs ++ take (n - length xs) ys
  take-append zero [] ys = refl
  take-append zero (x ∷ xs) ys = rw (none_left (length xs)) refl
  take-append (suc n) [] ys = rw (minus_zero (suc n)) refl
  take-append (suc n) (x ∷ xs) ys = rw (one_less n (length xs)) (ap (◌∷◌ x) (take-append n xs ys))

  length-take :
      (n : ℕ) (xs : List A) → length (take n xs) ≡ (if ltb (length xs) n then length xs else n)
  length-take zero xs = ground arith
  length-take (suc n) [] = ground arith
  length-take (suc n) (x ∷ xs) = ground (arith, length-take n xs)

pub record BoundedBuffer (A : Type 0) : Type 0 where
  pub buffer : List A
  pub remaining : ℕ
  pub overflowed : Bool

module _ {A : Type 0} where
  unfoldable pub new_bounded_buffer : ℕ → BoundedBuffer A
  new_bounded_buffer limit = record { buffer = []; remaining = limit; overflowed = false }

  -- Write; it always returns the length of what it was given.
  unfoldable pub write : BoundedBuffer A → List A → BoundedBuffer A
  write b p =
      let over = ltb b.remaining (length p) in
      let kept = if over then take b.remaining p else p in
      record {
        buffer = if ltb 0 (length kept) then b.buffer ++ kept else b.buffer;
        remaining = if ltb 0 (length kept) then b.remaining - length kept else b.remaining;
        overflowed = if over then true else b.overflowed;
      }

  unfoldable pub write_each : BoundedBuffer A → List (List A) → BoundedBuffer A
  write_each b [] = b
  write_each b (p ∷ ps) = write_each (write b p) ps

  abbrev pub joined : List (List A) → List A
  joined [] = []
  joined (p ∷ ps) = p ++ joined ps

  -- The specification: the buffer of a limit after a text was written.
  abbrev pub holding : ℕ → List A → BoundedBuffer A
  holding limit text = record {
    buffer = take limit text;
    remaining = limit - length text;
    overflowed = ltb limit (length text);
  }

  kept_lem : (n : ℕ) (p : List A) → (if ltb n (length p) then take n p else p) ≡ take n p
  kept_lem n p = elim (Bool-cases (ltb n (length p))) [
    | inl over ↦ rw over refl
    | inr fits ↦ rw fits (sym (take-all n p (ground arith)))
  ]

  appended : (xs ys : List A) → (if ltb 0 (length ys) then xs ++ ys else xs) ≡ xs ++ ys
  appended xs [] = sym (append-nil xs)
  appended xs (y ∷ ys) = ground arith

  new-holding : (limit : ℕ) → new_bounded_buffer limit ≡ holding limit []
  unfolding new_bounded_buffer
  new-holding zero = refl
  new-holding (suc n) =
      let within : ltb (suc n) 0 ≡ false = ground arith in rw (minus_zero (suc n), within) refl

  write-holding :
      (limit : ℕ) (text p : List A) → write (holding limit text) p ≡ holding limit (text ++ p)
  unfolding write
  write-holding limit text p =
      let rest = limit - length text in
      let buffer = appended (take limit text) (take rest p) ∙ sym (take-append limit text p) in
      let remaining : (if ltb 0 (length (take rest p)) then rest - length (take rest p) else rest)
          ≡ limit - length (text ++ p) =
        ground (arith, length-take rest p, length-append text p) in
      let overflowed : (if ltb rest (length p) then true else ltb limit (length text))
          ≡ ltb limit (length (text ++ p)) =
        ground (arith, length-append text p) in
      rw (kept_lem rest p) (rw (buffer, remaining, overflowed) refl)

  write_each-holding :
      (limit : ℕ) (text : List A) (ps : List (List A))
      → write_each (holding limit text) ps ≡ holding limit (text ++ joined ps)
  unfolding write_each
  write_each-holding limit text [] = rw (append-nil text) refl
  write_each-holding limit text (p ∷ ps) = rw (write-holding limit text p) (
      write_each-holding limit (text ++ p) ps
      ∙ ap (holding limit) (append_assoc text p (joined ps)))

  -- Whatever pieces the output comes in, the buffer of a limit holds the first bytes of the whole output up to the
  -- limit, and has overflowed exactly when the whole output is longer.
  pub write_each_lem :
      (limit : ℕ) (ps : List (List A))
      → let b = write_each (new_bounded_buffer limit) ps in
        (b.buffer ≡ take limit (joined ps))
        × (b.overflowed ≡ ltb limit (length (joined ps)))
        × (length b.buffer ≤ limit)
  unfolding new_bounded_buffer
  write_each_lem limit ps =
      let start : new_bounded_buffer limit ≡ holding limit [] = new-holding limit in
      let all : write_each (new_bounded_buffer limit) ps ≡ holding limit (joined ps) =
        ap (λ b. write_each b ps) start ∙ write_each-holding limit [] ps in
      rw all (refl, refl, ground (arith, length-take limit (joined ps)))
