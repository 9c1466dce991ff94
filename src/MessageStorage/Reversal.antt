-- ===== src/MessageStorage/Reversal.antt =====
-- The loop of reverseHistory of messageStorage.go, and the reversal of a list.
use mathlib.Core.Path.{subst}
use mathlib.Core.List.{reverse, reverse-append, reverse-cons, append_assoc, append-nil}
use simply_chat.Base.{
  ℕ, zero, suc, ◌+◌, ◌-◌, ◌≤◌, ltb, true, ◌≡◌, refl, sym, ap, ◌∙◌, some, List, [], ◌∷◌, ◌++◌,
  length, length-append, get_elem?, set, arith,
}
use simply_chat.MessageStorage.History.{swap, reverse_loop, reverse_history}

module _ {ℓ} {A : Type ℓ} where
  get_elem?-append : (a : List A) (x : A) (r : List A) → get_elem? (a ++ x ∷ r) (length a) ≡ some x
  get_elem?-append [] x r = refl
  get_elem?-append (y ∷ a) x r = get_elem?-append a x r

  set-append : (a : List A) (x v : A) (r : List A) → set (a ++ x ∷ r) (length a) v ≡ a ++ v ∷ r
  set-append [] x v r = refl
  set-append (y ∷ a) x v r = ap (λ l. y ∷ l) (set-append a x v r)

  -- Every list but the empty one has a last element.
  last_split : (x : A) (xs : List A) → (ys : List A) × (y : A) × (x ∷ xs ≡ ys ++ y ∷ [])
  last_split x [] = ([], x, refl)
  last_split x (z ∷ zs) = let (ys, y, e) = last_split z zs in (x ∷ ys, y, ap (λ l. x ∷ l) e)

  -- `a ++ x ∷ m ++ y ∷ b`, bracketed at `y`.
  regroup : (a m b : List A) (x y : A) → a ++ x ∷ (m ++ y ∷ b) ≡ (a ++ x ∷ m) ++ y ∷ b
  regroup a m b x y = sym (append_assoc a (x ∷ m) (y ∷ b))

  same_length : (a m : List A) (x y : A) → length (a ++ x ∷ m) ≡ length (a ++ y ∷ m)
  same_length a m x y = omega (arith, length-append a (x ∷ m), length-append a (y ∷ m))

  swap-ends :
      (a m b : List A) (x y : A)
      → swap (length a) (length (a ++ x ∷ m)) (a ++ x ∷ (m ++ y ∷ b)) ≡ a ++ y ∷ (m ++ x ∷ b)
  unfolding swap
  swap-ends a m b x y =
      rw
        (
          get_elem?-append a x (m ++ y ∷ b),
          ap (λ l. get_elem? l (length (a ++ x ∷ m))) (regroup a m b x y)
              ∙ get_elem?-append (a ++ x ∷ m) y b,
          set-append a x y (m ++ y ∷ b),
        )
        (ap (λ l. set l (length (a ++ x ∷ m)) x) (regroup a m b y y)
          ∙ ap (λ n. set ((a ++ y ∷ m) ++ y ∷ b) n x) (same_length a m x y)
          ∙ set-append (a ++ y ∷ m) y x b
          ∙ sym (regroup a m b y x))

  -- One round: the ends change places, and the loop goes on between them.
  reverse_round :
      (fuel : ℕ) (a ys b : List A) (x y : A) (right : ℕ)
      → right ≡ length (a ++ x ∷ ys)
      → reverse_loop fuel (length (a ++ y ∷ [])) (right - 1) ((a ++ y ∷ []) ++ (ys ++ x ∷ b))
        ≡ (a ++ y ∷ []) ++ (reverse ys ++ x ∷ b)
      → reverse_loop (suc fuel) (length a) right (a ++ x ∷ (ys ++ y ∷ b))
        ≡ a ++ y ∷ (reverse ys ++ x ∷ b)
  unfolding reverse_loop
  reverse_round fuel a ys b x y right last ih =
      let more : ltb (length a) right ≡ true = ground (arith, last, length-append a (x ∷ ys)) in
      let next : length a + 1 ≡ length (a ++ y ∷ []) = omega (arith, length-append a (y ∷ [])) in
      let swapped : swap (length a) right (a ++ x ∷ (ys ++ y ∷ b)) ≡ a ++ y ∷ (ys ++ x ∷ b) =
        rw last (swap-ends a ys b x y) in
      rw (more, swapped, next, ← append_assoc a (y ∷ []) (ys ++ x ∷ b))
        (ih ∙ append_assoc a (y ∷ []) (reverse ys ++ x ∷ b))

  reverse-ends :
      (ys b : List A) (x y : A) → reverse (x ∷ (ys ++ y ∷ [])) ++ b ≡ y ∷ (reverse ys ++ x ∷ b)
  reverse-ends ys b x y = simp (reverse-cons, reverse-append, append_assoc)

  -- With one part of the list done on each side, the loop reverses what is between.
  reverse_loop-append :
      (fuel : ℕ) (a m b : List A) (right : ℕ)
      → length m ≤ fuel + 1
      → right ≡ length a + length m - 1
      → reverse_loop fuel (length a) right (a ++ (m ++ b)) ≡ a ++ (reverse m ++ b)
  unfolding reverse_loop
  reverse_loop-append zero a [] b right h e = refl
  reverse_loop-append zero a (x ∷ []) b right h e = refl
  reverse_loop-append zero a (x ∷ z ∷ zs) b right h e = absurd (omega arith)
  reverse_loop-append (suc fuel) a [] b right h e = ground arith
  reverse_loop-append (suc fuel) a (x ∷ []) b right h e = ground arith
  reverse_loop-append (suc fuel) a (x ∷ z ∷ zs) b right h e =
      let (ys, y, split) = last_split z zs in
      let short : length (z ∷ zs) ≡ length ys + 1 = ap length split ∙ length-append ys (y ∷ []) in
      let last : right ≡ length (a ++ x ∷ ys) = omega (arith, length-append a (x ∷ ys)) in
      let ih =
        reverse_loop-append fuel (a ++ y ∷ []) ys (x ∷ b) (right - 1) (omega arith)
          (omega (arith, length-append a (y ∷ []), length-append a (x ∷ ys))) in
      subst
        (λ m.
          reverse_loop (suc fuel) (length a) right (a ++ ((x ∷ m) ++ b))
          ≡ a ++ (reverse (x ∷ m) ++ b))
        (sym split)
        (rw (append_assoc ys (y ∷ []) b, reverse-ends ys b x y)
          (reverse_round fuel a ys b x y right last ih))

  -- Reversing the page in place, by the loop with two indices, gives the reversed list; the rounds
  -- allowed by the length are enough.
  pub reverse_history-eq-reverse : (xs : List A) → reverse_history xs ≡ reverse xs
  unfolding reverse_history
  reverse_history-eq-reverse xs =
      ap (reverse_loop (length xs) 0 (length xs - 1)) (sym (append-nil xs))
      ∙ reverse_loop-append (length xs) [] xs [] (length xs - 1) (omega arith) (omega arith)
      ∙ append-nil (reverse xs)

  length-reverse : (xs : List A) → length (reverse xs) ≡ length xs
  length-reverse [] = refl
  length-reverse (x ∷ xs) =
      ap length (reverse-append (x ∷ []) xs)
      ∙ omega (arith, length-append (reverse xs) (x ∷ []), length-reverse xs)

  pub length-reverse_history : (xs : List A) → length (reverse_history xs) ≡ length xs
  length-reverse_history xs = ap length (reverse_history-eq-reverse xs) ∙ length-reverse xs
