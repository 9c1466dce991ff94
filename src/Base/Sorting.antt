-- ===== src/Base/Sorting.antt =====
-- Insertion sort by a strict order that compares every two elements with different keys.
use mathlib.Core.Path.{◌≡◌, refl, sym}
use mathlib.Core.Bool.{Bool, true, false}
use mathlib.Core.Logic.{◌≢◌, inl, inr}
use mathlib.Core.List.{List, [], ◌∷◌, ◌++◌}
use native.Mathlib.Omega.{arith}
use simply_chat.Base.Tests.{Bool-cases, if◌then◌else◌}
use simply_chat.Base.Lists.{All, Distinct, select, insert_by, sort_by}

module _ {A K : Type 0} (key : A → K) (first : A → A → Bool) where
  pub record IsOrder : Type 0 where
    pub trans : (x y z : A) → first x y ≡ true → first y z ≡ true → first x z ≡ true
    pub asym : (x y : A) → first x y ≡ true → first y x ≡ false
    pub total : (x y : A) → key x ≢ key y → first x y ≡ false → first y x ≡ true

module _ {A : Type 0} (first : A → A → Bool) where
  abbrev pub Sorted : List A → Type 0
  Sorted [] = Unit
  Sorted (x ∷ xs) = All (λ y. first x y ≡ true) xs × Sorted xs

  pub All-insert_by :
      (P : A → Type 0) (x : A) (xs : List A) → P x → All P xs → All P (insert_by first x xs)
  All-insert_by P x [] p h = (p, tt)
  All-insert_by P x (y ∷ ys) p h = elim (Bool-cases (first y x)) [
    | inl before ↦ rw before (h.0, All-insert_by P x ys p h.1)
    | inr after ↦ rw after (p, h)
  ]

  pub All-sort_by : (P : A → Type 0) (xs : List A) → All P xs → All P (sort_by first xs)
  unfolding sort_by
  All-sort_by P [] h = tt
  All-sort_by P (x ∷ xs) h = All-insert_by P x (sort_by first xs) h.0 (All-sort_by P xs h.1)

module _ {A : Type 0} (p : A → Bool) where
  pub All-select : (P : A → Type 0) (xs : List A) → All P xs → All P (select p xs)
  All-select P [] h = tt
  All-select P (x ∷ xs) h = elim (Bool-cases (p x)) [
    | inl yes' ↦ rw yes' (h.0, All-select P xs h.1)
    | inr no' ↦ rw no' (All-select P xs h.1)
  ]

  pub Distinct-select :
      {K : Type 0} (key : A → K) (xs : List A) → Distinct key xs → Distinct key (select p xs)
  Distinct-select key [] d = tt
  Distinct-select key (x ∷ xs) d = elim (Bool-cases (p x)) [
    | inl yes' ↦ rw yes' (All-select (λ y. key x ≢ key y) xs d.0, Distinct-select key xs d.1)
    | inr no' ↦ rw no' (Distinct-select key xs d.1)
  ]

module _ {A K : Type 0} (key : A → K) (first : A → A → Bool) where
  Distinct-insert_by :
      (x : A) (xs : List A)
      → All (λ y. key x ≢ key y) xs
      → Distinct key xs
      → Distinct key (insert_by first x xs)
  Distinct-insert_by x [] h d = (tt, tt)
  Distinct-insert_by x (y ∷ ys) h d = elim (Bool-cases (first y x)) [
    | inl before ↦ rw before (
      All-insert_by first (λ z. key y ≢ key z) x ys (λ e. h.0 (sym e)) d.0,
      Distinct-insert_by x ys h.1 d.1,
    )
    | inr after ↦ rw after (h, d)
  ]

  pub Distinct-sort_by : (xs : List A) → Distinct key xs → Distinct key (sort_by first xs)
  unfolding sort_by
  Distinct-sort_by [] d = tt
  Distinct-sort_by (x ∷ xs) d =
      Distinct-insert_by x (sort_by first xs) (All-sort_by first (λ y. key x ≢ key y) xs d.0)
        (Distinct-sort_by xs d.1)

module _ {A K : Type 0} (key : A → K) (first : A → A → Bool) (o : IsOrder key first) where
  open o use {trans, asym, total}

  All-first :
      (x y : A) (ys : List A)
      → first x y ≡ true
      → All (λ z. first y z ≡ true) ys
      → All (λ z. first x z ≡ true) ys
  All-first x y [] h a = tt
  All-first x y (z ∷ zs) h a = (trans x y z h a.0, All-first x y zs h a.1)

  insert_by-Sorted :
      (x : A) (xs : List A)
      → All (λ y. key x ≢ key y) xs
      → Sorted first xs
      → Sorted first (insert_by first x xs)
  insert_by-Sorted x [] h s = (tt, tt)
  insert_by-Sorted x (y ∷ ys) h s = elim (Bool-cases (first y x)) [
    | inl before ↦
        rw before (
          All-insert_by first (λ z. first y z ≡ true) x ys before s.0,
          insert_by-Sorted x ys h.1 s.1,
        )
    | inr after ↦
        let smaller = total y x (λ e. h.0 (sym e)) after in
        rw after ((smaller, All-first x y ys smaller s.0), s)
  ]

  pub sort_by-Sorted : (xs : List A) → Distinct key xs → Sorted first (sort_by first xs)
  unfolding sort_by
  sort_by-Sorted [] d = tt
  sort_by-Sorted (x ∷ xs) d =
      insert_by-Sorted x (sort_by first xs) (All-sort_by first (λ y. key x ≢ key y) xs d.0)
        (sort_by-Sorted xs d.1)

  -- An element that stands before all the others is put at the head.
  insert_by-first :
      (x : A) (xs : List A) → All (λ y. first x y ≡ true) xs → insert_by first x xs ≡ x ∷ xs
  insert_by-first x [] h = refl
  insert_by-first x (y ∷ ys) h = rw (asym x y h.0)

  select-insert_by :
      (p : A → Bool) (x : A) (xs : List A)
      → All (λ y. key x ≢ key y) xs
      → Sorted first xs
      → select p (insert_by first x xs)
        ≡ (if p x then insert_by first x (select p xs) else select p xs)
  select-insert_by p x [] h s = ground arith
  select-insert_by p x (y ∷ ys) h s = elim (Bool-cases (first y x)) [
    | inl before ↦ ground (arith, select-insert_by p x ys h.1 s.1)
    | inr after ↦
        let smaller = total y x (λ e. h.0 (sym e)) after in
        ground (
          arith,
          insert_by-first x (select p ys)
              (All-select p (λ z. first x z ≡ true) ys (All-first x y ys smaller s.0)),
        )
  ]

  pub select-sort_by :
      (p : A → Bool) (xs : List A)
      → Distinct key xs
      → select p (sort_by first xs) ≡ sort_by first (select p xs)
  unfolding sort_by
  select-sort_by p [] d = refl
  select-sort_by p (x ∷ xs) d = ground (
    arith,
    select-insert_by p x (sort_by first xs) (All-sort_by first (λ y. key x ≢ key y) xs d.0)
        (sort_by-Sorted xs d.1),
    select-sort_by p xs d.1,
  )

  select-All : (p : A → Bool) (xs : List A) → All (λ y. p y ≡ true) xs → select p xs ≡ xs
  select-All p [] h = refl
  select-All p (x ∷ xs) h = rw (h.0, select-All p xs h.1)

  Sorted-right : (a b : List A) → Sorted first (a ++ b) → Sorted first b
  Sorted-right [] b s = s
  Sorted-right (x ∷ a) b s = Sorted-right a b s.1

  All-last : (P : A → Type 0) (a b : List A) (c : A) → All P (a ++ c ∷ b) → P c
  All-last P [] b c h = h.0
  All-last P (x ∷ a) b c h = All-last P a b c h.1

  -- What stands behind an element of a sorted list is what the order puts behind it.
  pub select-Sorted :
      (a b : List A) (c : A) → Sorted first (a ++ c ∷ b) → select (first c) (a ++ c ∷ b) ≡ b
  select-Sorted [] b c s = ground (arith, asym c c, select-All (first c) b s.0)
  select-Sorted (x ∷ a) b c s =
      rw (asym x c (All-last (λ y. first x y ≡ true) a b c s.0)) (select-Sorted a b c s.1)
