-- ===== src/Base/Lists.antt =====
-- Lists measured by native numbers, and the predicates and loops that the parts share.
use Prim.Native.Nat.{◌<◌, ◌≤◌, ℕ, zero, suc, ◌+◌, min}
use mathlib.Core.Path.{sym, ◌∙◌, ◌≡◌, refl, ap}
use mathlib.Core.Logic.{inl, inr, ◌≢◌}
use mathlib.Core.Bool.{Bool, false, ◌||◌}
use mathlib.Core.List.{map, List, [], ◌∷◌, ◌++◌}
use mathlib.Core.Option.{Option, none, some}
use native.Mathlib.Omega.{arith}
use simply_chat.Base.Tests.{ltb, Bool-cases, if◌then◌else◌, Eq, ◌==◌}

module _ {ℓ} {A : Type ℓ} where
  abbrev pub length : List A → ℕ
  length [] = 0
  length (x ∷ xs) = suc (length xs)

  abbrev pub take : ℕ → List A → List A
  take zero xs = []
  take (suc n) [] = []
  take (suc n) (x ∷ xs) = x ∷ take n xs

  abbrev pub drop : ℕ → List A → List A
  drop zero xs = xs
  drop (suc n) [] = []
  drop (suc n) (x ∷ xs) = drop n xs

  -- `f` applied at one index; out of range nothing changes.
  abbrev pub modify : ℕ → (A → A) → List A → List A
  modify i f [] = []
  modify zero f (x ∷ xs) = f x ∷ xs
  modify (suc i) f (x ∷ xs) = x ∷ modify i f xs

  -- The elements that pass a Boolean test, as SQL's `where` and Go's loops select them.
  abbrev pub select : (A → Bool) → List A → List A
  select p [] = []
  select p (x ∷ xs) = let rest = select p xs in if p x then x ∷ rest else rest

  abbrev pub any : (A → Bool) → List A → Bool
  any p [] = false
  any p (x ∷ xs) = p x || any p xs

  abbrev pub get_elem? : List A → ℕ → Option A
  get_elem? [] i = none
  get_elem? (x ∷ xs) zero = some x
  get_elem? (x ∷ xs) (suc i) = get_elem? xs i

  -- A write out of range changes nothing.
  abbrev pub set : List A → ℕ → A → List A
  set [] i v = []
  set (x ∷ xs) zero v = v ∷ xs
  set (x ∷ xs) (suc i) v = x ∷ set xs i v

  -- Insertion sort by a test that tells which of two elements stands first; stable.
  abbrev pub insert_by : (A → A → Bool) → A → List A → List A
  insert_by first x [] = x ∷ []
  insert_by first x (y ∷ ys) = if first y x then y ∷ insert_by first x ys else x ∷ y ∷ ys

  unfoldable pub sort_by : (A → A → Bool) → List A → List A
  sort_by first [] = []
  sort_by first (x ∷ xs) = insert_by first x (sort_by first xs)

  pub length-append : (xs ys : List A) → length (xs ++ ys) ≡ length xs + length ys
  length-append [] ys = omega arith
  length-append (x ∷ xs) ys = omega (arith, length-append xs ys)

  pub length-take : (n : ℕ) (xs : List A) → length (take n xs) ≡ min n (length xs)
  length-take zero xs = omega arith
  length-take (suc n) [] = omega arith
  length-take (suc n) (x ∷ xs) = omega (arith, length-take n xs)

  pub take-append-drop : (n : ℕ) (xs : List A) → take n xs ++ drop n xs ≡ xs
  take-append-drop zero xs = refl
  take-append-drop (suc n) [] = refl
  take-append-drop (suc n) (x ∷ xs) = ap (λ ys. x ∷ ys) (take-append-drop n xs)

  pub modify-append :
      (xs : List A) (x : A) (f : A → A) → modify (length xs) f (xs ++ x ∷ []) ≡ xs ++ f x ∷ []
  modify-append [] x f = refl
  modify-append (y ∷ xs) x f = ap (λ ys. y ∷ ys) (modify-append xs x f)

  -- All the elements satisfy `P`, as a tuple.
  abbrev pub All {κ} : (A → Type κ) → List A → Type κ
  All P [] = Unit
  All P (x ∷ xs) = P x × All P xs

  pub All-append {κ} : (P : A → Type κ) (xs ys : List A) → All P xs → All P ys → All P (xs ++ ys)
  All-append P [] ys hx hy = hy
  All-append P (x ∷ xs) ys hx hy = (hx.0, All-append P xs ys hx.1 hy)

abbrev pub contains {ℓ} : {A : Type ℓ} ⦃e : Eq A⦄ → A → List A → Bool
contains a xs = any (λ x. a == x) xs

module _ {ℓ} {A : Type ℓ} (p : A → Bool) where
  pub select-append : (xs ys : List A) → select p (xs ++ ys) ≡ select p xs ++ select p ys
  select-append [] ys = refl
  select-append (x ∷ xs) ys = ground (arith, select-append xs ys)

  pub any-append : (xs ys : List A) → any p (xs ++ ys) ≡ (any p xs || any p ys)
  any-append [] ys = refl
  any-append (x ∷ xs) ys = ground (arith, any-append xs ys)

  pub length-select-of_any : (xs : List A) → any p xs ≡ false → length (select p xs) ≡ 0
  length-select-of_any [] h = refl
  length-select-of_any (x ∷ xs) h = ground (arith, length-select-of_any xs)

abbrev pub flat_map {ℓ κ} : {A : Type ℓ} {B : Type κ} → (A → List B) → List A → List B
flat_map f [] = []
flat_map f (x ∷ xs) = f x ++ flat_map f xs

-- No two elements of the list have the same key.
abbrev pub Distinct {ℓ κ} : {A : Type ℓ} {K : Type κ} → (A → K) → List A → Type (ℓ ⊔ κ)
Distinct key [] = Unit
Distinct key (x ∷ xs) = All (λ y. key x ≢ key y) xs × Distinct key xs

module _ {ℓ κ} {A : Type ℓ} {B : Type κ} (f : A → B) where
  pub length-map : (xs : List A) → length (map f xs) ≡ length xs
  length-map [] = refl
  length-map (x ∷ xs) = ap suc (length-map xs)

  pub take-map : (n : ℕ) (xs : List A) → take n (map f xs) ≡ map f (take n xs)
  take-map zero xs = refl
  take-map (suc n) [] = refl
  take-map (suc n) (x ∷ xs) = ap (λ ys. f x ∷ ys) (take-map n xs)

module _ {ℓ} {A : Type ℓ} where
  pub take-take_more : (n : ℕ) (xs : List A) → take n (take (suc n) xs) ≡ take n xs
  take-take_more zero xs = refl
  take-take_more (suc n) [] = refl
  take-take_more (suc n) (x ∷ xs) = ap (λ ys. x ∷ ys) (take-take_more n xs)

  pub take_all : (n : ℕ) (xs : List A) → length xs ≤ n → take n xs ≡ xs
  take_all zero [] h = refl
  take_all zero (x ∷ xs) h = absurd (omega arith)
  take_all (suc n) [] h = refl
  take_all (suc n) (x ∷ xs) h = ap (λ ys. x ∷ ys) (take_all n xs (omega arith))

  pub All-take {κ} : (P : A → Type κ) (n : ℕ) (xs : List A) → All P xs → All P (take n xs)
  All-take P zero xs h = tt
  All-take P (suc n) [] h = tt
  All-take P (suc n) (x ∷ xs) h = (h.0, All-take P n xs h.1)

  pub Distinct-take {κ} :
      {K : Type κ} (key : A → K) (n : ℕ) (xs : List A) → Distinct key xs → Distinct key (take n xs)
  Distinct-take key zero xs d = tt
  Distinct-take key (suc n) [] d = tt
  Distinct-take key (suc n) (x ∷ xs) d =
      (All-take (λ y. key x ≢ key y) n xs d.0, Distinct-take key n xs d.1)

module _ {ℓ κ} {A : Type ℓ} {B : Type κ} (f : A → B) where
  length-map-take : (n : ℕ) (xs : List A) → length (map f (take n xs)) ≡ min n (length xs)
  length-map-take n xs = length-map f (take n xs) ∙ length-take n xs

  -- One element more than `n` is asked for, to see whether there are more.
  pub ltb-length-take :
      (n : ℕ) (xs : List A) → ltb n (length (map f (take (suc n) xs))) ≡ ltb n (length xs)
  ltb-length-take n xs = ground (arith, length-map-take (suc n) xs)

  -- The list cut to `n` elements where there are more.
  pub cut-take :
      (n : ℕ) (xs : List A)
      → (if ltb n (length xs) then take n (map f (take (suc n) xs)) else map f (take (suc n) xs))
        ≡ map f (take n xs)
  cut-take n xs = elim (Bool-cases (ltb n (length xs))) [
    | inl more ↦ rw more (take-map f n (take (suc n) xs) ∙ ap (map f) (take-take_more n xs))
    | inr all ↦
        rw all
          (ap (map f) (take_all (suc n) xs (ground arith) ∙ sym (take_all n xs (ground arith))))
  ]

-- The first `n` elements of a longer list, with the last of them apart.
pub take_last {ℓ} :
    {A : Type ℓ} (n : ℕ) (xs : List A)
    → 0 < n
    → n < length xs
    → (a : List A) × (c : A) × (b : List A) × (xs ≡ a ++ c ∷ b) × (take n xs ≡ a ++ c ∷ [])
take_last zero xs p h = absurd (omega arith)
take_last (suc n) [] p h = absurd (omega arith)
take_last (suc zero) (x ∷ xs) p h = ([], x, xs, refl, refl)
take_last (suc (suc n)) (x ∷ xs) p h =
    let (a, c, b, e, t) = take_last (suc n) xs (omega arith) (omega arith) in
    (x ∷ a, c, b, ap (λ l. x ∷ l) e, ap (λ l. x ∷ l) t)
