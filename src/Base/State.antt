-- ===== src/Base/State.antt =====
-- Stateful code that returns a value or an error. What was written before an error stays written,
-- so the state comes back beside the error too.
use mathlib.Core.Bool.{Bool, true, false}
use mathlib.Core.Path.{◌≡◌, refl}
use mathlib.Core.Logic.{◌⊎◌, inl, inr}
use mathlib.Core.Option.{Option, none, some}
use native.Mathlib.Omega.{arith}

pub data Result {ℓ κ} (E : Type ℓ) (A : Type κ) : Type (ℓ ⊔ κ) where
  ok : A → Result E A
  err : E → Result E A

abbrev pub Exec : Type 0 → Type 0 → Type 0 → Type 0
Exec S E A = S → Result E A × S

module _ {S E A : Type 0} where
  abbrev pub pure : A → Exec S E A
  pure a s = (ok a, s)

  abbrev pub raise : E → Exec S E A
  raise e s = (err e, s)

  -- A value computed without the state.
  abbrev pub lift : Result E A → Exec S E A
  lift r s = (r, s)

  abbrev pub or_raise : E → Option A → Exec S E A
  or_raise e none s = (err e, s)
  or_raise e (some a) s = (ok a, s)

abbrev pub gets : {S E A : Type 0} → (S → A) → Exec S E A
gets f s = (ok (f s), s)

abbrev pub put : {S E : Type 0} → (S → S) → Exec S E (Unit {0})
put f s = (ok tt, f s)

-- An early return with an error, where the condition is false.
abbrev pub guard : {S E : Type 0} → Bool → E → Exec S E (Unit {0})
guard true e s = (ok tt, s)
guard false e s = (err e, s)

-- Errors of a callee, wrapped by the caller.
abbrev pub map_err : {E F A : Type 0} → (E → F) → Result E A → Result F A
map_err f (ok a) = ok a
map_err f (err e) = err (f e)

module _ {S E A B : Type 0} where
  abbrev pub continue : Result E A → (A → Exec S E B) → Exec S E B
  continue (ok a) f s = f a s
  continue (err e) f s = (err e, s)

  infixl 5 ◌>>=◌ ◌>>◌
  abbrev pub ◌>>=◌ : Exec S E A → (A → Exec S E B) → Exec S E B
  ◌>>=◌ m f s = let (r, s') = m s in continue r f s'

  abbrev pub ◌>>◌ : Exec S E A → Exec S E B → Exec S E B
  m >> n = m >>= λ _. n

-- `m` only moves the state along `R`, whether it returns or fails.
abbrev pub Moves : {S E A : Type 0} → (S → S → Type 0) → Exec S E A → Type 0
Moves {S} R m = (s : S) → R s (m s).1

module _ {S E A B : Type 0} (R : S → S → Type 0) (trans : (a b c : S) → R a b → R b c → R a c) where
  continue-Moves :
      (s t : S) (r : Result E A) (f : A → Exec S E B)
      → R s t
      → ((a : A) → Moves R (f a))
      → R s (continue r f t).1
  continue-Moves s t (ok a) f p q = trans s t (f a t).1 p (q a t)
  continue-Moves s t (err e) f p q = p

  pub bind-Moves :
      (m : Exec S E A) (f : A → Exec S E B)
      → Moves R m
      → ((a : A) → Moves R (f a))
      → Moves R (m >>= f)
  bind-Moves m f p q s = continue-Moves s (m s).1 (m s).0 f (p s) q

pub Result-cases :
    {E A : Type 0} (r : Result E A) → ((a : A) × (r ≡ ok a)) ⊎ ((e : E) × (r ≡ err e))
Result-cases (ok a) = inl (a, refl)
Result-cases (err e) = inr (e, refl)

module _ {S E B : Type 0} where
  -- What an early return that was not taken has shown.
  pub or_raise-ok :
      {A : Type 0} (e : E) (o : Option A) (f : A → Exec S E B) (s : S) (b : B)
      → ((or_raise e o >>= f) s).0 ≡ ok b
      → (a : A) × (o ≡ some a) × ((f a s).0 ≡ ok b)
  or_raise-ok e none f s b h = absurd (ground arith)
  or_raise-ok e (some a) f s b h = (a, refl, h)

  pub guard-ok :
      (test : Bool) (e : E) (f : Unit {0} → Exec S E B) (s : S) (b : B)
      → ((guard test e >>= f) s).0 ≡ ok b
      → (test ≡ true) × ((f tt s).0 ≡ ok b)
  guard-ok true e f s b h = (refl, h)
  guard-ok false e f s b h = absurd (ground arith)
