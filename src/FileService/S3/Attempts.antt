-- ===== src/FileService/S3/Attempts.antt =====
-- The loop of attempts of s3storage/storage.go.
use simply_chat.Base.{
  ℕ, zero, suc, true, false, ◌≡◌, refl, ◌∙◌, Option, some, ok, err, Exec, Result-cases, Bool-cases,
  inl, inr, arith,
}
use simply_chat.FileService.Errors.{FileError, is_err, file_not_found}
use simply_chat.FileService.S3.{ClientError, map_error, attempts, last_error, mapped}

module _ {S A : Type 0} (operation : Exec S FileError A) where
  -- What every attempt keeps, the loop keeps.
  pub attempts-keeps :
      (V : Type 0) (view : S → V)
      → ((s : S) → view (operation s).1 ≡ view s)
      → (n : ℕ) (last : Option FileError) (s : S) → view (attempts operation n last s).1 ≡ view s
  unfolding attempts
  attempts-keeps V view keeps zero last s = refl
  attempts-keeps V view keeps (suc n) last s = elim (Result-cases (operation s).0) [
    | inl (a, e) ↦ rw e (keeps s)
    | inr (x, e) ↦ elim (Bool-cases (is_err x file_not_found)) [
      | inl final ↦ rw (e, final) (keeps s)
      | inr more ↦ rw (e, more) (attempts-keeps V view keeps n (some x) (operation s).1 ∙ keeps s)
    ]
  ]

  -- What holds after every attempt that succeeds, holds where the loop does, and from a state
  -- that views like the first one.
  pub attempts-ok :
      (P : S → A → S → Type 0)
      → ((s : S) (a : A) → (operation s).0 ≡ ok a → P s a (operation s).1)
      → ((s t u : S) (a : A) → (operation s).1 ≡ t → P t a u → P s a u)
      → (n : ℕ) (last : Option FileError) (s : S) (a : A) → (attempts operation n last s).0 ≡ ok a
      → P s a (attempts operation n last s).1
  unfolding attempts
  attempts-ok P holds back zero last s a h = absurd (ground arith)
  attempts-ok P holds back (suc n) last s a h = elim (Result-cases (operation s).0) [
    | inl (b, e) ↦ rw e (holds s a (ground (arith, e)))
    | inr (x, e) ↦ elim (Bool-cases (is_err x file_not_found)) [
      | inl final ↦ absurd (ground (arith, e))
      | inr more ↦
          rw (e, more)
            (back s (operation s).1 _ a refl
              (attempts-ok P holds back n (some x) (operation s).1 a (ground (arith, e))))
    ]
  ]

  -- What holds after every attempt that finds no file, holds where the loop finds none.
  pub attempts-not_found :
      (P : S → Type 0)
      → ((s : S) (e : FileError)
          → (operation s).0 ≡ err e
          → is_err e file_not_found ≡ true
          → P (operation s).1)
      → (n : ℕ) (last : Option FileError) (s : S) (e : FileError)
      → is_err (last_error last) file_not_found ≡ false
      → (attempts operation n last s).0 ≡ err e
      → is_err e file_not_found ≡ true
      → P (attempts operation n last s).1
  unfolding attempts
  attempts-not_found P holds zero last s e fresh h q = absurd (ground arith)
  attempts-not_found P holds (suc n) last s e fresh h q = elim (Result-cases (operation s).0) [
    | inl (b, d) ↦ absurd (ground (arith, d))
    | inr (x, d) ↦ elim (Bool-cases (is_err x file_not_found)) [
      | inl final ↦ rw (d, final) (holds s x d final)
      | inr more ↦
          rw (d, more)
            (attempts-not_found P holds n (some x) (operation s).1 e more (ground (arith, d)) q)
    ]
  ]

module _ {S A : Type 0} (m : Exec S ClientError A) (s : S) where
  pub mapped-ok : (a : A) → (mapped m s).0 ≡ ok a → (m s).0 ≡ ok a
  mapped-ok a h = elim (Result-cases (m s).0) [
    | inl (b, e) ↦ e ∙ ground (arith, e)
    | inr (x, e) ↦ absurd (ground (arith, e))
  ]

  pub mapped-err :
      (x : FileError)
      → (mapped m s).0 ≡ err x
      → (e : ClientError) × ((m s).0 ≡ err e) × (map_error e ≡ x)
  mapped-err x h = elim (Result-cases (m s).0) [
    | inl (b, d) ↦ absurd (ground (arith, d))
    | inr (e, d) ↦ (e, d, ground (arith, d))
  ]
