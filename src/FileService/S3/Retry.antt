-- ===== src/FileService/S3/Retry.antt =====
-- What the retry loop returns.
use simply_chat.Base.{
  ℕ, zero, suc, ℤ, pos_part, Bool, true, ◌≡◌, refl, Option, none, some, List, [], ◌∷◌, Result, ok,
  err, Exec, Result-cases, inl, inr, arith, if◌then◌else◌,
}
use simply_chat.FileService.Errors.{FileError, is_err, file_not_found, storage_unavailable}
use simply_chat.FileService.S3.{attempts, last_error, with_retry}

-- Nothing more is tried after such a result.
pub is_final : {A : Type 0} → Result FileError A → Bool
is_final (ok a) = true
is_final (err e) = is_err e file_not_found

module _ {S A : Type 0} where
  -- The outcomes of so many calls in a row, whatever they return.
  pub calls_in_a_row : Exec S FileError A → ℕ → S → List (Result FileError A × S)
  calls_in_a_row operation zero s = []
  calls_in_a_row operation (suc n) s = operation s ∷ calls_in_a_row operation n (operation s).1

  -- The first final outcome, or the last one, or this one where there is none.
  pub first_final : Result FileError A × S → List (Result FileError A × S) → Result FileError A × S
  first_final last [] = last
  first_final last (o ∷ os) = let rest = first_final o os in if is_final o.0 then o else rest

  attempts-first_final :
      (operation : Exec S FileError A) (n : ℕ) (last : Option FileError) (s : S)
      → attempts operation n last s
        ≡ first_final (err (last_error last), s) (calls_in_a_row operation n s)
  unfolding attempts first_final calls_in_a_row is_final
  attempts-first_final operation zero last s = refl
  attempts-first_final operation (suc n) last s = elim (Result-cases (operation s).0) [
    | inl (a, e) ↦ ground (arith, e)
    | inr (x, e) ↦ ground (arith, e, attempts-first_final operation n (some x) (operation s).1)
  ]

  -- Of as many calls in a row as retries are configured, the first that succeeds or finds no file
  -- is the answer, and its state; failing that, the last one is. With no retries, nothing is
  -- called and the storage counts as unavailable.
  pub with_retry-first_final :
      (max_retries : ℤ) (operation : Bool → Exec S FileError A) (s : S)
      → with_retry max_retries operation s
        ≡ first_final
            (err (storage_unavailable ∷ []), s)
            (calls_in_a_row (operation true) (pos_part max_retries) s)
  unfolding with_retry
  with_retry-first_final max_retries operation s =
      attempts-first_final (operation true) (pos_part max_retries) none s
