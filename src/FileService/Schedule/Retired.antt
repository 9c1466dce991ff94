-- ===== src/FileService/Schedule/Retired.antt =====
-- Requests of fileservice/service.go for a file whose row a deletion has marked.
use mathlib.Core.Path.{subst}
use mathlib.Core.List.{Memᴰ}
use simply_chat.Base.{
  ℕ, String, ◌≡◌, ◌≢◌, refl, ap, ◌∙◌, inl, inr, some, List, [], ◌∷◌, ok, err, Result-cases,
  Bool-cases, arith, ◌==◌, ==_iff, ==_refl, nat_eq, string_eq,
}
use simply_chat.Postgres.{Postgres}
use simply_chat.FileService.Metadata
use simply_chat.FileService.Metadata.{File, FileRow, live_row}
use simply_chat.FileService.ObjectStorage.{ObjectStorage}
use simply_chat.FileService.Schedule.{
  Task, asking, downloaded, marking, removing, Pool, turn, run, advance,
}
use simply_chat.FileService.Schedule.Change.{IsLive}
use simply_chat.FileService.Schedule.Found.{get_by_id-IsRowOf, mark_deleted-rows}
use simply_chat.FileService.Schedule.Rows.{upload_id, advance-rows_after, rows_after-Whence}

module _ (pg : Postgres) (o : ObjectStorage) where
  -- No live row has the id, and no upload under way draws it.
  pub record IsRetired (p : Pool pg o) (id : String) : Type 0 where
    pub dead : (r : FileRow) → Memᴰ r p.state.metadata.rows → r.id ≡ id → ¬ IsLive r
    pub undrawn : (i : ℕ) → upload_id (p.tasks i) ≢ some id

  pub turn-IsRetired :
      (p : Pool pg o) (i : ℕ) (id : String) → IsRetired p id → IsRetired (turn pg o i p) id
  turn-IsRetired p i id h =
      let (rows, begun) = advance-rows_after pg o (p.tasks i) p.state in
      record {
        dead = λ r there is_id live.
            elim (rows_after-Whence pg o (p.tasks i) p.state r (rw rows at there)) [
              | inl f ↦ h.dead f.old f.there (f.id ∙ is_id) (f.live live)
              | inr drawn ↦ h.undrawn i (drawn ∙ ap some is_id)
            ];
        undrawn = λ j drawn. elim (Bool-cases (j == i)) [
          | inl same ↦ h.undrawn i (begun id (rw same at drawn))
          | inr other ↦ h.undrawn j (rw other at drawn)
        ];
      }

  -- A request for the file that has not asked yet, or has been refused.
  abbrev pub IsUnserved : String → Task → Type 0
  IsUnserved id (asking k) = k ≡ id
  IsUnserved id (downloaded (err e)) = Unit
  IsUnserved id _ = ⊥

  advance-IsUnserved :
      (p : Pool pg o) (id : String) (u : Task)
      → IsRetired p id
      → IsUnserved id u
      → IsUnserved id (advance pg o u p.state).0
  unfolding advance
  advance-IsUnserved p id (asking k) h is_id =
      elim (Result-cases (Metadata.get_by_id pg k p.state.metadata).0) [
        | inr (e, failed) ↦ rw failed tt
        | inl (file, found) ↦
            let r = get_by_id-IsRowOf pg k p.state.metadata file found in
            let named : r.row.id ≡ k = ground (arith, r.chosen, ==_iff r.row.id k) in
            absurd (h.dead r.row r.there (named ∙ is_id) (ground (arith, r.chosen)))
      ]
  advance-IsUnserved p id (downloaded (err e)) h u = tt
  advance-IsUnserved p id _ h u = absurd u

  turn-IsUnserved :
      (p : Pool pg o) (id : String) (i j : ℕ)
      → IsRetired p id
      → IsUnserved id (p.tasks i)
      → IsUnserved id ((turn pg o j p).tasks i)
  turn-IsUnserved p id i j h u = elim (Bool-cases (i == j)) [
    | inl same ↦ rw same (
        advance-IsUnserved p id (p.tasks j) h
          (subst (λ k. IsUnserved id (p.tasks k)) ((==_iff i j).0 same) u))
    | inr other ↦ rw other u
  ]

  run-IsUnserved :
      (schedule : List ℕ) (p : Pool pg o) (id : String) (i : ℕ)
      → IsRetired p id
      → IsUnserved id (p.tasks i)
      → IsUnserved id ((run pg o schedule p).tasks i)
  unfolding run
  run-IsUnserved [] p id i h u = u
  run-IsUnserved (j ∷ schedule) p id i h u =
      run-IsUnserved schedule (turn pg o j p) id i (turn-IsRetired p j id h)
        (turn-IsUnserved p id i j h u)

  -- What a mark that succeeds leaves.
  pub marked-IsRetired :
      (p : Pool pg o) (j : ℕ) (id : String) (file : File)
      → ((k : ℕ) → upload_id (p.tasks k) ≢ some id)
      → p.tasks j ≡ marking id file
      → (turn pg o j p).tasks j ≡ removing id file
      → IsRetired (turn pg o j p) id
  unfolding advance
  marked-IsRetired p j id file undrawn stands marked =
      elim (Result-cases (Metadata.mark_deleted pg id p.state.metadata).0) [
        | inr (e, failed) ↦
            absurd (ground (arith, rw (==_refl j, stands, failed, advance) at marked))
        | inl (_, done) ↦
            let (rows, begun) = advance-rows_after pg o (p.tasks j) p.state in
            record {
              dead = λ r there.
                  (mark_deleted-rows pg id p.state.metadata).1 done r
                    (rw stands at (rw rows at there));
              undrawn = λ i drawn. elim (Bool-cases (i == j)) [
                | inl same ↦ undrawn j (begun id (rw same at drawn))
                | inr other ↦ undrawn i (rw other at drawn)
              ];
            }
      ]

  -- Once the turn of a deletion has marked the row of its file, no request for the file that has not
  -- asked for its row yet gets the content, whatever turns are taken after that, by the deletion or
  -- by others, and whatever fails. No upload under way is taken to have drawn the same id.
  pub run-unserved :
      (schedule : List ℕ) (p : Pool pg o) (i j : ℕ) (id : String) (file : File)
      → ((k : ℕ) → upload_id (p.tasks k) ≢ some id)
      → p.tasks j ≡ marking id file
      → (turn pg o j p).tasks j ≡ removing id file
      → (turn pg o j p).tasks i ≡ asking id
      → (r : File × List ℕ) → (run pg o schedule (turn pg o j p)).tasks i ≢ downloaded (ok r)
  run-unserved schedule p i j id file undrawn at marked asks r served =
      let unserved =
        run-IsUnserved schedule (turn pg o j p) id i
          (marked-IsRetired p j id file undrawn at marked) (rw asks refl) in
      rw served at unserved
