-- ===== src/FileService/Schedule/Deletions.antt =====
-- Delete of fileservice/service.go among other requests: how it ends, and what its end means for the
-- file.
use simply_chat.Base.{ℕ, String, ◌≡◌, ◌≢◌, ◌⊎◌, some, ok, err, nat_eq}
use simply_chat.Postgres.{Postgres}
use simply_chat.FileService.Errors.{FileError}
use simply_chat.FileService.Metadata
use simply_chat.FileService.ObjectStorage.{ObjectStorage}
use simply_chat.FileService.Schedule.{Task, finding, marking, removing, dropping, deleted, Pool}
use simply_chat.FileService.Schedule.Rows.{upload_id}
use simply_chat.FileService.Schedule.Retired.{IsRetired}

module _ (pg : Postgres) (o : ObjectStorage) where
  -- No upload under way has drawn the id.
  abbrev pub IsUndrawn : Pool pg o → String → Type 0
  IsUndrawn p id = (k : ℕ) → upload_id (p.tasks k) ≢ some id

  -- A deletion of the file, which from the mark on has retired the id.
  IsDeleting : String → Pool pg o → Task → Type 0
  IsDeleting id p (finding k) = k ≡ id
  IsDeleting id p (marking k file) = k ≡ id
  IsDeleting id p (removing k file) = IsRetired pg o p id
  IsDeleting id p (dropping k) = IsRetired pg o p id
  IsDeleting id p (deleted (ok _)) = IsRetired pg o p id
  IsDeleting id p (deleted (err e)) = Unit
  IsDeleting id p _ = ⊥

  -- How a deletion of the file ends.
  abbrev pub IsDeleted : Pool pg o → String → Task → Type 0
  IsDeleted p id t =
      ((e : FileError) × (t ≡ deleted (err e))) ⊎ ((t ≡ deleted (ok tt)) × IsRetired pg o p id)
