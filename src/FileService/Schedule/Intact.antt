-- ===== src/FileService/Schedule/Intact.antt =====
-- The contents of files while requests of fileservice/service.go take turns.
use mathlib.Core.List.{Memᴰ}
use simply_chat.Base.{ℕ, String, ◌≡◌, ◌≢◌, refl, none, some, List, [], ◌∷◌, ok, err}
use simply_chat.Postgres.{Postgres}
use simply_chat.FileService.Metadata.{File, FileRow}
use simply_chat.FileService.ObjectStorage.{ObjectStorage}
use simply_chat.FileService.Service.{State}
use simply_chat.FileService.Schedule.{
  Task, putting, creating, cleaning, reading_back, uploaded, asking, getting, downloaded, finding,
  marking, removing, dropping, deleted, Pool, turn, run, advance,
}
use simply_chat.FileService.Schedule.Change.{IsLive, same_row}
use simply_chat.FileService.Schedule.Invariant.{pending, Free, Knows, Sound}
use simply_chat.FileService.Schedule.Steps.{quiet, settled, known, Kept, IsWhole}
use simply_chat.FileService.Schedule.Steps.Upload.{
  putting-Kept, creating-Kept, cleaning-Kept, reading_back-Kept,
}
use simply_chat.FileService.Schedule.Steps.Download.{asking-Kept, getting-Kept}
use simply_chat.FileService.Schedule.Steps.Delete.{
  finding-Kept, marking-Kept, removing-Kept, dropping-Kept,
}

module _ (pg : Postgres) (o : ObjectStorage) (original : String → List ℕ) where
  -- A request before its first turn, or none.
  abbrev pub IsRequest : Task → Type 0
  IsRequest (putting file content) = content ≡ original file.object_key
  IsRequest (creating file) = ⊥
  IsRequest (cleaning file) = ⊥
  IsRequest (reading_back id) = ⊥
  IsRequest (uploaded r) = Unit
  IsRequest (asking id) = Unit
  IsRequest (getting file) = ⊥
  IsRequest (downloaded (ok r)) = ⊥
  IsRequest (downloaded (err e)) = Unit
  IsRequest (finding id) = Unit
  IsRequest (marking id file) = ⊥
  IsRequest (removing id file) = ⊥
  IsRequest (dropping id) = ⊥
  IsRequest (deleted r) = Unit

  -- Requests that have not begun, on stores where every live row has its object. No two uploads
  -- draw the same key, and none a key that a row has.
  pub record IsStart (p : Pool pg o) : Type 0 where
    pub requests : (i : ℕ) → IsRequest (p.tasks i)
    pub apart :
        (i j : ℕ) (k : String) → pending (p.tasks i) ≡ some k → pending (p.tasks j) ≡ some k → i ≡ j
    pub unused :
        (i : ℕ) (k : String) (r : FileRow)
        → pending (p.tasks i) ≡ some k
        → Memᴰ r p.state.metadata.rows
        → r.object_key ≢ k
    pub unique :
        (r q : FileRow)
        → Memᴰ r p.state.metadata.rows
        → Memᴰ q p.state.metadata.rows
        → r.object_key ≡ q.object_key
        → r.id ≡ q.id
    pub held :
        (r : FileRow)
        → Memᴰ r p.state.metadata.rows
        → IsLive r
        → o.holds p.state.store r.object_key ≡ some (original r.object_key)

  -- Every live row has its object, with what was uploaded; and what was downloaded is that too.
  pub record IsIntact (p : Pool pg o) : Type 0 where
    pub rows :
        (r : FileRow)
        → Memᴰ r p.state.metadata.rows
        → IsLive r
        → o.holds p.state.store r.object_key ≡ some (original r.object_key)
    pub downloads :
        (i : ℕ) (file : File) (body : List ℕ)
        → p.tasks i ≡ downloaded (ok (file, body))
        → body ≡ original file.object_key

  IsRequest-Knows :
      (s : State pg o) (F : String → Type 0) (t : Task) → IsRequest t → Knows pg o original s F t
  IsRequest-Knows s F (putting file content) h = h
  IsRequest-Knows s F (uploaded r) h = tt
  IsRequest-Knows s F (asking id) h = tt
  IsRequest-Knows s F (downloaded (err e)) h = tt
  IsRequest-Knows s F (finding id) h = tt
  IsRequest-Knows s F (deleted r) h = tt
  IsRequest-Knows s F _ h = absurd h

  IsStart-Sound : (p : Pool pg o) → IsStart p → Sound pg o original p
  IsStart-Sound p h = record {
    intact = h.held;
    unique = h.unique;
    unused = h.unused;
    apart = h.apart;
    knows = λ i. IsRequest-Knows p.state (Free pg o original p) (p.tasks i) (h.requests i);
  }

  Sound-IsIntact : (p : Pool pg o) → Sound pg o original p → IsIntact p
  Sound-IsIntact p h = record {
    rows = h.intact;
    downloads = λ i file body at. known pg o original p i h (downloaded (ok (file, body))) at;
  }

  module _ (whole : IsWhole o) where
    module _ (p : Pool pg o) (i : ℕ) (h : Sound pg o original p) where
      -- A request that is done has turns that change nothing.
      done-Kept :
          (u : Task)
          → p.tasks i ≡ u
          → advance pg o u p.state ≡ (u, p.state)
          → pending u ≡ none
          → Kept pg o original p i h u
      done-Kept u at stays rest = rw stays (
          settled pg o original p i h "" u p.state
            (quiet pg o original p i h u p.state (λ k. refl) (same_row p.state.metadata.rows)) rest
            (known pg o original p i h u at))

      advance-Kept : (u : Task) → p.tasks i ≡ u → Kept pg o original p i h u
      unfolding advance
      advance-Kept (putting file content) at = putting-Kept pg o original p i h file content at
      advance-Kept (creating file) at = creating-Kept pg o original p i h file at
      advance-Kept (cleaning file) at = cleaning-Kept pg o original p i h file at
      advance-Kept (reading_back id) at = reading_back-Kept pg o original p i h id
      advance-Kept (uploaded r) at = done-Kept (uploaded r) at refl refl
      advance-Kept (asking id) at = asking-Kept pg o original p i h id
      advance-Kept (getting file) at = getting-Kept pg o original p i h file at
      advance-Kept (downloaded r) at = done-Kept (downloaded r) at refl refl
      advance-Kept (finding id) at = finding-Kept pg o original p i h id
      advance-Kept (marking id file) at = marking-Kept pg o original p i h id file at
      advance-Kept (removing id file) at = removing-Kept pg o original p i h whole id file at
      advance-Kept (dropping id) at = dropping-Kept pg o original p i h id
      advance-Kept (deleted r) at = done-Kept (deleted r) at refl refl

    run-Sound :
        (schedule : List ℕ) (p : Pool pg o)
        → Sound pg o original p
        → Sound pg o original (run pg o schedule p)
    unfolding run
    run-Sound [] p h = h
    run-Sound (i ∷ schedule) p h =
        run-Sound schedule (turn pg o i p) (advance-Kept p i h (p.tasks i) refl)

  -- Uploads, downloads and deletions that take turns in any order, each call of a store failing
  -- or not, from stores where every live row has its object: at every time every live row still
  -- has its object, with exactly the bytes that were uploaded under its key, and every download
  -- that has ended without an error has given these bytes. A deletion is taken to remove the
  -- object whole or not at all, and the keys of the uploads to be new and different.
  pub run-IsIntact :
      IsWhole o → (schedule : List ℕ) (p : Pool pg o) → IsStart p → IsIntact (run pg o schedule p)
  run-IsIntact whole schedule p h =
      Sound-IsIntact (run pg o schedule p) (run-Sound whole schedule p (IsStart-Sound p h))
