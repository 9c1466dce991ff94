-- ===== src/FileService/Schedule.antt =====
-- Requests that fileService/internal/service/fileservice/service.go handles at the same time: Upload
-- from its first call of a store on, GetContent and Delete, as the calls of the stores that they
-- make one after another. A turn is one such call, and requests take turns in any order. The body of a
-- download is read in the turn of its GetObject.
pub mod Alone
pub mod Ends
pub mod Change
pub mod Found
pub mod Invariant
pub mod Steps
pub mod Intact
pub mod Rows
pub mod Retired
pub mod Deletions
use simply_chat.Base.{
  ℕ, zero, suc, String, List, [], ◌∷◌, Result, ok, err, ◌==◌, nat_eq, if◌then◌else◌,
}
use simply_chat.Postgres.{Postgres}
use simply_chat.FileService.Errors.{FileError, metadata_unavailable}
use simply_chat.FileService.Metadata
use simply_chat.FileService.Metadata.{File}
use simply_chat.FileService.ObjectStorage.{ObjectStorage}
use simply_chat.FileService.Service.{
  State, on_metadata, on_store, as_metadata_unavailable, put_params, delete_stored, errors_of,
}

-- A request, by the call that it makes next, or by its result.
pub data Task : Type 0 where
  -- Upload
  putting : File → List ℕ → Task
  creating : File → Task
  cleaning : File → Task
  reading_back : String → Task
  uploaded : Result FileError File → Task
  -- GetContent
  asking : String → Task
  getting : File → Task
  downloaded : Result FileError (File × List ℕ) → Task
  -- Delete
  finding : String → Task
  marking : String → File → Task
  removing : String → File → Task
  dropping : String → Task
  deleted : Result FileError (Unit {0}) → Task

module _ (pg : Postgres) (o : ObjectStorage) where
  abbrev pub Turned : Type 0
  Turned = Task × State pg o

  abbrev pub after_put : File → Result FileError (Unit {0}) × State pg o → Turned
  after_put file (ok _, t) = (creating file, t)
  after_put file (err e, t) = (uploaded (err e), t)

  abbrev pub after_create : File → Result FileError (Unit {0}) × State pg o → Turned
  after_create file (ok _, t) = (reading_back file.id, t)
  after_create file (err e, t) = (cleaning file, t)

  abbrev pub after_clean : Result FileError (Unit {0}) × State pg o → Turned
  after_clean (r, t) = (uploaded (err (metadata_unavailable ∷ errors_of r)), t)

  abbrev pub after_ask : Result FileError File × State pg o → Turned
  after_ask (ok file, t) = (getting file, t)
  after_ask (err e, t) = (downloaded (err e), t)

  abbrev pub after_get : File → Result FileError (List ℕ) × State pg o → Turned
  after_get file (ok body, t) = (downloaded (ok (file, body)), t)
  after_get file (err e, t) = (downloaded (err e), t)

  abbrev pub after_find : String → Result FileError File × State pg o → Turned
  after_find id (ok file, t) = (marking id file, t)
  after_find id (err e, t) = (deleted (err e), t)

  abbrev pub after_mark : String → File → Result FileError (Unit {0}) × State pg o → Turned
  after_mark id file (ok _, t) = (removing id file, t)
  after_mark id file (err e, t) = (deleted (err e), t)

  abbrev pub after_remove : String → Result FileError (Unit {0}) × State pg o → Turned
  after_remove id (ok _, t) = (dropping id, t)
  after_remove id (err e, t) = (deleted (err e), t)

  -- The next call of a request, and where it then stands.
  unfoldable pub advance : Task → State pg o → Turned
  advance (putting file content) s =
      after_put file (on_store pg o (o.put_object (put_params pg o file content)) s)
  advance (creating file) s = after_create file (on_metadata pg o (Metadata.create pg file) s)
  advance (cleaning file) s = after_clean (on_store pg o (o.delete_object file.object_key) s)
  advance (reading_back id) s =
      let (r, t) = as_metadata_unavailable pg o (on_metadata pg o (Metadata.get_by_id pg id)) s in
      (uploaded r, t)
  advance (uploaded r) s = (uploaded r, s)
  advance (asking id) s = after_ask (on_metadata pg o (Metadata.get_by_id pg id) s)
  advance (getting file) s = after_get file (on_store pg o (o.get_object file.object_key) s)
  advance (downloaded r) s = (downloaded r, s)
  advance (finding id) s =
      after_find id (on_metadata pg o (Metadata.get_by_id_for_deletion pg id) s)
  advance (marking id file) s =
      after_mark id file
        (as_metadata_unavailable pg o (on_metadata pg o (Metadata.mark_deleted pg id)) s)
  advance (removing id file) s = after_remove id (delete_stored pg o file.object_key s)
  advance (dropping id) s =
      let (r, t) = as_metadata_unavailable pg o (on_metadata pg o (Metadata.delete pg id)) s in
      (deleted r, t)
  advance (deleted r) s = (deleted r, s)

  -- The requests, by their numbers, over the one state.
  pub record Pool : Type 0 where
    pub tasks : ℕ → Task
    pub state : State pg o

  abbrev pub with_turn : ℕ → Pool → Turned → Pool
  with_turn i p (t, s) = record { tasks = λ j. if j == i then t else p.tasks j; state = s }

  abbrev pub turn : ℕ → Pool → Pool
  turn i p = with_turn i p (advance (p.tasks i) p.state)

  -- The requests take turns in this order.
  unfoldable pub run : List ℕ → Pool → Pool
  run [] p = p
  run (i ∷ schedule) p = run schedule (turn i p)

  -- A request alone, for so many turns.
  unfoldable pub alone : ℕ → Turned → Turned
  alone zero t = t
  alone (suc n) (t, s) = alone n (advance t s)
