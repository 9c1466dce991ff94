-- ===== src/FileService/Http/Deleted.antt =====
-- What the handlers answer for a file that was deleted.
use simply_chat.Base.{
  String, false, ◌≡◌, ◌≢◌, refl, ap, ◌∙◌, Option, none, List, [], ◌∷◌, any, Result, ok, err,
  Result-cases, inl, inr, arith,
}
use simply_chat.Postgres.{Postgres}
use simply_chat.FileService.Errors.{FileError, file_not_found}
use simply_chat.FileService.Metadata
use simply_chat.FileService.Metadata.{File, FileRow, find_row, live_row, one_row}
use simply_chat.FileService.Metadata.Rows.{has_id, get_by_id-cases}
use simply_chat.FileService.ObjectStorage.{ObjectStorage}
use simply_chat.FileService.Service
use simply_chat.FileService.Service.{State}
use simply_chat.FileService.Service.Deletion.{
  DeleteOutcome, deleted, untouched, hidden, delete-DeleteOutcome,
}
use simply_chat.FileService.Http.{
  Request, FileResponse, parse_file_id, delete, get_content, get_metadata, get_download_link,
}

find_row-gone :
    (id : String) (rows : List FileRow)
    → any (has_id id) rows ≡ false
    → find_row (live_row id) rows ≡ none
find_row-gone id [] h = refl
find_row-gone id (row ∷ rows) h = ground (arith, find_row-gone id rows)

module _ (pg : Postgres) (o : ObjectStorage) where
  outcome-gone :
      {id : String} {s t : State pg o} {r : Result FileError (Unit {0})}
      → DeleteOutcome pg o id s t r
      → r ≡ ok tt
      → find_row (live_row id) t.metadata.rows ≡ none
  outcome-gone {id} {s} {t} (deleted row found gone held) e = find_row-gone id t.metadata.rows gone
  outcome-gone (untouched rows store) e = absurd (ground arith)
  outcome-gone (hidden gone kept) e = gone

  not_found :
      (id : String) (t : State pg o)
      → find_row (live_row id) t.metadata.rows ≡ none
      → (e : FileError) × ((Metadata.get_by_id pg id t.metadata).0 ≡ err e)
  not_found id t gone = elim (get_by_id-cases pg id t.metadata) [
    | inl failed ↦ ([], failed)
    | inr got ↦ (file_not_found ∷ [], got ∙ ap one_row gone)
  ]

  pub deleted-gone :
      (id : String) (s : State pg o)
      → (Service.delete pg o id s).0 ≡ ok tt
      → find_row (live_row id) (Service.delete pg o id s).1.metadata.rows ≡ none
  deleted-gone id s done = outcome-gone (delete-DeleteOutcome pg o id s) done

  module _ (parse_uuid : String → Option String) (r : Request) (s : State pg o) where
    abbrev pub state_after : State pg o
    state_after = (delete pg o parse_uuid r s).1

    -- A file whose deletion was answered by 204 is not served any more: none of the requests for its
    -- metadata, its content or its download by the same id succeeds, whatever the stores do.
    pub get_content-delete :
        (q : Request)
        → parse_file_id parse_uuid q ≡ parse_file_id parse_uuid r
        → (delete pg o parse_uuid r s).0 ≡ ok tt
        → ((file : File) → (get_metadata pg o parse_uuid q state_after).0 ≢ ok file)
          × ((answer : FileResponse) → (get_content pg o parse_uuid q state_after).0 ≢ ok answer)
          × ((answer : FileResponse)
              → (get_download_link pg o parse_uuid q state_after).0 ≢ ok answer)
    unfolding delete get_metadata get_content get_download_link Service.get_metadata
        Service.get_content
    get_content-delete q same done = elim (Result-cases (parse_file_id parse_uuid r)) [
      | inr (e, bad) ↦ absurd (ground (arith, bad))
      | inl (id, parsed) ↦
          let (e, missing) =
            not_found id (Service.delete pg o id s).1
              (deleted-gone id s (ground (arith, parsed, done))) in
          let asked : parse_file_id parse_uuid q ≡ ok id = same ∙ parsed in
          (
            λ file served. ground (arith, parsed, asked, missing, served),
            λ answer served. ground (arith, parsed, asked, missing, served),
            λ answer served. ground (arith, parsed, asked, missing, served),
          )
    ]
