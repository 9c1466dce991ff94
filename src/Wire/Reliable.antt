-- ===== src/Wire/Reliable.antt =====
-- What the message service relies on when it takes files back, as the file service does it.
use simply_chat.Base.{
  ℕ, pos, String, true, false, ◌≡◌, ◌≢◌, refl, sym, ap, ◌∙◌, Option, none, some, any, ok,
  Result-cases, Option-cases, Bool-cases, inl, inr, arith, ◌==◌, ==_iff, string_eq, nat_eq,
  trim_space, leb, ==-false_of_ne, ◌||◌, length,
}
use simply_chat.Postgres.{Postgres}
use simply_chat.MessageStorage.Paging.{IsHealthy}
use simply_chat.FileService.Errors.{FileError, map_error}
use simply_chat.FileService.Metadata.{File, live_row}
use simply_chat.FileService.ObjectStorage.{ObjectStorage}
use simply_chat.FileService.Service
use simply_chat.FileService.Names.{base}
use simply_chat.FileService.Service.{
  Host, Config, State, unless_not_found, delete_stored, as_metadata_unavailable, on_metadata,
}
use simply_chat.FileService.Service.Accepted.{upload-fresh_id}
use simply_chat.FileService.Http
use simply_chat.FileService.Http.{upload_request, status_of, parse_file_id}
use simply_chat.FileService.Http.Deleted.{deleted-gone}
use simply_chat.MessageService.FileClient
use simply_chat.MessageService.FileClient.{
  upload_result, is_rejection, FileServer, Content, UploadedFile, post_content, delete_result,
}
use simply_chat.MessageService.SendFileMessage.Compensation.{Deletes}
use simply_chat.Wire.{to_file_dto, form_request, Remote, file_server}
use simply_chat.Wire.Hides.{delete-Hides, any_of_find, delete-ok, no_error_204}

module _ (pg : Postgres) (o : ObjectStorage) (parse_uuid : String → Option String)
    (hosts : ℕ → Host) (config : Config) where
  abbrev server : FileServer
  server = file_server pg o parse_uuid hosts config

  refused_delete :
      (e : FileError)
      → delete_result (some (record { status_code = (map_error e).0; file = none })) ≢ ok tt
  unfolding delete_result
  refused_delete e h = elim (Bool-cases ((map_error e).0 == 204)) [
    | inl granted ↦ no_error_204 e ((==_iff (map_error e).0 204).0 granted)
    | inr other ↦ elim (Bool-cases ((map_error e).0 == 404)) [
      | inl missing ↦ ground (arith, h, other, missing)
      | inr present ↦ elim (Bool-cases (leb 500 (map_error e).0)) [
        | inl broken ↦ ground (arith, h, other, present, broken)
        | inr odd ↦ ground (arith, h, other, present, odd)
      ]
    ]
  ]

  -- A deletion that is acknowledged is one that the handler has done.
  acknowledged :
      (id : String) (s : Remote pg o parse_uuid hosts config)
      → (FileClient.delete server id s).0 ≡ ok tt
      → ((trim_space id == "") ≡ false)
        × ((k : String) × (parse_uuid (trim_space id) ≡ some k)
            × ((Service.delete pg o k s.state).0 ≡ ok tt))
  unfolding FileClient.delete Http.delete parse_file_id
  acknowledged id s h = elim (Bool-cases (trim_space id == "")) [
    | inl blank ↦ absurd (ground (arith, h, blank))
    | inr named ↦ elim (Option-cases (parse_uuid (trim_space id))) [
      | inl unparsed ↦ absurd (refused_delete _ (rw (named, unparsed) at h))
      | inr (k, parsed) ↦ elim (Result-cases (Service.delete pg o k s.state).0) [
        | inr (e, failed) ↦ absurd (refused_delete e (rw (named, parsed, failed) at h))
        | inl (_, done) ↦ (named, (k, parsed, done))
      ]
    ]
  ]

  -- What a deletion does to the rows, with an id or without one.
  delete-is_served :
      (id other : String) (s : Remote pg o parse_uuid hosts config)
      → server.holds s other ≡ false
      → server.holds (FileClient.delete server id s).1 other ≡ false
  unfolding FileClient.delete Http.delete parse_file_id
  delete-is_served id other s h = elim (Bool-cases (trim_space id == "")) [
    | inl blank ↦ rw blank h
    | inr named ↦ elim (Option-cases (parse_uuid (trim_space other))) [
      | inl nobody ↦ rw nobody refl
      | inr (k, asked) ↦
          let hidden : any (live_row k) s.state.metadata.rows ≡ false = ground (arith, h, asked) in
          elim (Option-cases (parse_uuid (trim_space id))) [
            | inl unparsed ↦ rw (named, asked, unparsed) hidden
            | inr (j, parsed) ↦ rw (named, asked, parsed) (delete-Hides pg o j s.state k hidden)
          ]
    ]
  ]

  delete-removes :
      (id : String) (s : Remote pg o parse_uuid hosts config)
      → (FileClient.delete server id s).0 ≡ ok tt
      → server.holds (FileClient.delete server id s).1 id ≡ false
  unfolding FileClient.delete Http.delete parse_file_id
  delete-removes id s done =
      let (nonblank, (k, parsed, deleted)) = acknowledged id s done in
      rw (nonblank, parsed) (any_of_find (live_row k) _ (deleted-gone pg o k s.state deleted))

  delete-acknowledges :
      (id : String) (s : Remote pg o parse_uuid hosts config)
      → IsHealthy pg
      → ((key : String) (store : o.Store) → unless_not_found (o.delete_object key store).0 ≡ ok tt)
      → trim_space id ≢ ""
      → server.holds s id ≡ true
      → (FileClient.delete server id s).0 ≡ ok tt
  unfolding FileClient.delete Http.delete parse_file_id delete_result
  delete-acknowledges id s healthy deletable nonblank held =
      elim (Option-cases (parse_uuid (trim_space id))) [
        | inl unparsed ↦ absurd (ground (arith, held, unparsed))
        | inr (k, parsed) ↦
            let named : (trim_space id == "") ≡ false =
              ==-false_of_ne (trim_space id) "" nonblank in
            let live : any (live_row k) s.state.metadata.rows ≡ true =
              ground (arith, held, parsed) in
            rw (named, parsed, delete-ok pg o k s.state healthy deletable live) refl
      ]

  -- An answer without a file is no success.
  upload_nothing :
      (code : ℕ) (file : UploadedFile)
      → upload_result (some (record { status_code = code; file = none })) ≢ ok file
  unfolding upload_result
  upload_nothing code file h = elim (Bool-cases (code == 201)) [
    | inl made ↦ ground (arith, h, made)
    | inr other ↦ elim (Bool-cases (is_rejection code)) [
      | inl rejected ↦ ground (arith, h, other, rejected)
      | inr through ↦ elim (Bool-cases (leb 500 code)) [
        | inl broken ↦ ground (arith, h, other, through, broken)
        | inr odd ↦ ground (arith, h, other, through, odd)
      ]
    ]
  ]

  uploaded_id :
      (f : File) (file : UploadedFile)
      → upload_result (some (record { status_code = 201; file = some (to_file_dto f) })) ≡ ok file
      → f.id ≡ file.id
  unfolding upload_result
  uploaded_id f file h = ground (arith, h)

  upload-names :
      (request : FileClient.UploadRequest) (content : Option Content)
      (s : Remote pg o parse_uuid hosts config) (file : UploadedFile)
      → (post_content server request content s).0 ≡ ok file
      → file.id ≡ (hosts s.uploads).fresh_id
  unfolding Http.upload
  upload-names request none s file h = absurd (ground (arith, h))
  upload-names request (some content) s file h =
      elim (Bool-cases (trim_space request.filename == "" || content.seek_fails)) [
        | inl refused ↦ absurd (ground (arith, h, refused))
        | inr posted ↦
            let form =
              form_request (base request.filename) content.bytes request.uploader
                request.owner_service in
            let up = upload_request form (record {
              filename = base request.filename;
              declared_mime = "application/octet-stream";
              size = pos (length content.bytes);
              content = record { bytes = content.bytes; fails = false };
            }) in
            elim (Result-cases (Service.upload pg o (hosts s.uploads) config up s.state).0) [
              | inr (e, failed) ↦
                  absurd (upload_nothing (map_error e).0 file (rw (posted, failed) at h))
              | inl (f, made) ↦
                  sym (uploaded_id f file (rw (posted, made) at h))
                  ∙ upload-fresh_id pg o (hosts s.uploads) config up s.state f made
            ]
      ]

  -- The file service does what the message service relies on when it takes files back, through its own
  -- handlers and statements: provided that its database answers, its objects can be deleted, and the
  -- identifiers that it gives are not blank.
  pub file_server-Deletes :
      IsHealthy pg
      → ((key : String) (store : o.Store) → unless_not_found (o.delete_object key store).0 ≡ ok tt)
      → ((n : ℕ) → trim_space (hosts n).fresh_id ≢ "")
      → Deletes server
  unfolding FileClient.upload
  file_server-Deletes healthy deletable named = record {
    acknowledges = λ id s nonblank held. delete-acknowledges id s healthy deletable nonblank held;
    removes = delete-removes;
    brings_none_back = delete-is_served;
    names = λ request s file done blank.
        named s.uploads
          (ap trim_space (sym (upload-names request request.content s file done)) ∙ blank);
  }
