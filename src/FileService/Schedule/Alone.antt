-- ===== src/FileService/Schedule/Alone.antt =====
-- One request by turns, and the operations Upload, GetContent and Delete of fileservice/service.go.
use simply_chat.Base.{ℕ, String, List, ◌≡◌, refl, Result-cases, inl, inr}
use simply_chat.Postgres.{Postgres}
use simply_chat.FileService.Metadata
use simply_chat.FileService.Metadata.{File}
use simply_chat.FileService.ObjectStorage.{ObjectStorage}
use simply_chat.FileService.Service
use simply_chat.FileService.Service.{
  State, store_file, put_params, delete_stored, unless_not_found, errors_of,
}
use simply_chat.FileService.Schedule.{
  putting, asking, finding, uploaded, downloaded, deleted, advance, alone,
}

module _ (pg : Postgres) (o : ObjectStorage) where
  alone-store_file :
      (file : File) (content : List ℕ) (s : State pg o)
      → alone pg o 4 (putting file content, s)
        ≡ (let (r, t) = store_file pg o (file, content) s in (uploaded r, t))
  unfolding alone advance store_file
  alone-store_file file content s =
      let put = o.put_object (put_params pg o file content) s.store in
      elim (Result-cases put.0) [
        | inr (e, failed) ↦ rw failed refl
        | inl (_, stored) ↦ elim (Result-cases (Metadata.create pg file s.metadata).0) [
          | inr (e, failed) ↦ rw (stored, failed) refl
          | inl (_, made) ↦
              elim (Result-cases
                (Metadata.get_by_id pg file.id (Metadata.create pg file s.metadata).1).0) [
                  | inr (e, failed) ↦ rw (stored, made, failed) refl
                  | inl (f, read) ↦ rw (stored, made, read) refl
                ]
        ]
      ]

  alone-get_content :
      (id : String) (s : State pg o)
      → alone pg o 4 (asking id, s)
        ≡ (let (r, t) = Service.get_content pg o id s in (downloaded r, t))
  unfolding alone advance Service.get_content
  alone-get_content id s = elim (Result-cases (Metadata.get_by_id pg id s.metadata).0) [
    | inr (e, failed) ↦ rw failed refl
    | inl (file, found) ↦ elim (Result-cases (o.get_object file.object_key s.store).0) [
      | inr (e, failed) ↦ rw (found, failed) refl
      | inl (body, got) ↦ rw (found, got) refl
    ]
  ]

  alone-delete :
      (id : String) (s : State pg o)
      → alone pg o 4 (finding id, s) ≡ (let (r, t) = Service.delete pg o id s in (deleted r, t))
  unfolding alone advance Service.delete
  alone-delete id s =
      let found = Metadata.get_by_id_for_deletion pg id s.metadata in
      let marked = Metadata.mark_deleted pg id found.1 in
      elim (Result-cases found.0) [
        | inr (e, failed) ↦ rw failed refl
        | inl (file, there) ↦ elim (Result-cases marked.0) [
          | inr (e, failed) ↦ rw (there, failed) refl
          | inl (_, done) ↦
              elim (Result-cases (unless_not_found (o.delete_object file.object_key s.store).0)) [
                | inr (e, failed) ↦ rw (there, done, failed) refl
                | inl (_, gone) ↦ elim (Result-cases (Metadata.delete pg id marked.1).0) [
                  | inr (e, failed) ↦ rw (there, done, gone, failed) refl
                  | inl (_, dropped) ↦ rw (there, done, gone, dropped) refl
                ]
              ]
        ]
      ]

  -- A request that takes its turns with no other between them does, in four turns, what Upload (from
  -- its first store on), GetContent and Delete do: the same result, and the same two stores.
  pub alone-Service :
      (file : File) (content : List ℕ) (id : String) (s : State pg o)
      → (alone pg o 4 (putting file content, s)
          ≡ (let (r, t) = store_file pg o (file, content) s in (uploaded r, t)))
        × (alone pg o 4 (asking id, s)
            ≡ (let (r, t) = Service.get_content pg o id s in (downloaded r, t)))
        × (alone pg o 4 (finding id, s) ≡ (let (r, t) = Service.delete pg o id s in (deleted r, t)))
  alone-Service file content id s =
      (alone-store_file file content s, alone-get_content id s, alone-delete id s)
