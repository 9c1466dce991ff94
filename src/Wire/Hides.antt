-- ===== src/Wire/Hides.antt =====
-- Deletions of the file service, in the rows of `file_metadata`: fileservice/service.go.
use simply_chat.Base.{
  ℕ, suc, String, Bool, true, false, ◌≡◌, ◌≢◌, refl, ◌∙◌, none, some, List, [], ◌∷◌, any, map,
  select, ok, Moves, bind-Moves, Bool-cases, inl, inr, arith, ◌==◌, string_eq, nat_eq,
}
use simply_chat.Postgres.{Postgres}
use simply_chat.MessageStorage.Paging.{IsHealthy}
use simply_chat.FileService.Errors.{FileError, map_error}
use simply_chat.FileService.Metadata
use simply_chat.FileService.Metadata.{File, FileRow, Metadata, live_row, find_row, mark_row}
use simply_chat.FileService.Metadata.Rows.{has_id, any-mark}
use simply_chat.FileService.ObjectStorage.{ObjectStorage}
use simply_chat.FileService.Service
use simply_chat.FileService.Service.{
  Host, Config, State, unless_not_found, delete_stored, as_metadata_unavailable, on_metadata,
}

-- No row comes alive.
abbrev pub Fewer : List FileRow → List FileRow → Type 0
Fewer rows more = (k : String) → any (live_row k) rows ≡ false → any (live_row k) more ≡ false

pub any-mark_row :
    (now : ℕ) (id k : String) (rows : List FileRow)
    → any (live_row k) rows ≡ false
    → any (live_row k) (map (mark_row now id) rows) ≡ false
any-mark_row now id k [] h = refl
any-mark_row now id k (row ∷ rows) h = ground (arith, any-mark_row now id k rows)

pub any-select :
    {A : Type 0} (p q : A → Bool) (xs : List A) → any p xs ≡ false → any p (select q xs) ≡ false
any-select p q [] h = refl
any-select p q (x ∷ xs) h = ground (arith, any-select p q xs)

pub any_of_find :
    (p : FileRow → Bool) (rows : List FileRow) → find_row p rows ≡ none → any p rows ≡ false
any_of_find p [] h = refl
any_of_find p (row ∷ rows) h = ground (arith, any_of_find p rows)

module _ (pg : Postgres) (o : ObjectStorage) where
  abbrev pub Hides : State pg o → State pg o → Type 0
  Hides s t = Fewer s.metadata.rows t.metadata.rows

  pub Hides-trans : (a b c : State pg o) → Hides a b → Hides b c → Hides a c
  Hides-trans a b c p q k h = q k (p k h)

  pub steps-Hides :
      (id key : String)
      → Moves Hides (on_metadata pg o (Metadata.get_by_id_for_deletion pg id))
        × Moves Hides
            (as_metadata_unavailable pg o (on_metadata pg o (Metadata.mark_deleted pg id)))
        × Moves Hides (delete_stored pg o key)
        × Moves Hides (as_metadata_unavailable pg o (on_metadata pg o (Metadata.delete pg id)))
  unfolding Metadata.get_by_id_for_deletion Metadata.mark_deleted Metadata.delete
  steps-Hides id key = (
    λ s k h. ground (arith, h),
    λ s k h. elim (Bool-cases (pg.fault s.metadata.calls)) [
      | inl fault ↦ rw fault h
      | inr run ↦ rw run (any-mark_row _ id k s.metadata.rows h)
    ],
    λ s k h. h,
    λ s k h. elim (Bool-cases (pg.fault s.metadata.calls)) [
      | inl fault ↦ rw fault h
      | inr run ↦ elim (Bool-cases (any (λ row. row.id == id) s.metadata.rows)) [
        | inl there ↦ rw (run, there) (any-select (live_row k) _ s.metadata.rows h)
        | inr gone ↦ rw (run, gone) h
      ]
    ],
  )

  pub delete-Hides : (id : String) → Moves Hides (Service.delete pg o id)
  unfolding Service.delete
  delete-Hides id =
      bind-Moves Hides Hides-trans (on_metadata pg o (Metadata.get_by_id_for_deletion pg id)) _
        (steps-Hides id "").0
        λ file.
          bind-Moves Hides Hides-trans
            (as_metadata_unavailable pg o (on_metadata pg o (Metadata.mark_deleted pg id))) _
            (steps-Hides id "").1
            λ _.
              bind-Moves Hides Hides-trans (delete_stored pg o file.object_key) _
                (steps-Hides id file.object_key).2 λ _. (steps-Hides id "").3

pub any-live_row :
    (k : String) (rows : List FileRow)
    → any (live_row k) rows ≡ true
    → (any (has_id k) rows ≡ true) × ((row : FileRow) × (find_row (has_id k) rows ≡ some row))
any-live_row k [] h = absurd (ground (arith, h))
any-live_row k (row ∷ rows) h = elim (Bool-cases (row.id == k)) [
  | inl here ↦ (ground (arith, here), (row, rw here refl))
  | inr other ↦
      let (there, (found, at)) = any-live_row k rows (ground (arith, h, other)) in
      (ground (arith, there), (found, rw other at))
]

-- With stores that answer, a file that is served is deleted.
pub delete-ok :
    (pg : Postgres) (o : ObjectStorage) (k : String) (s : State pg o)
    → IsHealthy pg
    → ((key : String) (store : o.Store) → unless_not_found (o.delete_object key store).0 ≡ ok tt)
    → any (live_row k) s.metadata.rows ≡ true
    → (Service.delete pg o k s).0 ≡ ok tt
unfolding Service.delete Metadata.get_by_id_for_deletion Metadata.mark_deleted Metadata.delete
delete-ok pg o k s healthy deletable live =
    let (there, (row, found)) = any-live_row k s.metadata.rows live in
    let now = pg.now (suc (suc s.metadata.calls)) in
    let kept : any (has_id k) (map (mark_row now k) s.metadata.rows) ≡ true =
      any-mark now k k s.metadata.rows ∙ there in
    rw
      (
        healthy.no_fault s.metadata.calls,
        found,
        healthy.no_fault (suc s.metadata.calls),
        deletable row.object_key s.store,
        healthy.no_fault (suc (suc s.metadata.calls)),
        kept,
      )
      refl

pub no_error_204 : (e : FileError) → (map_error e).0 ≢ 204
unfolding map_error
no_error_204 e h = ground (arith, h)
