-- ===== src/FileService/Schedule/Steps/Upload.antt =====
-- The turns of Upload of fileservice/service.go.
use mathlib.Core.Path.{subst}
use simply_chat.Base.{
  ℕ, String, ◌≡◌, refl, sym, ap, ◌∙◌, inl, inr, some, List, err, Result-cases, string_eq,
}
use simply_chat.Postgres.{Postgres}
use simply_chat.FileService.Metadata
use simply_chat.FileService.Metadata.{File, FileRow, live_row}
use simply_chat.FileService.Metadata.Rows.{added, create-cases, rows-get_by_id}
use simply_chat.FileService.ObjectStorage.{ObjectStorage}
use simply_chat.FileService.Service.{put_params}
use simply_chat.FileService.Schedule.{
  Task, putting, creating, cleaning, reading_back, uploaded, Pool, advance,
}
use simply_chat.FileService.Schedule.Change.{same_row, appended, untouched, old, new}
use simply_chat.FileService.Schedule.Invariant.{pending, Holds, Sound, Change-Sound}
use simply_chat.FileService.Schedule.Steps.{own_key, quiet, same_rows, settled, known, Kept, Turn}

module _ (pg : Postgres) (o : ObjectStorage) (original : String → List ℕ) (p : Pool pg o) (i : ℕ)
    (h : Sound pg o original p) where
  pub putting-Kept :
      (file : File) (content : List ℕ)
      → p.tasks i ≡ putting file content
      → Kept pg o original p i h (putting file content)
  unfolding advance
  putting-Kept file content at =
      let put = o.put_object (put_params pg o file content) p.state.store in
      let s = record p.state { store = put.1 } in
      let change : (t : Task) → Turn pg o original p i h "" t s = λ t.
        own_key pg o original p i h file.object_key t s (ap pending at)
          (o.put_other (put_params pg o file content) p.state.store) refl in
      elim (Result-cases put.0) [
        | inr (e, failed) ↦ rw failed (
            settled pg o original p i h "" (uploaded (err e)) s (change (uploaded (err e))) refl tt)
        | inl (_, done) ↦ rw done (
            Change-Sound pg o original p i (creating file) s "" (change (creating file)) h
              (λ k its. ap pending at ∙ its)
              (o.put_stores (put_params pg o file content) p.state.store done
                ∙ ap some (known pg o original p i h (putting file content) at)))
      ]

  pub creating-Kept :
      (file : File) → p.tasks i ≡ creating file → Kept pg o original p i h (creating file)
  unfolding advance
  creating-Kept file at =
      let s = record p.state { metadata = (Metadata.create pg file p.state.metadata).1 } in
      elim (create-cases pg file p.state.metadata) [
        | inr (failed, rows) ↦ rw failed (
            Change-Sound pg o original p i (cleaning file) s ""
              (quiet pg o original p i h (cleaning file) s (λ k. refl)
                (same_rows pg o original p i h s rows))
              h (λ k its. ap pending at ∙ its) tt)
        | inl (done, rows, apart) ↦ rw done (
            settled pg o original p i h file.id (reading_back file.id) s
              (record {
                store = λ k. untouched refl;
                rows = λ r there.
                    elim (appended r (added pg p.state.metadata file) p.state.metadata.rows
                      (rw rows at there)) [
                        | inl before ↦ old (same_row p.state.metadata.rows r before)
                        | inr is_new ↦
                            new (ap pending at ∙ ap (λ w. some w.object_key) (sym is_new)) refl
                              (ap (λ w. w.id) is_new)
                              (subst (Holds pg o original p.state)
                                (ap (λ w. w.object_key) (sym is_new))
                                (known pg o original p i h (creating file) at))
                      ];
              })
              refl tt)
      ]

  pub cleaning-Kept :
      (file : File) → p.tasks i ≡ cleaning file → Kept pg o original p i h (cleaning file)
  unfolding advance
  cleaning-Kept file at =
      let (t, s) = advance pg o (cleaning file) p.state in
      settled pg o original p i h "" t s
        (own_key pg o original p i h file.object_key t s (ap pending at)
          (o.delete_other file.object_key p.state.store) refl)
        refl tt

  pub reading_back-Kept : (id : String) → Kept pg o original p i h (reading_back id)
  unfolding advance
  reading_back-Kept id =
      let (t, s) = advance pg o (reading_back id) p.state in
      settled pg o original p i h "" t s
        (quiet pg o original p i h t s (λ k. refl)
          (same_rows pg o original p i h s (rows-get_by_id pg id p.state.metadata)))
        refl tt
