-- ===== src/FileService/Schedule/Steps/Delete.antt =====
-- The turns of Delete of fileservice/service.go.
use mathlib.Core.Path.{subst}
use simply_chat.Base.{
  ℕ, String, ◌≡◌, refl, sym, ◌∙◌, inl, inr, List, [], ◌∷◌, err, Result-cases, Bool-cases, ◌==◌,
  ==_iff, ne-of_==-false, string_eq,
}
use simply_chat.Postgres.{Postgres}
use simply_chat.FileService.Errors.{metadata_unavailable}
use simply_chat.FileService.Metadata
use simply_chat.FileService.Metadata.{File, FileRow, live_row}
use simply_chat.FileService.Metadata.Rows.{rows-get_by_id_for_deletion}
use simply_chat.FileService.ObjectStorage.{ObjectStorage}
use simply_chat.FileService.Service.{unless_not_found}
use simply_chat.FileService.Schedule.{
  Task, finding, marking, removing, dropping, deleted, Pool, advance,
}
use simply_chat.FileService.Schedule.Change.{Stored, untouched, removed, old}
use simply_chat.FileService.Schedule.Found.{
  get_by_id_for_deletion-IsRowOf, mark_deleted-rows, delete-FromOld,
}
use simply_chat.FileService.Schedule.Invariant.{pending, Free, Sound}
use simply_chat.FileService.Schedule.Steps.{quiet, same_rows, settled, known, Kept, Turn, IsWhole}

module _ (pg : Postgres) (o : ObjectStorage) (original : String → List ℕ) (p : Pool pg o) (i : ℕ)
    (h : Sound pg o original p) where
  pub finding-Kept : (id : String) → Kept pg o original p i h (finding id)
  unfolding advance
  finding-Kept id =
      let got = Metadata.get_by_id_for_deletion pg id p.state.metadata in
      let s = record p.state { metadata = got.1 } in
      let rows = rows-get_by_id_for_deletion pg id p.state.metadata in
      let change : (t : Task) → Turn pg o original p i h "" t s =
        λ t. quiet pg o original p i h t s (λ k. refl) (same_rows pg o original p i h s rows) in
      elim (Result-cases got.0) [
        | inr (e, failed) ↦
            rw failed (
              settled pg o original p i h "" (deleted (err e)) s (change (deleted (err e))) refl tt)
        | inl (file, found) ↦
            let r = get_by_id_for_deletion-IsRowOf pg id p.state.metadata file found in
            rw found (
              settled pg o original p i h "" (marking id file) s (change (marking id file)) refl (
                λ w there key.
                    h.unique w r.row (rw rows at there) r.there (key ∙ sym r.key)
                    ∙ (==_iff r.row.id id).0 r.chosen,
                λ j used. h.unused j file.object_key r.row used r.there r.key,
              ))
      ]

  pub marking-Kept :
      (id : String) (file : File)
      → p.tasks i ≡ marking id file
      → Kept pg o original p i h (marking id file)
  unfolding advance
  marking-Kept id file at =
      let marked = Metadata.mark_deleted pg id p.state.metadata in
      let s = record p.state { metadata = marked.1 } in
      let (before, dead) = mark_deleted-rows pg id p.state.metadata in
      let change : (t : Task) → Turn pg o original p i h "" t s =
        λ t. quiet pg o original p i h t s (λ k. refl) before in
      let (same, free) = known pg o original p i h (marking id file) at in
      elim (Result-cases marked.0) [
        | inr (e, failed) ↦ rw failed (
            settled pg o original p i h "" (deleted (err (metadata_unavailable ∷ []))) s
              (change (deleted (err (metadata_unavailable ∷ [])))) refl tt)
        | inl (_, done) ↦ rw done (
            settled pg o original p i h "" (removing id file) s (change (removing id file)) refl (
              λ r there key.
                  let f = before r there in
                  dead done r there (sym f.id ∙ same f.old f.there (f.key ∙ key)),
              free,
            ))
      ]

  pub removing-Kept :
      IsWhole o
      → (id : String) (file : File) → p.tasks i ≡ removing id file
      → Kept pg o original p i h (removing id file)
  unfolding advance
  removing-Kept whole id file at =
      let gone = o.delete_object file.object_key p.state.store in
      let s = record p.state { store = gone.1 } in
      let (dead, free) = known pg o original p i h (removing id file) at in
      let change : (t : Task) → Turn pg o original p i h "" t s = λ t. record {
        store = λ k. elim (Bool-cases (k == file.object_key)) [
          | inr other ↦ untouched (
              o.delete_other file.object_key p.state.store k
                (ne-of_==-false k file.object_key other))
          | inl same ↦
              subst (Stored pg o (pending (p.tasks i)) (Free pg o original p) p.state s)
                (sym ((==_iff k file.object_key).0 same))
                (elim (whole file.object_key p.state.store) [
                  | inl none_there ↦ removed none_there dead free
                  | inr kept ↦ untouched kept
                ])
        ];
        rows = λ r there. old (same_rows pg o original p i h s refl r there);
      } in
      elim (Result-cases (unless_not_found gone.0)) [
        | inr (e, failed) ↦
            rw failed (
              settled pg o original p i h "" (deleted (err e)) s (change (deleted (err e))) refl tt)
        | inl (_, done) ↦
            rw done (settled pg o original p i h "" (dropping id) s (change (dropping id)) refl tt)
      ]

  pub dropping-Kept : (id : String) → Kept pg o original p i h (dropping id)
  unfolding advance
  dropping-Kept id =
      let (t, s) = advance pg o (dropping id) p.state in
      settled pg o original p i h "" t s
        (quiet pg o original p i h t s (λ k. refl) (delete-FromOld pg id p.state.metadata)) refl tt
