-- ===== src/FileService/Schedule/Steps/Download.antt =====
-- The turns of GetContent of fileservice/service.go.
use mathlib.Core.Path.{subst}
use simply_chat.Base.{ℕ, String, ◌≡◌, refl, inl, inr, List, ok, err, Result-cases, arith, string_eq}
use simply_chat.Postgres.{Postgres}
use simply_chat.FileService.Metadata
use simply_chat.FileService.Metadata.{File, FileRow, live_row}
use simply_chat.FileService.Metadata.Rows.{rows-get_by_id}
use simply_chat.FileService.ObjectStorage.{ObjectStorage}
use simply_chat.FileService.Schedule.{Task, asking, getting, downloaded, Pool, advance}
use simply_chat.FileService.Schedule.Found.{get_by_id-IsRowOf}
use simply_chat.FileService.Schedule.Invariant.{Holds, Sound}
use simply_chat.FileService.Schedule.Steps.{quiet, same_rows, settled, known, Kept, Turn}

module _ (pg : Postgres) (o : ObjectStorage) (original : String → List ℕ) (p : Pool pg o) (i : ℕ)
    (h : Sound pg o original p) where
  pub asking-Kept : (id : String) → Kept pg o original p i h (asking id)
  unfolding advance
  asking-Kept id =
      let got = Metadata.get_by_id pg id p.state.metadata in
      let s = record p.state { metadata = got.1 } in
      let change : (t : Task) → Turn pg o original p i h "" t s = λ t.
        quiet pg o original p i h t s (λ k. refl)
          (same_rows pg o original p i h s (rows-get_by_id pg id p.state.metadata)) in
      elim (Result-cases got.0) [
        | inr (e, failed) ↦ rw failed (
            settled pg o original p i h "" (downloaded (err e)) s (change (downloaded (err e))) refl
              tt)
        | inl (file, found) ↦
            let r = get_by_id-IsRowOf pg id p.state.metadata file found in
            rw found (
              settled pg o original p i h "" (getting file) s (change (getting file)) refl (
                inl (
                    subst (Holds pg o original p.state) r.key
                      (h.intact r.row r.there (ground (arith, r.chosen)))),
                λ j used. h.unused j file.object_key r.row used r.there r.key,
              ))
      ]

  pub getting-Kept :
      (file : File) → p.tasks i ≡ getting file → Kept pg o original p i h (getting file)
  unfolding advance
  getting-Kept file at =
      let got = o.get_object file.object_key p.state.store in
      let s = record p.state { store = got.1 } in
      let change : (t : Task) → Turn pg o original p i h "" t s = λ t.
        quiet pg o original p i h t s (o.get_keeps file.object_key p.state.store)
          (same_rows pg o original p i h s refl) in
      elim (Result-cases got.0) [
        | inr (e, failed) ↦ rw failed (
            settled pg o original p i h "" (downloaded (err e)) s (change (downloaded (err e))) refl
              tt)
        | inl (body, read) ↦
            let there = o.get_reads file.object_key p.state.store body read in
            rw read (
              settled pg o original p i h "" (downloaded (ok (file, body))) s
                (change (downloaded (ok (file, body)))) refl
                (elim (known pg o original p i h (getting file) at).0 [
                  | inl held ↦ ground (arith, there, held)
                  | inr gone ↦ absurd (ground (arith, there, gone))
                ]))
      ]
