-- ===== src/FileService/Schedule/Steps.antt =====
-- The turns of requests of fileservice/service.go, over what holds between two turns.
pub mod Upload
pub mod Download
pub mod Delete
use mathlib.Core.Path.{subst}
use mathlib.Core.List.{Memᴰ}
use simply_chat.Base.{
  ℕ, String, Bool, true, false, ◌≡◌, ◌≢◌, refl, sym, ap, ◌∙◌, ◌⊎◌, inl, inr, Option, none, some,
  List, [], ◌∷◌, ◌++◌, Result, ok, err, Result-cases, Bool-cases, arith, ◌==◌, ==_iff,
  ne-of_==-false, string_eq,
}
use simply_chat.Postgres.{Postgres}
use simply_chat.FileService.Errors.{FileError}
use simply_chat.FileService.Metadata
use simply_chat.FileService.Metadata.{File, FileRow, live_row}
use simply_chat.FileService.Metadata.Rows.{
  added, create-cases, rows-get_by_id, rows-get_by_id_for_deletion,
}
use simply_chat.FileService.ObjectStorage.{ObjectStorage}
use simply_chat.FileService.Service.{State, put_params, unless_not_found}
use simply_chat.FileService.Schedule.{
  Task, putting, creating, cleaning, reading_back, uploaded, asking, getting, downloaded, finding,
  marking, removing, dropping, deleted, Pool, with_turn, turn, advance,
}
use simply_chat.FileService.Schedule.Change.{
  IsLive, FromOld, same_row, appended, IsDead, Stored, untouched, own, removed, Recorded, old, new,
  Change,
}
use simply_chat.FileService.Schedule.Found.{
  get_by_id-IsRowOf, get_by_id_for_deletion-IsRowOf, mark_deleted-rows, delete-FromOld,
}
use simply_chat.FileService.Schedule.Invariant.{pending, Free, Holds, Knows, Sound, Change-Sound}

-- The object of a deletion that fails is there as before, or it is gone.
abbrev pub IsWhole : ObjectStorage → Type 0
IsWhole o =
    (key : String) (s : o.Store)
    → (o.holds (o.delete_object key s).1 key ≡ none)
      ⊎ (o.holds (o.delete_object key s).1 key ≡ o.holds s key)

module _ (pg : Postgres) (o : ObjectStorage) (original : String → List ℕ) (p : Pool pg o) (i : ℕ)
    (h : Sound pg o original p) where
  abbrev pub Turn : String → Task → State pg o → Type 0
  Turn id t s =
      Change pg o (pending (p.tasks i)) (pending t) (Free pg o original p) id original p.state s

  -- The rows come from those before; the store is changed at most under the upload's own key.
  pub own_key :
      (key : String) (t : Task) (s : State pg o)
      → pending (p.tasks i) ≡ some key
      → ((k : String) → k ≢ key → o.holds s.store k ≡ o.holds p.state.store k)
      → s.metadata.rows ≡ p.state.metadata.rows
      → Turn "" t s
  own_key key t s mine others rows = record {
    store = λ k. elim (Bool-cases (k == key)) [
      | inl same ↦ own (mine ∙ ap some (sym ((==_iff k key).0 same)))
      | inr other ↦ untouched (others k (ne-of_==-false k key other))
    ];
    rows = λ r there. old (same_row p.state.metadata.rows r (rw rows at there));
  }

  -- The store holds what it held, and the rows come from those before.
  pub quiet :
      (t : Task) (s : State pg o)
      → ((k : String) → o.holds s.store k ≡ o.holds p.state.store k)
      → ((r : FileRow) → Memᴰ r s.metadata.rows → FromOld p.state.metadata.rows r)
      → Turn "" t s
  quiet t s store rows = record {
    store = λ k. untouched (store k);
    rows = λ r there. old (rows r there);
  }

  pub same_rows :
      (s : State pg o)
      → s.metadata.rows ≡ p.state.metadata.rows
      → (r : FileRow) → Memᴰ r s.metadata.rows
      → FromOld p.state.metadata.rows r
  same_rows s rows r there = same_row p.state.metadata.rows r (rw rows at there)

  -- A request without an upload under way, after a quiet turn.
  pub settled :
      (id : String) (t : Task) (s : State pg o)
      → Turn id t s
      → pending t ≡ none
      → Knows pg o original s (Free pg o original p) t
      → Sound pg o original (with_turn pg o i p (t, s))
  settled id t s c rest known =
      Change-Sound pg o original p i t s id c h (λ k its. absurd (ground (arith, rest, its))) known

  pub known : (u : Task) → p.tasks i ≡ u → Knows pg o original p.state (Free pg o original p) u
  known u at = subst (λ t. Knows pg o original p.state (Free pg o original p) t) at (h.knows i)

  -- What is to be shown of a request's turn.
  abbrev pub Kept : Task → Type 0
  Kept u = Sound pg o original (with_turn pg o i p (advance pg o u p.state))
