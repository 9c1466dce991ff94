-- ===== src/Tests/Schedule.antt =====
-- Requests of the file service at the same time: an upload, a download and a deletion.
use mathlib.Core.List.{Memᴰ}
use simply_chat.Base.{
  ℕ, zero, suc, pos, String, ◌≡◌, refl, ap, inl, none, some, List, [], ◌∷◌, err, arith, ◌==◌,
  ==_refl, if◌then◌else◌, string_eq, ne-of_==-false, sym, ◌∙◌, ◌≢◌, ok,
}
use simply_chat.FileService.Metadata
use simply_chat.FileService.Schedule.Rows.{upload_id}
use simply_chat.FileService.Schedule.Retired.{run-unserved}
use simply_chat.FileService.Metadata.{File, FileRow}
use simply_chat.FileService.S3.{delete_object, with_retry, attempts}
use simply_chat.FileService.Schedule.{
  Task, putting, asking, finding, marking, removing, turn, advance, downloaded, deleted, Pool, run,
}
use simply_chat.FileService.Schedule.Invariant.{pending}
use simply_chat.FileService.Schedule.Steps.{IsWhole}
use simply_chat.FileService.Schedule.Intact.{IsRequest, IsStart, IsIntact, run-IsIntact}
use simply_chat.Tests.Fixtures.{healthy}
use simply_chat.Tests.Files.{storage, with_row}

abbrev content : List ℕ
content = 104 ∷ 105 ∷ []

abbrev file : File
file = record {
  id = "f2";
  object_key = "files/f2.txt";
  original_filename = "hi.txt";
  mime_type = "text/plain";
  size = pos 2;
  created_at = 0;
  deleted_at = none;
  uploader = "ann";
  owner_service = "";
}

abbrev original : String → List ℕ
original key = if key == "k" then 1 ∷ [] else content

abbrev tasks : ℕ → Task
tasks zero = putting file content
tasks (suc zero) = asking "f1"
tasks (suc (suc zero)) = finding "f1"
tasks (suc (suc (suc n))) = deleted (err [])

abbrev pool : Pool healthy storage
pool = record { tasks = tasks; state = with_row }

abbrev schedule : List ℕ
schedule = 1 ∷ 2 ∷ 0 ∷ 2 ∷ 0 ∷ 2 ∷ 1 ∷ 0 ∷ 2 ∷ 0 ∷ []

storage-IsWhole : IsWhole storage
unfolding delete_object with_retry attempts
storage-IsWhole key s = inl (rw (==_refl key) refl)

requests : (i : ℕ) → IsRequest healthy storage original (tasks i)
requests zero = refl
requests (suc zero) = tt
requests (suc (suc zero)) = tt
requests (suc (suc (suc n))) = tt

only_upload : (i : ℕ) (k : String) → pending (tasks i) ≡ some k → i ≡ 0
only_upload zero k e = refl
only_upload (suc zero) k e = absurd (ground (arith, e))
only_upload (suc (suc zero)) k e = absurd (ground (arith, e))
only_upload (suc (suc (suc n))) k e = absurd (ground (arith, e))

apart : (i j : ℕ) (k : String) → pending (tasks i) ≡ some k → pending (tasks j) ≡ some k → i ≡ j
apart i j k one other = only_upload i k one ∙ sym (only_upload j k other)

only_row : (r : FileRow) → Memᴰ r with_row.metadata.rows → (r.object_key ≡ "k") × (r.id ≡ "f1")
only_row r (Memᴰ.head e) = (ap (λ w. w.object_key) e, ap (λ w. w.id) e)
only_row r (Memᴰ.tail m) = elim m [ ]

unused :
    (i : ℕ) (k : String) (r : FileRow)
    → pending (tasks i) ≡ some k
    → Memᴰ r with_row.metadata.rows
    → r.object_key ≢ k
unused zero k r e there same =
    ground (arith, e, (only_row r there).0, ne-of_==-false {A = String} "files/f2.txt" "k" refl)
unused (suc zero) k r e there same = ground (arith, e)
unused (suc (suc zero)) k r e there same = ground (arith, e)
unused (suc (suc (suc n))) k r e there same = ground (arith, e)

pool-IsStart : IsStart healthy storage original pool
pool-IsStart = record {
  requests = requests;
  apart = apart;
  unused = unused;
  unique = λ r q there here e. (only_row r there).1 ∙ sym (only_row q here).1;
  held = λ r there live. rw ((only_row r there).0) refl;
}

intact_example : IsIntact healthy storage original (run healthy storage schedule pool)
intact_example = run-IsIntact healthy storage original storage-IsWhole schedule pool pool-IsStart

abbrev stored_file : File
stored_file = record file { id = "f1"; object_key = "k" }

-- A deletion, and requests for its file.
abbrev deleting : ℕ → Task
deleting zero = marking "f1" stored_file
deleting (suc i) = asking "f1"

abbrev deleting_pool : Pool healthy storage
deleting_pool = record { tasks = deleting; state = with_row }

undrawn : (k : ℕ) → upload_id (deleting k) ≢ some "f1"
undrawn zero h = ground (arith, h)
undrawn (suc k) h = ground (arith, h)

marks : (turn healthy storage 0 deleting_pool).tasks 0 ≡ removing "f1" stored_file
unfolding advance Metadata.mark_deleted
marks = refl

unserved_after_mark_example :
    (run healthy storage (1 ∷ 0 ∷ 1 ∷ 0 ∷ []) (turn healthy storage 0 deleting_pool)).tasks 1
    ≢ downloaded (ok (stored_file, 1 ∷ []))
unserved_after_mark_example =
    run-unserved healthy storage (1 ∷ 0 ∷ 1 ∷ 0 ∷ []) deleting_pool 1 0 "f1" stored_file undrawn
      refl marks refl (stored_file, 1 ∷ [])
