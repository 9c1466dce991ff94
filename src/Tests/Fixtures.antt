-- ===== src/Tests/Fixtures.antt =====
-- The data that the tests share.
use simply_chat.Base.{
  ℕ, pos, String, Bool, true, false, ◌≡◌, refl, Option, none, some, List, [], ◌∷◌, Result, ok, err,
  arith, if◌then◌else◌, ◌&&◌, ◌==◌, ==_refl, ne-of_==-false, ==-false_of_ne, nat_eq, string_eq,
  int_eq,
}
use simply_chat.Postgres.{Postgres}
use simply_chat.MessageStorage.Tables.{MessageRow, AttachmentRow, Tables, Db}
use simply_chat.Base.Sorting.{Distinct-select}
use simply_chat.MessageStorage.Paging.{HasKeys, IsHealthy}
use simply_chat.FileService.S3
use simply_chat.FileService.S3.{Client, map_error}
use simply_chat.FileService.S3.Objects.{IsS3}
use simply_chat.MessageService.FileClient.{FileServer, UploadedFile}

abbrev pub healthy : Postgres
healthy = record {
  fault = λ _. false;
  commit_applied = λ _. false;
  cut = λ _. none;
  now = λ n. n;
  uuid = λ s. some s;
}

-- The statement with this number fails.
abbrev pub failing_at : ℕ → Postgres
failing_at at = record healthy { fault = λ n. n == at }

pub healthy-IsHealthy : IsHealthy healthy
healthy-IsHealthy = record { no_fault = λ _. refl; no_cut = λ _. refl }

abbrev pub message : ℕ → ℕ → MessageRow
message id added_at = record {
  id = pos id;
  chat_id = pos 1;
  sender_login = "ann";
  kind = "text";
  message_text = some "hello";
  added_at = added_at;
}

abbrev pub attachment : ℕ → ℕ → String → AttachmentRow
attachment id message_id file_id = record {
  id = pos id;
  message_id = pos message_id;
  file_id = file_id;
  original_filename = "a.png";
  mime_type = "image/png";
  size = pos 3;
  kind = "image";
}

abbrev pub tables : Tables
tables = record {
  chat = record { id = pos 1; max_members = pos 2 } ∷ [];
  chat_user =
      record { chat_id = pos 1; user_login = "ann" }
      ∷ record { chat_id = pos 1; user_login = "bob" }
      ∷ [];
  message = message 1 10 ∷ message 2 20 ∷ message 3 20 ∷ [];
  message_attachment = attachment 1 2 "f" ∷ attachment 2 2 "g" ∷ [];
}

abbrev pub db : Db
db = record { tables = tables; chat_seq = 1; message_seq = 3; attachment_seq = 2; calls = 0 }

pub tables-HasKeys : HasKeys tables
tables-HasKeys = record {
  message_ids = ((λ h. ground arith, (λ h. ground arith, tt)), ((λ h. ground arith, tt), (tt, tt)));
  files_once = λ m.
      Distinct-select (λ a. a.message_id == m.id) (λ a. a.file_id) tables.message_attachment
        ((ne-of_==-false "f" "g" refl, tt), (tt, tt));
}

abbrev Bucket : Type 0
Bucket = String → Option (List ℕ)

abbrev stored_at : String → Option (List ℕ) → Bucket → Bucket
stored_at key content s k = if k == key then content else s k

abbrev missing : S3.ClientError
missing = record { code = "NoSuchKey"; status_code = 404; is_eof = false }

abbrev found : Option (List ℕ) → Result S3.ClientError (List ℕ)
found none = err missing
found (some content) = ok content

-- A bucket in memory that never fails.
abbrev pub client : Client
client = record {
  Bucket = Bucket;
  holds = λ s k. s k;
  seek_fails = λ _. false;
  put = λ _ p s. (ok tt, stored_at p.key (some p.content) s);
  get = λ _ key s. (found (s key), s);
  stat = λ _ _ s. (ok tt, s);
  remove = λ _ key s. (ok tt, stored_at key none s);
  presign = λ _ key _ s. (ok key, s);
}

found-ok : (o : Option (List ℕ)) (content : List ℕ) → found o ≡ ok content → o ≡ some content
found-ok none content h = absurd (ground arith)
found-ok (some c) content h = ground arith

pub client-IsS3 : IsS3 client
client-IsS3 = record {
  put_stores = λ _ p s h. rw (==_refl p.key) refl;
  put_other = λ _ p s k other. rw (==-false_of_ne k p.key other) refl;
  remove_removes = λ _ key s h. rw (==_refl key) refl;
  remove_not_found = λ _ key s e h missing. rw (==_refl key) refl;
  remove_other = λ _ key s k other. rw (==-false_of_ne k key other) refl;
  get_reads = λ _ key s content h. found-ok (s key) content h;
  get_keeps = λ _ key s k. refl;
  stat_keeps = λ _ key s k. refl;
}

abbrev pub photo : UploadedFile
photo = record {
  id = "f1";
  original_filename = "a.png";
  mime_type = "image/png";
  size = pos 3;
  created_at = 0;
  uploader = "ann";
  owner_service = "messageService";
}

-- A file service that gives every file the same id, and refuses an empty one.
abbrev pub server : FileServer
server = record {
  Remote = Bool;
  holds = λ held id. id == "f1" && held;
  post_file = λ _ bytes _ _ held. elim bytes [
    | [] ↦ (some (record { status_code = 400; file = none }), held)
    | ◌∷◌ _ _ ↦ (some (record { status_code = 201; file = some photo }), true)
  ];
  delete_file = λ id held.
      if id == "f1" && held
      then (some (record { status_code = 204; file = none }), false)
      else (some (record { status_code = 404; file = none }), held);
}
