-- ===== src/Tests/Messages.antt =====
-- The message service: sending, delivery, access and statuses.
use simply_chat.Base.{
  ℕ, pos, String, Bool, false, ◌≡◌, refl, ap, sym, ◌∙◌, ◌||◌, Option, none, some, List, [], ◌∷◌, ok,
  arith, trim_space, string_eq, ne-of_==-false, Distinct, ◌==◌, ==_iff, Bool-cases, inl, inr,
  nat_eq,
}
use simply_chat.Models.{EventSendMessagePayload}
use simply_chat.MessageStorage.Messages.{user_has_access_to_file}
use simply_chat.FileService.Errors.{map_error, file_too_large}
use simply_chat.MessageService.FileClient
use simply_chat.MessageService.FileClient.{
  post_content, Content, UploadedFile, UploadRequest, Answer, upload_result, delete_result,
}
use simply_chat.MessageService.Clients.{Client, ClientStorage, get_client}
use simply_chat.MessageService.Members.{Redis}
use simply_chat.MessageService.FanOut.{deliver, after, deliver-after}
use simply_chat.MessageService.SendFileMessage.{
  FileUpload, SendFileMessageInput, World, send_file_message,
}
use simply_chat.MessageService.SendFileMessage.Compensation.{Deletes}
use simply_chat.MessageService.SendFileMessage.Ending.{SendOutcome}
use simply_chat.MessageService.SendFileMessage.Outcomes.{send_file_message-SendOutcome}
use simply_chat.MessageService.Http.{
  Request, check_file_access, parse_file_id, can_access_file, matches_uuid, status_of,
}
use simply_chat.MessageService.Http.Access.{
  IsReadable, check_file_access-IsReadable, check_file_access-status,
}
use simply_chat.MessageService.Statuses.{sender_status, sender_status-map_error}
use simply_chat.Tests.Fixtures.{healthy, healthy-IsHealthy, server, db, tables, attachment}

abbrev pub redis : Redis
redis = record { fault = λ _. false; expired = λ _ _. false; listed = λ _ l. l }

abbrev pub online : String → ℕ → Client
online login conn = record { login = login; conn = conn; send = []; stalled = false }

abbrev pub clients : ClientStorage
clients = record { storage = online "ann" 1 ∷ online "bob" 2 ∷ []; closed = [] }

abbrev pub world : World healthy redis server
world = record {
  online = record {
    sources = record { db = db; cache = record { lists = λ _. []; commands = 0 } };
    clients = clients;
  };
  remote = false;
  closed = [];
}

abbrev pub upload_of : List ℕ → FileUpload
upload_of bytes = record {
  filename = "a.png";
  content_type = "image/png";
  size = pos 3;
  reader = some (record { bytes = bytes; seek_fails = false });
}

-- The second file is refused, so the first is deleted again.
abbrev input : SendFileMessageInput
input = record {
  chat_id = pos 1;
  sender_login = "ann";
  files = upload_of (1 ∷ []) ∷ upload_of [] ∷ [];
}

posted_photo :
    (bytes : List ℕ) (s : Bool) (file : UploadedFile)
    → upload_result (server.post_file "" bytes "" "" s).0 ≡ ok file
    → file.id ≡ "f1"
unfolding upload_result
posted_photo [] s file h = absurd (ground arith)
posted_photo (b ∷ bytes) s file h = ground arith

upload-photo :
    (request : UploadRequest) (content : Option Content) (s : Bool) (file : UploadedFile)
    → (post_content server request content s).0 ≡ ok file
    → file.id ≡ "f1"
unfolding upload_result
upload-photo request none s file h = absurd (ground arith)
upload-photo request (some content) s file h =
    elim (Bool-cases (trim_space request.filename == "" || content.seek_fails)) [
      | inl refused ↦ absurd (ground (arith, refused))
      | inr posted ↦ posted_photo content.bytes s file (ground (arith, posted))
    ]

server-Deletes : Deletes server
unfolding FileClient.delete FileClient.upload delete_result trim_space
server-Deletes = record {
  acknowledges = λ id s named held. ground (arith, ==_iff (trim_space id) "", named, held);
  removes = λ id s done. ground (arith, done);
  brings_none_back = λ id other s gone. ground (arith, gone);
  names = λ request s file done h.
      ne-of_==-false "f1" "" refl
        (ap trim_space (sym (upload-photo request request.content s file done)) ∙ h);
}

send_example :
    SendOutcome healthy redis server input tables false
      (send_file_message healthy redis server input world).1
      (send_file_message healthy redis server input world).0
send_example = send_file_message-SendOutcome healthy redis server input server-Deletes world

abbrev pub payload : EventSendMessagePayload
payload = record {
  id = pos 4;
  chat_id = pos 1;
  sender_login = "ann";
  kind = "text";
  content = "hi";
  attachments = [];
  created_at = 0;
}

abbrev members : List String
members = "ann" ∷ "bob" ∷ "eve" ∷ []

members-Distinct : Distinct (λ (m : String). m) members
members-Distinct = (
  (ne-of_==-false "ann" "bob" refl, (ne-of_==-false "ann" "eve" refl, tt)),
  ((ne-of_==-false "bob" "eve" refl, tt), (tt, tt)),
)

delivered : (deliver payload members clients).0 ≡ ok tt
unfolding deliver get_client
delivered = refl

deliver_example :
    get_client "bob" (deliver payload members clients).1
    ≡ after payload members "bob" (get_client "bob" clients)
deliver_example = deliver-after payload members clients "bob" members-Distinct delivered

abbrev pub file_id : String
file_id = "00000000-0000-0000-0000-00000000000a"

abbrev asked : Request
asked = record { login = "bob"; chat_id = ""; file_id = file_id; form = none }

-- The file with this id was sent with the second message.
abbrev pub shared : World healthy redis server
shared = record world {
  online = record world.online {
    sources = record world.online.sources {
      db = record db {
        tables = record tables { message_attachment = attachment 1 2 file_id ∷ [] };
      };
    };
  };
}

allowed : status_of 204 (check_file_access healthy redis server asked shared).0 ≡ 204
unfolding check_file_access parse_file_id matches_uuid can_access_file user_has_access_to_file
    trim_space
allowed = refl

access_example :
    (id f : String) × (parse_file_id asked ≡ ok id)
    × (healthy.uuid (trim_space id) ≡ some f)
    × IsReadable shared.online.sources.db.tables (trim_space "bob") f
access_example = check_file_access-IsReadable healthy redis server asked shared allowed

parsed : parse_file_id asked ≡ ok file_id
unfolding parse_file_id matches_uuid trim_space
parsed = refl

id_cast : healthy.uuid (trim_space file_id) ≡ some file_id
unfolding trim_space
id_cast = refl

named : (trim_space "bob" == "") ≡ false
unfolding trim_space
named = refl

status_example :
    let status = status_of 204 (check_file_access healthy redis server asked shared).0 in
    (IsReadable shared.online.sources.db.tables (trim_space "bob") file_id → status ≡ 204)
    × (¬ IsReadable shared.online.sources.db.tables (trim_space "bob") file_id → status ≡ 403)
status_example =
    check_file_access-status healthy redis server asked shared file_id file_id healthy-IsHealthy
      named parsed id_cast

refusal_example :
    sender_status (some (record { status_code = (map_error (file_too_large ∷ [])).0; file = none }))
    ≡ 422
refusal_example = sender_status-map_error (file_too_large ∷ []) none
