-- ===== src/MessageService/FanOut.antt =====
-- fanOutMessage, enrichMessagePayload and the URLs of
-- messageService/internal/service/messageService/messageService.go. The encoding as JSON, which
-- does not fail on these payloads, is left out: the channel gets the payload.
pub mod Stopped
use mathlib.Core.Option
use Prim.Native.String
use simply_chat.Base.{
  String, Bool, true, false, not, ◌&&◌, ◌≡◌, ◌≢◌, refl, sym, ap, ◌∙◌, Option, none, some, List, [],
  ◌∷◌, map, contains, All, Distinct, Result, ok, err, Exec, Bool-cases, Option-cases, inl, inr,
  arith, if◌then◌else◌, ◌==◌, ==_iff, string_eq,
}
use simply_chat.Models.{AttachmentPayload, Event, EventSendMessagePayload}
use simply_chat.Postgres.{Postgres}
use simply_chat.MessageStorage.Messages.{message_kind_text, message_kind_file}
use simply_chat.MessageService.Clients.{
  Client, ClientStorage, get_client, hand_to, handed, find_client, find_client-hand_to,
}
use simply_chat.MessageService.Members.{Redis, Sources, get_chat_members, get_chat_members-tables}

unfoldable pub build_content_url : String → String
build_content_url file_id = String.◌++◌ "/files/" (String.◌++◌ file_id "/content")

unfoldable pub build_download_url : String → String
build_download_url file_id = String.◌++◌ "/files/" (String.◌++◌ file_id "/download")

abbrev pub with_urls : AttachmentPayload → AttachmentPayload
with_urls a = record a {
  content_url = build_content_url a.file_id;
  download_url = build_download_url a.file_id;
}

unfoldable pub enrich_message_payload : EventSendMessagePayload → EventSendMessagePayload
enrich_message_payload payload =
    let kind = if payload.kind == "" then message_kind_text else payload.kind in
    record payload {
      kind = kind;
      content = if kind == message_kind_file then "" else payload.content;
      attachments = map with_urls payload.attachments;
    }

pub data FanOutError : Type 0 where
  no_members timed_out : FanOutError

abbrev step_to :
    EventSendMessagePayload
    → String
    → (ClientStorage → Result FanOutError (Unit {0}) × ClientStorage)
    → Option Client
    → ClientStorage
    → Result FanOutError (Unit {0}) × ClientStorage
step_to payload login rest none s = rest s
step_to payload login rest (some c) s =
    if c.stalled
    then (err timed_out, s)
    else rest (record s { storage = hand_to login (Event.send_message payload) s.storage })

-- The loop over the members: not to the sender, not to who is offline, and no further where a
-- client's channel stays full.
unfoldable pub deliver :
    EventSendMessagePayload → List String → Exec ClientStorage FanOutError (Unit {0})
deliver payload [] s = (ok tt, s)
deliver payload (user_login ∷ logins) s =
    if user_login == payload.sender_login
    then deliver payload logins s
    else step_to payload user_login (λ t. deliver payload logins t) (get_client user_login s) s

pub record Online : Type 0 where
  pub sources : Sources
  pub clients : ClientStorage

abbrev deliver_to :
    {E : Type 0}
    → EventSendMessagePayload
    → Result E (List String) × Sources
    → ClientStorage
    → Result FanOutError (Unit {0}) × Online
deliver_to payload (err e, sources) clients =
    (err no_members, record { sources = sources; clients = clients })
deliver_to payload (ok members, sources) clients =
    let (r, t) = deliver payload members clients in (r, record { sources = sources; clients = t })

unfoldable pub fan_out_message :
    Postgres → Redis → EventSendMessagePayload → Exec Online FanOutError (Unit {0})
fan_out_message pg redis payload s =
    deliver_to payload (get_chat_members pg redis payload.chat_id s.sources) s.clients

-- Who gets a message that goes to these members.
pub is_receiver : EventSendMessagePayload → List String → String → Bool
is_receiver payload members login = contains login members && not (login == payload.sender_login)

abbrev pub after : EventSendMessagePayload → List String → String → Option Client → Option Client
after payload members login found =
    if is_receiver payload members login
    then Option.map (handed (Event.send_message payload)) found
    else found

pub not_contains :
    (m : String) (members : List String) → All (λ y. m ≢ y) members → contains m members ≡ false
not_contains m [] h = refl
not_contains m (y ∷ members) h = ground (arith, not_contains m members h.1, h.0, ==_iff m y)

module _ (payload : EventSendMessagePayload) (m login : String) (members : List String) where
  pub after-sender :
      (found : Option Client)
      → (m == payload.sender_login) ≡ true
      → after payload members login found ≡ after payload (m ∷ members) login found
  unfolding is_receiver
  after-sender found h =
      ground
        (arith, ==_iff login m, ==_iff m payload.sender_login, ==_iff login payload.sender_login)

  pub after-member :
      (found : Option Client)
      → (m == payload.sender_login) ≡ false
      → contains m members ≡ false
      → after payload members login
          (if login == m then Option.map (handed (Event.send_message payload)) found else found)
        ≡ after payload (m ∷ members) login found
  unfolding is_receiver
  after-member found h new = ground (arith, ==_iff login m, new, h)

pub offline_same :
    (payload : EventSendMessagePayload) (m login : String) (s : ClientStorage)
    → find_client m s.storage ≡ none
    → (if login == m
        then Option.map (handed (Event.send_message payload)) (find_client login s.storage)
        else find_client login s.storage)
      ≡ find_client login s.storage
offline_same payload m login s offline = elim (Bool-cases (login == m)) [
  | inr other ↦ rw other refl
  | inl same ↦ rw same (rw ((==_iff login m).0 same, offline) refl)
]

-- When the delivery to the members, no one of whom is listed twice, ends without an error, every
-- member who is online, but the sender, has got the message once, at the end of the channel, and
-- nobody else has got anything.
pub deliver-after :
    (payload : EventSendMessagePayload) (members : List String) (s : ClientStorage) (login : String)
    → Distinct (λ (m : String). m) members
    → (deliver payload members s).0 ≡ ok tt
    → get_client login (deliver payload members s).1
      ≡ after payload members login (get_client login s)
unfolding deliver get_client is_receiver
deliver-after payload [] s login d h = refl
deliver-after payload (m ∷ members) s login d h = elim (Bool-cases (m == payload.sender_login)) [
  | inl sender ↦ rw sender (
      deliver-after payload members s login d.1 (ground (arith, sender))
      ∙ after-sender payload m login members (find_client login s.storage) sender)
  | inr other ↦ elim (Option-cases (get_client m s)) [
    | inl offline ↦
        rw (other, offline)
          (deliver-after payload members s login d.1 (ground (arith, other, offline))
            ∙ ap (after payload members login) (sym (offline_same payload m login s offline))
            ∙ after-member payload m login members (find_client login s.storage) other
                (not_contains m members d.0))
    | inr (c, online) ↦ elim (Bool-cases c.stalled) [
      | inl stalled ↦ absurd (ground (arith, other, online, stalled))
      | inr ready ↦
          let t : ClientStorage = record s {
            storage = hand_to m (Event.send_message payload) s.storage;
          } in
          rw (other, online, ready)
            (deliver-after payload members t login d.1 (ground (arith, other, online, ready))
              ∙ ap (after payload members login)
                  (find_client-hand_to m login (Event.send_message payload) s.storage)
              ∙ after-member payload m login members (find_client login s.storage) other
                  (not_contains m members d.0))
    ]
  ]
]

deliver_to-sources :
    {E : Type 0} (payload : EventSendMessagePayload) (members : Result E (List String) × Sources)
    (clients : ClientStorage)
    → (deliver_to payload members clients).1.sources ≡ members.1
deliver_to-sources payload (ok members, sources) clients = refl
deliver_to-sources payload (err e, sources) clients = refl

-- The fan-out only reads the tables.
pub fan_out_message-tables :
    (pg : Postgres) (redis : Redis) (payload : EventSendMessagePayload) (s : Online)
    → (fan_out_message pg redis payload s).1.sources.db.tables ≡ s.sources.db.tables
unfolding fan_out_message
fan_out_message-tables pg redis payload s =
    let members = get_chat_members pg redis payload.chat_id s.sources in
    ap (λ sources. sources.db.tables) (deliver_to-sources payload members s.clients)
    ∙ get_chat_members-tables pg redis payload.chat_id s.sources
