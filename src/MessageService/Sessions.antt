-- ===== src/MessageService/Sessions.antt =====
-- Connections of the chat: InitConnection of messageService/internal/transport/websocket.go, and
-- the loops ReadMessage and WriteMessage of internal/service/messageService/messageService.go, of
-- which two run for every connection. A step is one turn of one of them; an event is handled in one
-- step.
pub mod Storage
pub mod Invariant
use simply_chat.Base.{
  ℕ, suc, ◌<◌, String, Bool, true, false, not, ◌≡◌, ◌≢◌, Option, none, some, List, [], ◌∷◌, ◌++◌,
  map, contains, ◌==◌, string_eq, nat_eq, if◌then◌else◌,
}
use simply_chat.Models.{Incoming}
use simply_chat.Postgres.{Postgres}
use simply_chat.MessageService.Clients.{
  Client, ClientStorage, save_client, get_client, delete_client, has_login,
}
use simply_chat.MessageService.Members.{Redis}
use simply_chat.MessageService.FanOut.{Online}
use simply_chat.MessageService.Handlers.{handle_event}

-- A reader is a run of ReadMessage, a writer one of WriteMessage.
pub data Role : Type 0 where
  reader writer : Role

-- `conn` is the connection of the client that the loop found when it began, none before that. The
-- loop's context is cancelled with the connection that it was started for, `opened`.
pub record Task : Type 0 where
  pub role : Role
  pub login : String
  pub opened : ℕ
  pub conn : Option ℕ

-- `next` is the number of connections so far.
pub record Sessions : Type 0 where
  pub online : Online
  pub tasks : List Task
  pub next : ℕ

abbrev pub with_clients : Online → ClientStorage → Online
with_clients o clients = record o { clients = clients }

abbrev task_of : Role → String → ℕ → Task
task_of role login conn = record { role = role; login = login; opened = conn; conn = none }

-- `upgrades` says whether the request becomes a websocket.
unfoldable pub init_connection : String → Bool → Sessions → Sessions
init_connection login upgrades s =
    if login == ""
    then s
    else if upgrades
    then record {
      online = with_clients s.online (save_client login s.next s.online.clients);
      tasks = s.tasks ++ task_of reader login s.next ∷ task_of writer login s.next ∷ [];
      next = suc s.next;
    }
    else s

-- The buffer of a client fills up, or has room again.
abbrev pub set_stalled : String → Bool → List Client → List Client
set_stalled login stalled cs =
    map (λ c. if has_login login c then record c { stalled = stalled } else c) cs

module _ (pg : Postgres) (redis : Redis) where
  -- A turn of a loop: what becomes of it, none where it returns, and of the rest.
  pub data Turn (task : Task) (o : Online) : Option Task → Online → Type 0 where
    finds_client :
        (c : Client)
        → task.conn ≡ none
        → get_client task.login o.clients ≡ some c
        → Turn task o (some (record task { conn = some c.conn })) o
    finds_nobody : task.conn ≡ none → get_client task.login o.clients ≡ none → Turn task o none o
    is_cancelled :
        (n : ℕ)
        → task.conn ≡ some n
        → contains task.opened o.clients.closed ≡ true
        → Turn task o none o
    -- a message that is no event is passed over
    skips : (n : ℕ) → task.role ≡ reader → task.conn ≡ some n → Turn task o (some task) o
    reads :
        (n : ℕ) (event : Incoming)
        → task.role ≡ reader
        → task.conn ≡ some n
        → Turn task o (some task) (handle_event pg redis task.login event o).1
    read_fails :
        (n : ℕ)
        → task.role ≡ reader
        → task.conn ≡ some n
        → Turn task o none (with_clients o (delete_client task.login o.clients))
    -- a message, or a ping, is written to the connection
    writes : (n : ℕ) → task.role ≡ writer → task.conn ≡ some n → Turn task o (some task) o
    channel_closed :
        (n : ℕ)
        → task.role ≡ writer
        → task.conn ≡ some n
        → contains n o.clients.closed ≡ true
        → Turn task o none (with_clients o (delete_client task.login o.clients))
    heartbeat_fails :
        (n : ℕ)
        → task.role ≡ writer
        → task.conn ≡ some n
        → Turn task o none (with_clients o (delete_client task.login o.clients))

  abbrev pub put_back : List Task → Option Task → List Task → List Task
  put_back before none rest = before ++ rest
  put_back before (some task) rest = before ++ task ∷ rest

  pub data Step (s : Sessions) : Sessions → Type 0 where
    connects : (login : String) (upgrades : Bool) → Step s (init_connection login upgrades s)
    turns :
        (before rest : List Task) (task : Task) (next_task : Option Task) (o : Online)
        → s.tasks ≡ before ++ task ∷ rest
        → Turn task s.online next_task o
        → Step s (record s { online = o; tasks = put_back before next_task rest })
    stalls :
        (login : String) (stalled : Bool)
        → Step s (record s {
          online = with_clients s.online (record s.online.clients {
            storage = set_stalled login stalled s.online.clients.storage;
          });
        })

  pub data Reachable (s : Sessions) : Sessions → Type 0 where
    start : Reachable s s
    after : {t u : Sessions} → Reachable s t → Step t u → Reachable s u
