-- ===== src/MessageService/Sessions/Invariant.antt =====
-- What holds of the clients however connections, events and failures are interleaved.
use simply_chat.Base.{
  ℕ, String, Bool, false, ◌≡◌, refl, ◌∙◌, Option, none, some, List, [], ◌∷◌, map, contains, All,
  Distinct, Moves, Option-cases, Bool-cases, inl, inr, arith, ◌==◌, string_eq, nat_eq,
}
use simply_chat.Models.{Event, EventSendMessagePayload}
use simply_chat.Postgres.{Postgres}
use simply_chat.MessageService.Clients.{Client, ClientStorage, get_client, hand_to}
use simply_chat.MessageService.Members.{Redis}
use simply_chat.MessageService.FanOut.{Online, deliver}
use simply_chat.MessageService.Handlers.{
  send_to, send_waiting, hand_found, hand_waiting, handle_event,
}
use simply_chat.MessageService.Handlers.Moves.{Kept, handle_event-Moves}
use simply_chat.MessageService.Sessions.{
  Sessions, Step, Turn, Reachable, start, after, connects, turns, stalls, init_connection,
  set_stalled, with_clients, Task, finds_client, finds_nobody, is_cancelled, skips, reads,
  read_fails, writes, channel_closed, heartbeat_fails,
}
use simply_chat.MessageService.Sessions.Storage.{
  Sound, idents, ident, save_client-Sound, delete_client-Sound, hand_to-idents,
}

-- The same clients with the same connections, whatever they have been handed.
abbrev SameStorage : ClientStorage → ClientStorage → Type 0
SameStorage s t = (idents t ≡ idents s) × (t.closed ≡ s.closed)

abbrev SameClients : Online → Online → Type 0
SameClients s t = SameStorage s.clients t.clients

SameClients-trans : (a b c : Online) → SameClients a b → SameClients b c → SameClients a c
SameClients-trans a b c p q = (q.0 ∙ p.0, q.1 ∙ p.1)

hand_found-SameClients :
    (login : String) (event : Event) (found : Option Client) (s : Online)
    → SameClients s (hand_found login event found s).1
      × SameClients s (hand_waiting login event found s).1
hand_found-SameClients login event none s = ((refl, refl), (refl, refl))
hand_found-SameClients login event (some c) s = elim (Bool-cases c.stalled) [
  | inl full ↦ (rw full (refl, refl), (hand_to-idents login event s.clients.storage, refl))
  | inr room ↦ (
    rw room (hand_to-idents login event s.clients.storage, refl),
    (hand_to-idents login event s.clients.storage, refl),
  )
]

send_to-SameClients :
    (login : String) (event : Event)
    → Moves SameClients (send_to login event) × Moves SameClients (send_waiting login event)
unfolding send_to send_waiting
send_to-SameClients login event = (
  λ s. (hand_found-SameClients login event (get_client login s.clients) s).0,
  λ s. (hand_found-SameClients login event (get_client login s.clients) s).1,
)

deliver-SameStorage :
    (payload : EventSendMessagePayload) (logins : List String)
    → Moves SameStorage (deliver payload logins)
unfolding deliver
deliver-SameStorage payload [] s = (refl, refl)
deliver-SameStorage payload (login ∷ logins) s = elim (Bool-cases (login == payload.sender_login)) [
  | inl sender ↦ rw sender (deliver-SameStorage payload logins s)
  | inr other ↦ elim (Option-cases (get_client login s)) [
    | inl offline ↦ rw (other, offline) (deliver-SameStorage payload logins s)
    | inr (c, online) ↦ elim (Bool-cases c.stalled) [
      | inl full ↦ rw (other, online, full) (refl, refl)
      | inr room ↦
          let t = record s { storage = hand_to login (Event.send_message payload) s.storage } in
          let (same, closed) = deliver-SameStorage payload logins t in
          rw (other, online, room) (same ∙ hand_to-idents login _ s.storage, closed)
    ]
  ]
]

set_stalled-idents :
    (login : String) (stalled : Bool) (cs : List Client)
    → map ident (set_stalled login stalled cs) ≡ map ident cs
set_stalled-idents login stalled [] = refl
set_stalled-idents login stalled (c ∷ cs) = ground (arith, set_stalled-idents login stalled cs)

abbrev pub SoundSessions : Sessions → Type 0
SoundSessions s = Sound s.next (idents s.online.clients) s.online.clients.closed

SameClients-Sound :
    (next : ℕ) (s t : Online)
    → SameClients s t
    → Sound next (idents s.clients) s.clients.closed
    → Sound next (idents t.clients) t.clients.closed
SameClients-Sound next s t (same, closed) h = rw (same, closed) h

module _ (pg : Postgres) (redis : Redis) where
  Kept-SameClients : Kept pg redis SameClients
  Kept-SameClients = record {
    same = λ s. (refl, refl);
    trans = SameClients-trans;
    creates = λ capacity low high s. (refl, refl);
    adds = λ id login s. (refl, refl);
    saves = λ msg s. (refl, refl);
    reads = λ m counts s. (refl, refl);
    members = λ chat_id s. (refl, refl);
    sends = λ login event. (send_to-SameClients login event).0;
    waits = λ login event. (send_to-SameClients login event).1;
    delivers = λ message logins s. deliver-SameStorage message logins s.clients;
  }

  Turn-Sound :
      (next : ℕ) (task : Task) (o : Online) (next_task : Option Task) (p : Online)
      → Turn pg redis task o next_task p
      → Sound next (idents o.clients) o.clients.closed
      → Sound next (idents p.clients) p.clients.closed
  Turn-Sound next task o _ p (finds_client c new found) h = h
  Turn-Sound next task o _ p (finds_nobody new found) h = h
  Turn-Sound next task o _ p (is_cancelled n runs done) h = h
  Turn-Sound next task o _ p (skips n role runs) h = h
  Turn-Sound next task o _ p (reads n event role runs) h =
      SameClients-Sound next o (handle_event pg redis task.login event o).1
        (handle_event-Moves pg redis SameClients Kept-SameClients task.login event o) h
  Turn-Sound next task o _ p (read_fails n role runs) h =
      delete_client-Sound task.login next o.clients h
  Turn-Sound next task o _ p (writes n role runs) h = h
  Turn-Sound next task o _ p (channel_closed n role runs done) h =
      delete_client-Sound task.login next o.clients h
  Turn-Sound next task o _ p (heartbeat_fails n role runs) h =
      delete_client-Sound task.login next o.clients h

  init_connection-Sound :
      (login : String) (upgrades : Bool) (s : Sessions)
      → SoundSessions s
      → SoundSessions (init_connection login upgrades s)
  unfolding init_connection
  init_connection-Sound login upgrades s h = elim (Bool-cases (login == "")) [
    | inl empty ↦ rw empty h
    | inr named ↦ elim (Bool-cases upgrades) [
      | inl upgraded ↦ rw (named, upgraded) (save_client-Sound login s.next s.online.clients h)
      | inr refused ↦ rw (named, refused) h
    ]
  ]

  Step-Sound : (s t : Sessions) → Step pg redis s t → SoundSessions s → SoundSessions t
  Step-Sound s _ (connects login upgrades) h = init_connection-Sound login upgrades s h
  Step-Sound s _ (turns before rest task next_task o at turn) h =
      Turn-Sound s.next task s.online next_task o turn h
  Step-Sound s _ (stalls login stalled) h =
      rw (set_stalled-idents login stalled s.online.clients.storage) h

  Reachable-Sound : (s t : Sessions) → Reachable pg redis s t → SoundSessions s → SoundSessions t
  Reachable-Sound s _ start h = h
  Reachable-Sound s _ (after {t} {u} reached step) h =
      Step-Sound t u step (Reachable-Sound s t reached h)

-- Nobody has connected.
abbrev pub nobody : Online → Sessions
nobody o = record {
  online = with_clients o (record { storage = []; closed = [] });
  tasks = [];
  next = 0;
}

-- Whatever clients connect, send and lose, in whatever order the readers and writers take their turns:
-- no login has two clients and no two clients share a connection; no connection, and so no
-- channel, is closed twice; and that of a client who is online has not been closed.
pub reachable-sessions :
    (pg : Postgres) (redis : Redis) (o : Online) (s : Sessions)
    → Reachable pg redis (nobody o) s
    → let clients = s.online.clients in
      Distinct (λ (i : String × ℕ). i.0) (idents clients)
      × Distinct (λ (i : String × ℕ). i.1) (idents clients)
      × Distinct (λ (n : ℕ). n) clients.closed
      × All (λ (i : String × ℕ). contains i.1 clients.closed ≡ false) (idents clients)
reachable-sessions pg redis o s reached =
    let sound = Reachable-Sound pg redis (nobody o) s reached (record {
      logins = tt;
      conns = tt;
      unclosed = tt;
      once = tt;
      ids_old = tt;
      closed_old = tt;
    }) in
    (sound.logins, sound.conns, sound.once, sound.unclosed)
