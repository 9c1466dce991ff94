-- ===== src/MessageService/Clients.antt =====
-- messageService/internal/storage/memoryStorage/clientStorage/clientStorage.go: who is online. A
-- client's connection is a number, and `closed` holds the connections that have been closed, with
-- which the channel is closed and the handling of the client cancelled.
use mathlib.Core.Option
use simply_chat.Base.{
  ℕ, String, Bool, true, false, not, ◌≡◌, refl, Option, none, some, List, [], ◌∷◌, ◌++◌, select,
  ◌==◌, ==_iff, contains, any-append, nat_eq, string_eq, if◌then◌else◌, arith, Bool-cases,
  Option-cases, ◌∙◌, inl, inr,
}
use simply_chat.Models.{Event}

-- `send` is what was handed to the client's channel, oldest first. `stalled` says that its buffer is
-- full and that nobody takes from it within three seconds.
pub record Client : Type 0 where
  pub login : String
  pub conn : ℕ
  pub send : List Event
  pub stalled : Bool

pub record ClientStorage : Type 0 where
  pub storage : List Client
  pub closed : List ℕ

abbrev pub has_login : String → Client → Bool
has_login login c = c.login == login

abbrev pub find_client : String → List Client → Option Client
find_client login [] = none
find_client login (c ∷ cs) =
    let rest = find_client login cs in if has_login login c then some c else rest

abbrev pub without : String → List Client → List Client
without login cs = select (λ c. not (has_login login c)) cs

-- The client before it, if there is one, is forgotten: its connection stays open.
unfoldable pub save_client : String → ℕ → ClientStorage → ClientStorage
save_client login conn s = record s {
  storage =
      record { login = login; conn = conn; send = []; stalled = false } ∷ without login s.storage;
}

unfoldable pub get_client : String → ClientStorage → Option Client
get_client login s = find_client login s.storage

abbrev close_found : String → Option Client → ClientStorage → ClientStorage
close_found login none s = s
close_found login (some c) s = record {
  storage = without login s.storage;
  closed = s.closed ++ c.conn ∷ [];
}

unfoldable pub delete_client : String → ClientStorage → ClientStorage
delete_client login s = close_found login (find_client login s.storage) s

abbrev pub handed : Event → Client → Client
handed event c = record c { send = c.send ++ event ∷ [] }

-- `client.Send <- event` on the client that is found for the login.
abbrev pub hand_to : String → Event → List Client → List Client
hand_to login event [] = []
hand_to login event (c ∷ cs) =
    let rest = hand_to login event cs in if has_login login c then handed event c ∷ cs else c ∷ rest

find_client-without :
    (login other : String) (cs : List Client)
    → find_client other (without login cs) ≡ (if other == login then none else find_client other cs)
find_client-without login other [] = ground arith
find_client-without login other (c ∷ cs) = ground (
  arith,
  find_client-without login other cs,
  ==_iff c.login login,
  ==_iff c.login other,
  ==_iff other login,
)

-- After a login is saved, its new connection is found for it, with an empty channel; every other
-- login finds what it found before. After it is deleted it finds none, and its connection is
-- closed.
pub save_client-get_client :
    (login other : String) (conn : ℕ) (s : ClientStorage)
    → (get_client other (save_client login conn s) ≡ (
        if other == login
        then some (record { login = login; conn = conn; send = []; stalled = false })
        else get_client other s))
      × (get_client other (delete_client login s)
          ≡ (if other == login then none else get_client other s))
      × ((c : Client)
          → get_client login s ≡ some c
          → contains c.conn (delete_client login s).closed ≡ true)
unfolding save_client get_client delete_client
save_client-get_client login other conn s = elim (Option-cases (find_client login s.storage)) [
  | inl offline ↦ (
    ground
        (arith, find_client-without login other s.storage, ==_iff login other, ==_iff other login),
    rw offline (elim (Bool-cases (other == login)) [
      | inl same ↦ rw same (rw ((==_iff other login).0 same) offline)
      | inr differ ↦ rw differ refl
    ]),
    λ c found. absurd (ground (arith, offline)),
  )
  | inr (client, online) ↦ (
    ground
        (arith, find_client-without login other s.storage, ==_iff login other, ==_iff other login),
    rw online (find_client-without login other s.storage),
    λ c found. rw online (
        any-append (λ conn. c.conn == conn) s.closed (client.conn ∷ [])
        ∙ ground (arith, ==_iff c.conn client.conn)),
  )
]

pub find_client-hand_to :
    (login other : String) (event : Event) (cs : List Client)
    → find_client other (hand_to login event cs) ≡ (
        if other == login
        then Option.map (handed event) (find_client other cs)
        else find_client other cs)
find_client-hand_to login other event [] = ground arith
find_client-hand_to login other event (c ∷ cs) = ground (
  arith,
  find_client-hand_to login other event cs,
  ==_iff c.login login,
  ==_iff c.login other,
  ==_iff other login,
)
