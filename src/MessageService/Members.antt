-- ===== src/MessageService/Members.antt =====
-- messageService/internal/storage/redis/chatMembersStorage/chatMembersStorage.go, and getChatMembers of
-- messageService/internal/service/messageService/messageService.go. The lists of members are sets
-- of Redis under a key made of the chat's id, for which the id stands.
use simply_chat.Base.{
  ℕ, suc, ℤ, String, Bool, not, List, [], ◌∷◌, ◌++◌, select, contains, length, ◌≡◌, ◌⊎◌, inl, inr,
  refl, ap, ◌∙◌, arith, Result, ok, err, Exec, ◌==◌, nat_eq, int_eq, string_eq, if◌then◌else◌, ◌>>◌,
  ◌>>=◌, pure,
}
use simply_chat.Postgres.{Postgres}
use simply_chat.MessageStorage.Tables.{Db, StorageError, counted}
use simply_chat.MessageStorage.Chats.{get_all_chat_members}

-- Which commands fail, in which order the members of a set are returned, and which lists have run
-- out of time when a command comes. Commands are numbered by the state that they run on.
pub record Redis : Type 0 where
  pub fault : ℕ → Bool
  pub expired : ℕ → ℤ → Bool
  pub listed : ℕ → List String → List String

pub record MembersCache : Type 0 where
  pub lists : ℤ → List String
  pub commands : ℕ

pub data CacheError : Type 0 where
  command_failed : CacheError

abbrev pub Command : Type 0 → Type 0
Command A = Exec MembersCache CacheError A

abbrev pub with_list : ℤ → List String → MembersCache → MembersCache
with_list chat_id list s = record s { lists = λ id. if id == chat_id then list else s.lists id }

-- What has run out is gone when the command runs.
abbrev pub refreshed : Redis → ℤ → MembersCache → MembersCache
refreshed redis chat_id s =
    let c : MembersCache = record s { commands = suc s.commands } in
    if redis.expired s.commands chat_id then with_list chat_id [] c else c

abbrev pub command : Redis → ℤ → {A : Type 0} → Command A → Command A
command redis chat_id run s =
    let c = refreshed redis chat_id s in
    if redis.fault s.commands then (err command_failed, c) else run c

abbrev pub add_new : List String → List String → List String
add_new set [] = set
add_new set (login ∷ logins) =
    add_new (if contains login set then set else set ++ login ∷ []) logins

-- SADD, which is refused without a member to add.
abbrev s_add : ℤ → List String → Command (Unit {0})
s_add chat_id logins s =
    if length logins == 0
    then (err command_failed, s)
    else (ok tt, with_list chat_id (add_new (s.lists chat_id) logins) s)

unfoldable pub update_list_ttl : Redis → ℤ → Command (Unit {0})
update_list_ttl redis chat_id = command redis chat_id (pure tt)

unfoldable pub create_members_list : Redis → ℤ → List String → Command (Unit {0})
create_members_list redis chat_id users_login =
    command redis chat_id (s_add chat_id users_login) >> update_list_ttl redis chat_id

unfoldable pub get_members_list : Redis → ℤ → Command (List String)
get_members_list redis chat_id = do
  members ← command redis chat_id (λ s. (ok (redis.listed s.commands (s.lists chat_id)), s))
  update_list_ttl redis chat_id
  pure members

unfoldable pub add_member_to_list : Redis → ℤ → String → Command (Unit {0})
add_member_to_list redis chat_id user_login =
    command redis chat_id (s_add chat_id (user_login ∷ [])) >> update_list_ttl redis chat_id

unfoldable pub delete_member_from_list : Redis → ℤ → String → Command (Unit {0})
delete_member_from_list redis chat_id user_login =
    command redis chat_id
      (λ s. (ok tt, with_list chat_id (select (λ l. not (l == user_login)) (s.lists chat_id)) s))
    >> update_list_ttl redis chat_id

abbrev listed_or_none : Result CacheError (List String) → List String
listed_or_none (ok members) = members
listed_or_none (err e) = []

-- The database and the cache.
pub record Sources : Type 0 where
  pub db : Db
  pub cache : MembersCache

abbrev from_db : Postgres → ℤ → List String → Exec Sources StorageError (List String)
from_db pg chat_id [] s =
    let (r, db) = get_all_chat_members pg chat_id s.db in (r, record s { db = db })
from_db pg chat_id (login ∷ logins) s = (ok (login ∷ logins), s)

-- The members go back to the cache, whatever becomes of it.
abbrev cache_members :
    Redis
    → ℤ
    → Result StorageError (List String) × Sources
    → Result StorageError (List String) × Sources
cache_members redis chat_id (err e, s) = (err e, s)
cache_members redis chat_id (ok members, s) =
    (ok members, record s { cache = (create_members_list redis chat_id members s.cache).1 })

-- The cached list, or the database's where it is missing or empty.
unfoldable pub get_chat_members : Postgres → Redis → ℤ → Exec Sources StorageError (List String)
get_chat_members pg redis chat_id s =
    let (r, cache) = get_members_list redis chat_id s.cache in
    cache_members redis chat_id (from_db pg chat_id (listed_or_none r) (record s { cache = cache }))

get_all_chat_members-tables :
    (pg : Postgres) (chat_id : ℤ) (db : Db)
    → (get_all_chat_members pg chat_id db).1.tables ≡ db.tables
unfolding get_all_chat_members
get_all_chat_members-tables pg chat_id db = ground arith

from_db-tables :
    (pg : Postgres) (chat_id : ℤ) (logins : List String) (s : Sources)
    → (from_db pg chat_id logins s).1.db.tables ≡ s.db.tables
from_db-tables pg chat_id [] s = get_all_chat_members-tables pg chat_id s.db
from_db-tables pg chat_id (login ∷ logins) s = refl

get_all_chat_members-counted :
    (pg : Postgres) (chat_id : ℤ) (db : Db) → (get_all_chat_members pg chat_id db).1 ≡ counted db
unfolding get_all_chat_members
get_all_chat_members-counted pg chat_id db = ground arith

from_db-calls :
    (pg : Postgres) (chat_id : ℤ) (logins : List String) (s : Sources)
    → ((from_db pg chat_id logins s).1.db ≡ s.db)
      ⊎ ((from_db pg chat_id logins s).1.db ≡ counted s.db)
from_db-calls pg chat_id [] s = inr (get_all_chat_members-counted pg chat_id s.db)
from_db-calls pg chat_id (login ∷ logins) s = inl refl

cache_members-db :
    (redis : Redis) (chat_id : ℤ) (run : Result StorageError (List String) × Sources)
    → (cache_members redis chat_id run).1.db ≡ run.1.db
cache_members-db redis chat_id (ok members, s) = refl
cache_members-db redis chat_id (err e, s) = refl

-- The members are read by at most one statement.
pub get_chat_members-db :
    (pg : Postgres) (redis : Redis) (chat_id : ℤ) (s : Sources)
    → ((get_chat_members pg redis chat_id s).1.db ≡ s.db)
      ⊎ ((get_chat_members pg redis chat_id s).1.db ≡ counted s.db)
unfolding get_chat_members
get_chat_members-db pg redis chat_id s =
    let (r, cache) = get_members_list redis chat_id s.cache in
    let t : Sources = record s { cache = cache } in
    let e = cache_members-db redis chat_id (from_db pg chat_id (listed_or_none r) t) in
    elim (from_db-calls pg chat_id (listed_or_none r) t) [
      | inl same ↦ inl (e ∙ same)
      | inr one ↦ inr (e ∙ one)
    ]

pub get_chat_members-tables :
    (pg : Postgres) (redis : Redis) (chat_id : ℤ) (s : Sources)
    → (get_chat_members pg redis chat_id s).1.db.tables ≡ s.db.tables
unfolding get_chat_members
get_chat_members-tables pg redis chat_id s =
    let (r, cache) = get_members_list redis chat_id s.cache in
    let t : Sources = record s { cache = cache } in
    ap (λ db. db.tables) (cache_members-db redis chat_id (from_db pg chat_id (listed_or_none r) t))
    ∙ from_db-tables pg chat_id (listed_or_none r) t
