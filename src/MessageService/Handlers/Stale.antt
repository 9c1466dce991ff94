-- ===== src/MessageService/Handlers/Stale.antt =====
-- The cached list of members after a user was added to the chat.
use simply_chat.Base.{
  ℕ, suc, true, [], contains, arith, string_eq, ℤ, String, false, ◌≡◌, refl, ap, ◌∙◌, some, List,
  ◌∷◌, ok, Result-cases, inl, inr, int_eq,
}
use simply_chat.Models.{EventAddUserToChatPayload}
use simply_chat.Postgres.{Postgres}
use simply_chat.MessageStorage.Chats.{add_user_to_chat}
use simply_chat.MessageService.Members.{
  Redis, Sources, get_chat_members, get_members_list, update_list_ttl,
}
use simply_chat.MessageService.FanOut.{Online}
use simply_chat.MessageService.Handlers.{handle_new_user_in_chat}
use simply_chat.MessageService.Handlers.Chats.{send_to-tables}

nonempty :
    (m : String) (l : List String)
    → contains m l ≡ true
    → (first : String) × (others : List String) × (l ≡ first ∷ others)
nonempty m [] h = absurd (ground (arith, h))
nonempty m (x ∷ l) h = (x, l, refl)

module _ (pg : Postgres) (redis : Redis) where
  handle_new_user-cache :
      (payload : EventAddUserToChatPayload) (s : Online)
      → (handle_new_user_in_chat pg redis (some payload) s).1.sources.cache ≡ s.sources.cache
  unfolding handle_new_user_in_chat
  handle_new_user-cache payload s =
      elim (Result-cases (add_user_to_chat pg payload.chat_id payload.user_login s.sources.db).0) [
        | inr (e, failed) ↦ rw failed refl
        | inl (_, done) ↦
            rw done (ap (λ sources. sources.cache) (send_to-tables payload.user_login _ _))
      ]

  -- The members that are answered are those of the set, in whatever order it is listed.
  from_list :
      (chat_id : ℤ) (s : Sources) (login : String)
      → ((n : ℕ) → redis.fault n ≡ false)
      → ((n : ℕ) → redis.expired n chat_id ≡ false)
      → ((n : ℕ) (l : List String) (m : String) → contains m (redis.listed n l) ≡ contains m l)
      → contains login (s.cache.lists chat_id) ≡ true
      → (get_chat_members pg redis chat_id s).0
        ≡ ok (redis.listed (suc s.cache.commands) (s.cache.lists chat_id))
  unfolding get_chat_members get_members_list update_list_ttl
  from_list chat_id s login runs fresh same cached =
      let n = suc s.cache.commands in
      let list = s.cache.lists chat_id in
      let (first, others, listed) =
        nonempty login (redis.listed n list) (same n list login ∙ cached) in
      rw (fresh s.cache.commands, runs s.cache.commands, fresh n, runs n, listed) refl

  -- Adding a user to a chat leaves the cached set of its members as it is. While Redis answers, lists the
  -- members of the set in any order, and the set has a member and has not run out, the members to
  -- whom messages go are those of the set, whoever was added to the chat since.
  pub handle_new_user_in_chat-stale :
      (payload : EventAddUserToChatPayload) (s : Online) (login : String)
      → ((n : ℕ) → redis.fault n ≡ false)
      → ((n : ℕ) → redis.expired n payload.chat_id ≡ false)
      → ((n : ℕ) (l : List String) (m : String) → contains m (redis.listed n l) ≡ contains m l)
      → contains login (s.sources.cache.lists payload.chat_id) ≡ true
      → let t = (handle_new_user_in_chat pg redis (some payload) s).1 in
        (members : List String) × ((get_chat_members pg redis payload.chat_id t.sources).0
          ≡ ok members)
        × ((m : String) → contains m members ≡ contains m (s.sources.cache.lists payload.chat_id))
  handle_new_user_in_chat-stale payload s login runs fresh same cached =
      let t = (handle_new_user_in_chat pg redis (some payload) s).1 in
      let kept = ap (λ cache. cache.lists payload.chat_id) (handle_new_user-cache payload s) in
      (
        redis.listed (suc t.sources.cache.commands) (t.sources.cache.lists payload.chat_id),
        from_list payload.chat_id t.sources login runs fresh same
            (ap (contains login) kept ∙ cached),
        λ m.
            same (suc t.sources.cache.commands) (t.sources.cache.lists payload.chat_id) m
            ∙ ap (contains m) kept,
      )
