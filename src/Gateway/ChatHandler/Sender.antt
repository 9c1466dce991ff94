-- ===== src/Gateway/ChatHandler/Sender.antt =====
-- As whom a request goes on from the gateway.
use Prim.Native.String.{◌++◌}
use simply_chat.Base.{
  ℤ, String, true, ◌≡◌, ◌∙◌, ap, Option, some, Result, ok, Result-cases, Option-cases, inl, inr,
  arith, string_eq, trim_space,
}
use simply_chat.Models.{EventSendMessagePayload}
use simply_chat.Postgres.{Postgres}
use simply_chat.MessageStorage.Chats.{member}
use simply_chat.MessageService.FileClient.{FileServer}
use simply_chat.MessageService.Members.{Redis}
use simply_chat.MessageService.SendFileMessage.{World}
use simply_chat.MessageService.Http
use mathlib.Core.Path.{subst}
use simply_chat.MessageService.Http.Sender
use simply_chat.Gateway.Tokens.{AccessToken, TokenError}
use simply_chat.Gateway.Requests.{Request}
use simply_chat.Gateway.MessageClient.{MessageServer}
use simply_chat.Gateway.ChatHandler
use simply_chat.Gateway.ChatHandler.{
  Urls, Upgrader, Forwarded, get_validated_access_token, proxy_request, connect_to_chat,
}
use simply_chat.Gateway.ChatHandler.Access.{Bearer, get_validated-Bearer, Bearer-get_validated}

module _ (urls : Urls) (messages : MessageServer)
    (validate : String → Result TokenError AccessToken) where
  -- What an upload that is proxied has passed.
  pub upload-ok :
      (r : Request) (s : messages.Remote) (f : Forwarded)
      → (ChatHandler.upload_file_message urls messages validate r s).0 ≡ ok f
      → (token : AccessToken) × Bearer urls messages validate r token
        × (urls.host ("http://" ++ messages.addr) ≡ some f.host)
        × (f.path ≡ r.path)
        × (f.raw_query ≡ urls.encode (urls.set "login" token.login (urls.parse_query r.raw_query)))
  unfolding ChatHandler.upload_file_message proxy_request
  upload-ok r s f h =
      elim (Result-cases (get_validated_access_token urls messages validate r s).0) [
        | inr (e, refused) ↦ absurd (ground (arith, h, refused))
        | inl (token, validated) ↦
            let bearer = get_validated-Bearer urls messages validate r s token validated in
            let same = Bearer-get_validated urls messages validate r s token bearer in
            elim (Option-cases (urls.host ("http://" ++ messages.addr))) [
              | inl unparsed ↦ absurd (ground (arith, h, same, unparsed))
              | inr (host, parsed) ↦ (
                token,
                bearer,
                ground (arith, h, same, parsed),
                ground (arith, h, same, parsed),
                ground (arith, h, same, parsed),
              )
            ]
      ]

  -- An upload that the gateway passes on names the login of the access token, whatever login the client put in the
  -- query, provided that net/url reads back what it encodes. A message that the message service
  -- makes of it is a message of that login, trimmed, who is a member of the chat.
  pub proxied_upload-sender :
      (pg : Postgres) (redis : Redis) (files : FileServer) (atoi : String → Option ℤ) (r : Request)
      (s : messages.Remote) (f : Forwarded) (received : Http.Request) (w : World pg redis files)
      (p : EventSendMessagePayload)
      → ((q : urls.Values) (v : String) → urls.get "login" (urls.set "login" v q) ≡ v)
      → ((q : urls.Values)
          → urls.get "login" (urls.parse_query (urls.encode q)) ≡ urls.get "login" q)
      → (ChatHandler.upload_file_message urls messages validate r s).0 ≡ ok f
      → received.login ≡ urls.get "login" (urls.parse_query f.raw_query)
      → (Http.upload_file_message pg redis files atoi received w).0 ≡ ok p
      → (token : AccessToken) × Bearer urls messages validate r token
        × (received.login ≡ token.login)
        × (p.sender_login ≡ trim_space token.login)
        × (member p.chat_id (trim_space token.login) w.online.sources.db.tables.chat_user ≡ true)
  proxied_upload-sender pg redis files atoi r s f received w p get_set reparsed h arrived stored =
      let (token, bearer, host, path, query) = upload-ok r s f h in
      let named : urls.get "login" (urls.parse_query f.raw_query) ≡ token.login =
        ap (λ q. urls.get "login" (urls.parse_query q)) query
        ∙ reparsed _
        ∙ get_set _ token.login in
      let login : received.login ≡ token.login = arrived ∙ named in
      let (chat, sender, belongs) =
        Sender.upload_file_message-sender pg redis files atoi received w p stored in
      (
        token,
        bearer,
        login,
        sender ∙ ap trim_space login,
        subst (λ l. member p.chat_id (trim_space l) w.online.sources.db.tables.chat_user ≡ true)
            login belongs,
      )
