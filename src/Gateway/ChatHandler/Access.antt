-- ===== src/Gateway/ChatHandler/Access.antt =====
-- Who gets the content of a file through the gateway: its handlers, the message service that
-- they ask, and the tables of that service.
use Prim.Native.String.{◌++◌}
use simply_chat.Base.{
  String, true, false, ◌≡◌, refl, ap, ◌∙◌, ◌⊎◌, none, some, Result, ok, err, Result-cases,
  Option-cases, Bool-cases, inl, inr, arith, ◌==◌, ==_iff, string_eq, nat_eq, trim_space,
}
use simply_chat.Postgres.{Postgres}
use simply_chat.MessageStorage.Paging.{IsHealthy}
use simply_chat.MessageService.Members.{Redis}
use simply_chat.MessageService.FileClient.{FileServer}
use simply_chat.MessageService.SendFileMessage.{World}
use simply_chat.MessageService.Http
use simply_chat.MessageService.Http.{check_file_access, parse_file_id, status_of}
use simply_chat.MessageService.Http.Access.{
  IsReadable, check_file_access-IsReadable, check_file_access-status,
}
use simply_chat.Gateway.Tokens.{AccessToken, TokenError}
use simply_chat.Gateway.Requests.{Request, status}
use simply_chat.Gateway.MessageClient
use simply_chat.Gateway.MessageClient.{MessageServer, access_target, access_of}
use simply_chat.Gateway.ChatHandler.{
  Urls, Forwarded, get_validated_access_token, ensure_file_access, proxy_request, content_file,
  download_file,
}

-- The request that the message service sees for the gateway's question.
abbrev pub asked : String → String → Http.Request
asked login file_id = record { login = login; chat_id = ""; file_id = file_id; form = none }

module _ (urls : Urls) (messages : MessageServer)
    (validate : String → Result TokenError AccessToken) where
  -- The access token of the request, by which it may go on.
  pub record Bearer (r : Request) (token : AccessToken) : Type 0 where
    pub access_token : String
    pub sent : r.cookie "access_token" ≡ ok access_token
    pub valid : validate access_token ≡ ok token

  pub get_validated-Bearer :
      (r : Request) (s : messages.Remote) (token : AccessToken)
      → (get_validated_access_token urls messages validate r s).0 ≡ ok token
      → Bearer r token
  unfolding get_validated_access_token
  get_validated-Bearer r s token h = elim (Result-cases (r.cookie "access_token")) [
    | inr (e, unread) ↦ absurd (ground (arith, h, unread))
    | inl (access_token, sent) ↦ elim (Result-cases (validate access_token)) [
      | inr (e, invalid) ↦ absurd (ground (arith, h, sent, invalid))
      | inl (t, valid) ↦ record {
        access_token = access_token;
        sent = sent;
        valid = ground (arith, h, sent, valid);
      }
    ]
  ]

  pub Bearer-get_validated :
      (r : Request) (s : messages.Remote) (token : AccessToken)
      → Bearer r token
      → get_validated_access_token urls messages validate r s ≡ (ok token, s)
  unfolding get_validated_access_token
  Bearer-get_validated r s token b = rw b.sent (rw b.valid refl)

  -- The access is there only where the message service answers with 204.
  ensure_file_access-204 :
      (r : Request) (login : String) (s : messages.Remote)
      → (ensure_file_access urls messages validate r login s).0 ≡ ok tt
      → (messages.get (access_target messages login r.file_id) s).0 ≡ some 204
  unfolding ensure_file_access MessageClient.can_access_file
  ensure_file_access-204 r login s h =
      let target = access_target messages login r.file_id in
      elim (Bool-cases (r.file_id == "")) [
        | inl missing ↦ absurd (ground (arith, h, missing))
        | inr named ↦ elim (Bool-cases (messages.is_target target)) [
          | inr bad ↦ absurd (ground (arith, h, named, bad))
          | inl good ↦ elim (Option-cases (messages.get target s).0) [
            | inl silent ↦ absurd (ground (arith, h, named, good, silent))
            | inr (code, answered) ↦ elim (Bool-cases (code == 204)) [
              | inl granted ↦ ground (arith, answered, ==_iff code 204, granted)
              | inr other ↦ elim (Bool-cases (code == 403)) [
                | inl denied ↦ absurd (ground (arith, h, named, good, answered, other, denied))
                | inr odd ↦ absurd (ground (arith, h, named, good, answered, other, odd))
              ]
            ]
          ]
        ]
      ]

  -- What a file that is served has passed.
  pub content_file-ok :
      (file_service_addr : String) (r : Request) (s : messages.Remote) (f : Forwarded)
      → (content_file urls messages validate file_service_addr r s).0 ≡ ok f
      → (token : AccessToken) × Bearer r token
        × ((messages.get (access_target messages token.login r.file_id) s).0 ≡ some 204)
        × (urls.host ("http://" ++ file_service_addr) ≡ some f.host)
        × (f.path ≡ r.path)
        × (f.raw_query ≡ r.raw_query)
  unfolding content_file proxy_request
  content_file-ok file_service_addr r s f h =
      elim (Result-cases (get_validated_access_token urls messages validate r s).0) [
        | inr (e, refused) ↦ absurd (ground (arith, h, refused))
        | inl (token, validated) ↦
            let bearer = get_validated-Bearer r s token validated in
            let same = Bearer-get_validated r s token bearer in
            elim (Result-cases (ensure_file_access urls messages validate r token.login s).0) [
              | inr (e, denied) ↦ absurd (ground (arith, h, same, denied))
              | inl (_, granted) ↦
                  elim (Option-cases (urls.host ("http://" ++ file_service_addr))) [
                    | inl unparsed ↦ absurd (ground (arith, h, same, granted, unparsed))
                    | inr (host, parsed) ↦ (
                      token,
                      bearer,
                      ensure_file_access-204 r token.login s granted,
                      ground (arith, h, same, granted, parsed),
                      ground (arith, h, same, granted, parsed),
                      ground (arith, h, same, granted, parsed),
                    )
                  ]
            ]
      ]

  -- ensure_file_access by the status of the message service.
  ensure_file_access-status :
      (r : Request) (login : String) (s : messages.Remote)
      → (r.file_id == "") ≡ false
      → messages.is_target (access_target messages login r.file_id) ≡ true
      → ((messages.get (access_target messages login r.file_id) s).0 ≡ some 204
          → (ensure_file_access urls messages validate r login s).0 ≡ ok tt)
        × ((messages.get (access_target messages login r.file_id) s).0 ≡ some 403
            → (ensure_file_access urls messages validate r login s).0 ≡ err (status 403))
  unfolding ensure_file_access MessageClient.can_access_file
  ensure_file_access-status r login s named good = (
    λ granted. ground (arith, named, good, granted),
    λ denied. ground (arith, named, good, denied),
  )

module _ (urls : Urls) (messages : MessageServer)
    (validate : String → Result TokenError AccessToken) (pg : Postgres) (redis : Redis)
    (files : FileServer) where
  -- The content of a file, and its download, are proxied only for a request whose access token is valid, and
  -- for a file that was sent in a chat of which the token's login is a member, provided that the
  -- message service's 204 arrives only where its handler wrote it. What is proxied has the
  -- request's path and query and goes to the file service.
  pub content_file-IsReadable :
      (file_service_addr : String) (r : Request) (s : messages.Remote) (w : World pg redis files)
      (f : Forwarded)
      → ((token : AccessToken)
          → Bearer urls messages validate r token
          → (messages.get (access_target messages token.login r.file_id) s).0 ≡ some 204
          → status_of 204 (check_file_access pg redis files (asked token.login r.file_id) w).0
            ≡ 204)
      → ((content_file urls messages validate file_service_addr r s).0 ≡ ok f)
        ⊎ ((download_file urls messages validate file_service_addr r s).0 ≡ ok f)
      → (token : AccessToken) × Bearer urls messages validate r token
        × ((file_id id : String) × (pg.uuid (trim_space file_id) ≡ some id)
            × (parse_file_id (asked token.login r.file_id) ≡ ok file_id)
            × IsReadable w.online.sources.db.tables (trim_space token.login) id)
        × (urls.host ("http://" ++ file_service_addr) ≡ some f.host)
        × (f.path ≡ r.path)
        × (f.raw_query ≡ r.raw_query)
  unfolding content_file download_file
  content_file-IsReadable file_service_addr r s w f routed served =
      let (token, bearer, granted, host, path, query) =
        content_file-ok urls messages validate file_service_addr r s f
          (elim served [ inl h ↦ h | inr h ↦ h ]) in
      let (file_id, id, parsed, cast, readable) =
        check_file_access-IsReadable pg redis files (asked token.login r.file_id) w
          (routed token bearer granted) in
      (token, bearer, (file_id, id, cast, parsed, readable), host, path, query)

  -- A request with a valid token gets a file of one of the chats of its login, and the status 403 for every
  -- other file, provided that the database answers, the id is a uuid, and the answer of the message
  -- service arrives.
  pub content_file-status :
      (file_service_addr host file_id id : String) (r : Request) (s : messages.Remote)
      (w : World pg redis files) (token : AccessToken)
      → IsHealthy pg
      → Bearer urls messages validate r token
      → (trim_space token.login == "") ≡ false
      → (r.file_id == "") ≡ false
      → messages.is_target (access_target messages token.login r.file_id) ≡ true
      → (messages.get (access_target messages token.login r.file_id) s).0
        ≡ some (status_of 204 (check_file_access pg redis files (asked token.login r.file_id) w).0)
      → parse_file_id (asked token.login r.file_id) ≡ ok file_id
      → pg.uuid (trim_space file_id) ≡ some id
      → urls.host ("http://" ++ file_service_addr) ≡ some host
      → let answer = (content_file urls messages validate file_service_addr r s).0 in
        (IsReadable w.online.sources.db.tables (trim_space token.login) id
          → answer ≡ ok (record { host = host; path = r.path; raw_query = r.raw_query }))
        × (¬ IsReadable w.online.sources.db.tables (trim_space token.login) id
            → answer ≡ err (status 403))
  unfolding content_file proxy_request
  content_file-status file_service_addr host file_id id r s w token healthy bearer login named good
        arrives parsed cast addr =
      let (yes_file, no_file) =
        check_file_access-status pg redis files (asked token.login r.file_id) w file_id id healthy
          login parsed cast in
      let (granted, denied) =
        ensure_file_access-status urls messages validate r token.login s named good in
      let same = Bearer-get_validated urls messages validate r s token bearer in
      (
        λ readable. rw (same, granted (arrives ∙ ap some (yes_file readable)), addr) refl,
        λ unreadable. rw (same, denied (arrives ∙ ap some (no_file unreadable))) refl,
      )
