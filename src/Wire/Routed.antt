-- ===== src/Wire/Routed.antt =====
-- The routers of the gateway and of the services behind it, on the paths that the gateway passes on.
use Prim.Native.String
use mathlib.Core.Path.{subst}
use text.Mathlib.TextLemmas.{append_assoc}
use simply_chat.Base.{
  String, true, false, ◌≡◌, refl, sym, ap, ◌∙◌, List, [], ◌∷◌, All, Result, ok, Option,
  ne-of_==-false, ◌==◌, string_eq,
}
use simply_chat.Postgres.{Postgres}
use simply_chat.Routes.{Mux, Served, handled, path_of, IsSegment, first_match, Route, has_slash}
use simply_chat.FileService.ObjectStorage.{ObjectStorage}
use simply_chat.FileService.Service.{Host, Config, State}
use simply_chat.FileService.Http
use simply_chat.FileService.Routes
use simply_chat.MessageService.FanOut.{build_content_url, build_download_url}
use simply_chat.MessageService.Routes as MessageRoutes
use simply_chat.Gateway.Routes as GatewayRoutes
use simply_chat.Gateway.Tokens.{AccessToken, TokenError}
use simply_chat.Gateway.Requests.{Request}
use simply_chat.Gateway.MessageClient.{MessageServer}
use simply_chat.Gateway.ChatHandler
use simply_chat.Gateway.ChatHandler.{Urls, Forwarded}
use simply_chat.Gateway.ChatHandler.Access.{content_file-ok}
use simply_chat.Gateway.ChatHandler.Sender.{upload-ok}

-- The requests that the gateway passes on.
pub data Proxied : Type 0 where
  message_files content download : Proxied

-- Their paths: an upload names a chat, and the others are the URLs of an attachment.
abbrev pub url_of : Proxied → String → String
url_of message_files id = String.◌++◌ "/chats/" (String.◌++◌ id "/messages/files")
url_of content id = build_content_url id
url_of download id = build_download_url id

abbrev pub method_of : Proxied → String
method_of message_files = "POST"
method_of content = "GET"
method_of download = "GET"

-- A router chose this handler, with this value of the variable.
abbrev pub Chosen : {H : Type 0} → Served H → H → String → String → Type 0
Chosen {H} served h name value =
    (vars : String → String) × (served ≡ handled h vars) × (vars name ≡ value)

literal_IsSegment :
    (s : String)
    → (s == "") ≡ false
    → (s == ".") ≡ false
    → (s == "..") ≡ false
    → has_slash s ≡ false
    → IsSegment s
literal_IsSegment s a b c d = record {
  not_empty = ne-of_==-false s "" a;
  not_here = ne-of_==-false s "." b;
  not_up = ne-of_==-false s ".." c;
  no_slash = d;
}

abbrev segments_of : Proxied → String → List String
segments_of message_files id = "chats" ∷ id ∷ "messages" ∷ "files" ∷ []
segments_of content id = "files" ∷ id ∷ "content" ∷ []
segments_of download id = "files" ∷ id ∷ "download" ∷ []

segments_of-IsSegment :
    (e : Proxied) (id : String) → IsSegment id → All IsSegment (segments_of e id)
segments_of-IsSegment message_files id segment = (
  literal_IsSegment "chats" refl refl refl refl,
  (
    segment,
    (
      literal_IsSegment "messages" refl refl refl refl,
      (literal_IsSegment "files" refl refl refl refl, tt),
    ),
  ),
)
segments_of-IsSegment content id segment = (
  literal_IsSegment "files" refl refl refl refl,
  (segment, (literal_IsSegment "content" refl refl refl refl, tt)),
)
segments_of-IsSegment download id segment = (
  literal_IsSegment "files" refl refl refl refl,
  (segment, (literal_IsSegment "download" refl refl refl refl, tt)),
)

-- What stands before the first variable of a path, and after it.
join_before :
    (a b c rest : String)
    → String.◌++◌ (String.◌++◌ a (String.◌++◌ b c)) rest
      ≡ String.◌++◌ a (String.◌++◌ b (String.◌++◌ c rest))
join_before a b c rest =
    append_assoc a (String.◌++◌ b c) rest ∙ ap (String.◌++◌ a) (append_assoc b c rest)

path_of-segments : (e : Proxied) (id : String) → url_of e id ≡ path_of (segments_of e id)
unfolding build_content_url build_download_url
path_of-segments message_files id = join_before "/" "chats" "/" (String.◌++◌ id "/messages/files")
path_of-segments content id = join_before "/" "files" "/" (String.◌++◌ id "/content")
path_of-segments download id = join_before "/" "files" "/" (String.◌++◌ id "/download")

abbrev pub endpoint_of : Proxied → GatewayRoutes.Endpoint
endpoint_of message_files = GatewayRoutes.upload_file_message
endpoint_of content = GatewayRoutes.content_file
endpoint_of download = GatewayRoutes.download_file

abbrev pub variable_of : Proxied → String
variable_of message_files = "chatId"
variable_of content = "fileId"
variable_of download = "fileId"

module _ (mux : Mux) (urls : Urls) (messages : MessageServer)
    (validate : String → Result TokenError AccessToken) (file_service_addr : String) where
  abbrev pub handler_of : Proxied → Request → ChatHandler.Handled urls messages validate Forwarded
  handler_of message_files r = ChatHandler.upload_file_message urls messages validate r
  handler_of content r = ChatHandler.content_file urls messages validate file_service_addr r
  handler_of download r = ChatHandler.download_file urls messages validate file_service_addr r

  forwarded-path :
      (e : Proxied) (r : Request) (s : messages.Remote) (f : Forwarded)
      → (handler_of e r s).0 ≡ ok f
      → f.path ≡ r.path
  unfolding ChatHandler.content_file ChatHandler.download_file
  forwarded-path message_files r s f h =
      let (token, bearer, host, path, query) = upload-ok urls messages validate r s f h in path
  forwarded-path content r s f h =
      let (token, bearer, granted, host, path, query) =
        content_file-ok urls messages validate file_service_addr r s f h in
      path
  forwarded-path download r s f h =
      let (token, bearer, granted, host, path, query) =
        content_file-ok urls messages validate file_service_addr r s f h in
      path

  -- A choice on the path of a request that is passed on, by what mux documents.
  served_first :
      {H : Type 0} (routes : List (Route H)) (e : Proxied) (id : String)
      → IsSegment id
      → mux.serve routes (method_of e) (url_of e id)
        ≡ first_match false routes (method_of e) (segments_of e id)
  served_first routes e id segment =
      ap (mux.serve routes (method_of e)) (path_of-segments e id)
      ∙ mux.serves_first routes (method_of e) (segments_of e id)
          (segments_of-IsSegment e id segment)

  gateway-Chosen :
      (e : Proxied) (id : String)
      → IsSegment id
      → Chosen
          (GatewayRoutes.serve_http mux (method_of e) (url_of e id))
          (endpoint_of e)
          (variable_of e)
          id
  unfolding GatewayRoutes.serve_http first_match
  gateway-Chosen message_files id segment =
      (_, served_first GatewayRoutes.router message_files id segment, refl)
  gateway-Chosen content id segment =
      (_, served_first GatewayRoutes.router content id segment, refl)
  gateway-Chosen download id segment =
      (_, served_first GatewayRoutes.router download id segment, refl)

  module _ (pg : Postgres) (o : ObjectStorage) (parse_uuid : String → Option String) (host : Host)
      (config : Config) where
    -- What becomes of the path at the service behind the gateway: the message service chooses the upload to
    -- this chat, and the file service answers with this file.
    abbrev pub Reached : Proxied → String → String → Http.Request → State pg o → Type 0
    Reached message_files id path q t =
        Chosen (MessageRoutes.serve_http mux "POST" path) MessageRoutes.upload_file_message "chatId"
          id
    Reached content id path q t =
        Routes.serve_http pg o parse_uuid host config mux "GET" path q t
        ≡ Routes.handle pg o parse_uuid host config Routes.get_content (record q { id = id }) t
    Reached download id path q t =
        Routes.serve_http pg o parse_uuid host config mux "GET" path q t
        ≡ Routes.handle pg o parse_uuid host config Routes.get_download_link (record q { id = id })
            t

    reached :
        (e : Proxied) (id : String) (q : Http.Request) (t : State pg o)
        → IsSegment id
        → Reached e id (url_of e id) q t
    unfolding MessageRoutes.serve_http Routes.serve_http first_match
    reached message_files id q t segment =
        (_, served_first (MessageRoutes.init_router true) message_files id segment, refl)
    reached content id q t segment = rw (served_first Routes.new_router content id segment) refl
    reached download id q t segment = rw (served_first Routes.new_router download id segment) refl

    -- A request for the URL of an attachment, or for sending files to a chat: the gateway chooses the
    -- handler that passes it on, with the identifier of the URL; and what it passes on reaches, by
    -- the router of the service behind it, the handler for the same identifier. The identifier is
    -- taken to be one that mux leaves in a path as it is.
    pub proxied-Reached :
        (e : Proxied) (id : String) (r : Request) (s : messages.Remote) (f : Forwarded)
        (q : Http.Request) (t : State pg o)
        → IsSegment id
        → r.path ≡ url_of e id
        → (handler_of e r s).0 ≡ ok f
        → Chosen
            (GatewayRoutes.serve_http mux (method_of e) r.path)
            (endpoint_of e)
            (variable_of e)
            id
          × Reached e id f.path q t
    proxied-Reached e id r s f q t segment path passed = (
      subst
          (λ p.
            Chosen (GatewayRoutes.serve_http mux (method_of e) p) (endpoint_of e) (variable_of e)
              id)
          (sym path) (gateway-Chosen e id segment),
      subst (λ p. Reached e id p q t) (sym (forwarded-path e r s f passed ∙ path))
          (reached e id q t segment),
    )
