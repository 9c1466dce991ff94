-- ===== src/Gateway/Routes.antt =====
-- apiGateway/internal/handler/router.go: which handler a request gets. The pages and the static files
-- are endpoints by their names.
use simply_chat.Base.{String, true, List, [], ◌∷◌, string_eq}
use simply_chat.Routes.{literal, variable, Route, route, Served, Mux}

pub data Endpoint : Type 0 where
  connect_to_chat upload_file_message content_file download_file update_tokens check_auth login
        register logout index_page auth_page static_files :
      Endpoint

abbrev pub router : List (Route Endpoint)
router =
    route [] (literal "chat" ∷ []) connect_to_chat
    ∷ route ("POST" ∷ [])
        (literal "chats" ∷ variable "chatId" ∷ literal "messages" ∷ literal "files" ∷ [])
        upload_file_message
    ∷ route ("GET" ∷ []) (literal "files" ∷ variable "fileId" ∷ literal "content" ∷ []) content_file
    ∷ route ("GET" ∷ []) (literal "files" ∷ variable "fileId" ∷ literal "download" ∷ [])
        download_file
    ∷ route [] (literal "api" ∷ literal "auth" ∷ literal "refresh" ∷ []) update_tokens
    ∷ route [] (literal "api" ∷ literal "auth" ∷ literal "check" ∷ []) check_auth
    ∷ route [] (literal "login" ∷ []) login
    ∷ route [] (literal "register" ∷ []) register
    ∷ route [] (literal "logout" ∷ []) logout
    ∷ route [] (literal "" ∷ []) index_page
    ∷ route [] (literal "auth.html" ∷ []) auth_page
    ∷ record { template = []; is_prefix = true; methods = []; handler = static_files }
    ∷ []

-- The endpoint and the variable `fileId` of a request.
unfoldable pub serve_http : Mux → String → String → Served Endpoint
serve_http mux method path = mux.serve router method path
