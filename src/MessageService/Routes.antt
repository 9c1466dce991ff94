-- ===== src/MessageService/Routes.antt =====
-- messageService/internal/transport/router.go: which handler a request gets. The pages of pprof are
-- endpoints by their names; the routes of its subrouter stand in the one list, which ends with them.
use simply_chat.Base.{String, Bool, true, false, List, [], ◌∷◌, map}
use simply_chat.Routes.{literal, variable, Route, route, Served, Mux}

pub data Endpoint : Type 0 where
  init_connection upload_file_message check_file_access : Endpoint
  pprof : String → Endpoint

abbrev pprof_route : String → Route Endpoint
pprof_route name = route [] (literal "debug" ∷ literal "pprof" ∷ literal name ∷ []) (pprof name)

abbrev pub setup_pprof : List (Route Endpoint)
setup_pprof = map pprof_route (
    "" ∷ "cmdline" ∷ "profile" ∷ "symbol" ∷ "trace" ∷ "goroutine" ∷ "heap" ∷ "threadcreate"
    ∷ "block" ∷ [])

abbrev file_routes : Bool → List (Route Endpoint) → List (Route Endpoint)
file_routes true others =
    route [] (literal "chats" ∷ variable "chatId" ∷ literal "messages" ∷ literal "files" ∷ [])
      upload_file_message
    ∷ route ("GET" ∷ [])
        (literal "internal" ∷ literal "files" ∷ variable "fileId" ∷ literal "access" ∷ [])
        check_file_access
    ∷ others
file_routes false others = others

-- The routes of files are there where their handler is, as it is at the start of the service.
abbrev pub init_router : Bool → List (Route Endpoint)
init_router with_files =
    route [] (literal "chat" ∷ []) init_connection ∷ file_routes with_files setup_pprof

unfoldable pub serve_http : Mux → String → String → Served Endpoint
serve_http mux method path = mux.serve (init_router true) method path
