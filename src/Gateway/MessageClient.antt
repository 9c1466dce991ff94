-- ===== src/Gateway/MessageClient.antt =====
-- apiGateway/internal/client/messageClient.go and service/messageService.go: asking the message
-- service whether a login may have a file, and connecting to its chat. Escaping, the exchange over HTTP
-- and the dialling of a websocket are parameters.
use Prim.Native.String.{◌++◌}
use simply_chat.Base.{
  ℕ, String, Bool, true, false, Option, none, some, Result, ok, err, Exec, ◌==◌, nat_eq,
  if◌then◌else◌,
}

pub data ClientError : Type 0 where
  bad_target no_response unexpected_status : ClientError

-- `get target` is the status of the answer, none where there is no answer in five seconds, and
-- `is_target` says whether net/http makes a request of the text; `dial target` says whether a websocket
-- is opened to it.
pub record MessageServer : Type 1 where
  pub Remote : Type 0
  pub addr : String
  pub path_escape : String → String
  pub query_escape : String → String
  pub is_target : String → Bool
  pub get : String → Remote → Option ℕ × Remote
  pub dial : String → Remote → Bool × Remote

module _ (server : MessageServer) where
  -- The login stands in the address as it is, without being escaped.
  abbrev pub chat_target : String → String
  chat_target login = "ws://" ++ server.addr ++ "/chat?login=" ++ login

  unfoldable pub connect_to_message_service : String → Exec server.Remote ClientError (Unit {0})
  connect_to_message_service login s =
      let (opened, t) = server.dial (chat_target login) s in
      (if opened then ok tt else err no_response, t)

  unfoldable pub access_target : String → String → String
  access_target login file_id =
      "http://"
      ++ server.addr
      ++ "/internal/files/"
      ++ server.path_escape file_id
      ++ "/access?login="
      ++ server.query_escape login

  abbrev pub access_of : Option ℕ → Result ClientError Bool
  access_of none = err no_response
  access_of (some status) =
      if status == 204 then ok true else if status == 403 then ok false else err unexpected_status

  unfoldable pub can_access_file : String → String → Exec server.Remote ClientError Bool
  can_access_file login file_id s =
      let target = access_target login file_id in
      let (answer, t) = server.get target s in
      if server.is_target target then (access_of answer, t) else (err bad_target, s)
