-- ===== src/Tests/Proxied.antt =====
-- The gateway's connections to the chat and uploads: what it passes on, and the two loops.
use simply_chat.Base.{
  ℤ, pos, String, true, false, ◌≡◌, refl, Option, none, some, [], ◌∷◌, ok, trim_space, string_eq,
  ◌==◌, if◌then◌else◌, to_lower,
}
use simply_chat.Models.{EventSendMessagePayload}
use simply_chat.MessageStorage.Chats.{member}
use simply_chat.MessageStorage.Chats.{chat_exists, is_chat_member}
use simply_chat.MessageStorage.Messages.{
  create_file_message, with_tx, create_file_message_tx, create_message_tx, create_attachments_tx,
  insert_attachment, insert_message, to_attachment_payload,
}
use simply_chat.MessageService.FileClient
use simply_chat.MessageService.FileClient.{upload_result}
use simply_chat.MessageService.FanOut.{
  enrich_message_payload, build_content_url, build_download_url,
}
use simply_chat.MessageService.SendFileMessage.{
  send_file_message, upload_all, detect_attachment_kind,
}
use simply_chat.MessageService.Http
use simply_chat.MessageService.Http.{
  check_file_access, parse_file_id, matches_uuid, can_access_file, status_of,
}
use simply_chat.Gateway.Tokens.{AccessToken}
use simply_chat.Gateway.Requests.{Request}
use simply_chat.Gateway.ChatHandler
use simply_chat.Gateway.ChatHandler.{Urls, Upgrader, Forwarded, content_file}
use simply_chat.Gateway.ChatHandler.Access.{Bearer}
use simply_chat.Gateway.ChatHandler.Sender.{proxied_upload-sender}
use simply_chat.Gateway.WsProxy
use simply_chat.Gateway.WsProxy.{
  Pump, fresh_pump, start, after, dials, up_goes, forwards, read_fails, Proxy, proxying, Good,
  Reachable-Good,
}
use simply_chat.Tests.Fixtures.{healthy, server}
use simply_chat.Tests.Messages.{redis, world, upload_of}
use simply_chat.Tests.Gateway.{request, validate, messages, urls}

abbrev as_eve : Request
as_eve = record request { raw_query = "eve" }

abbrev hello : Pump String
hello = record { read = "hello" ∷ []; written = "hello" ∷ []; running = true }

proxied : WsProxy.Reachable {M = String} (proxying (record hello { running = false }) fresh_pump)
proxied =
    after (after (after start dials) (up_goes (forwards "hello" refl))) (up_goes (read_fails refl))

proxy_example : Good {M = String} (proxying (record hello { running = false }) fresh_pump)
proxy_example = Reachable-Good proxied

abbrev received : Http.Request
received = record {
  login = "bob";
  chat_id = "1";
  file_id = "";
  form = some (some (upload_of (1 ∷ [])) ∷ []);
}

abbrev atoi : String → Option ℤ
atoi s = if s == "1" then some (pos 1) else none

abbrev sent : EventSendMessagePayload
sent = record {
  id = pos 4;
  chat_id = pos 1;
  sender_login = "bob";
  kind = "file";
  content = "";
  attachments =
      record {
        file_id = "f1";
        original_filename = "a.png";
        mime_type = "image/png";
        size = pos 3;
        kind = "image";
        content_url = "/files/f1/content";
        download_url = "/files/f1/download";
      }
      ∷ [];
  created_at = 4;
}

stored : (Http.upload_file_message healthy redis server atoi received world).0 ≡ ok sent
unfolding Http.upload_file_message trim_space Http.parse_chat_id Http.parse_uploaded_files
    send_file_message chat_exists is_chat_member upload_all FileClient.upload upload_result
    create_file_message with_tx create_file_message_tx create_message_tx create_attachments_tx
    insert_attachment insert_message enrich_message_payload to_attachment_payload to_lower
    detect_attachment_kind build_content_url build_download_url
stored = refl

-- The client says that it is eve.
abbrev posted : Forwarded
posted = record { host = "http://messages"; path = "/files/a/content"; raw_query = "bob" }

posts : (ChatHandler.upload_file_message urls messages validate as_eve tt).0 ≡ ok posted
unfolding ChatHandler.upload_file_message ChatHandler.get_validated_access_token
    ChatHandler.proxy_request
posts = refl

proxied_example :
    (token : AccessToken) × Bearer urls messages validate as_eve token
    × (received.login ≡ token.login)
    × (sent.sender_login ≡ trim_space token.login)
    × (member sent.chat_id (trim_space token.login) world.online.sources.db.tables.chat_user ≡ true)
proxied_example =
    proxied_upload-sender urls messages validate healthy redis server atoi as_eve tt posted received
      world sent (λ q v. refl) (λ q. refl) posts refl stored
