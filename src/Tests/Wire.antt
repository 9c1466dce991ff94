-- ===== src/Tests/Wire.antt =====
-- The file service behind its client.
use simply_chat.Base.{ℕ, String, ◌≡◌, ◌≢◌, refl, some, ok, trim_space, string_eq, ne-of_==-false}
use simply_chat.FileService.Service.{unless_not_found}
use simply_chat.FileService.S3.{delete_object, with_retry, attempts}
use simply_chat.MessageService.SendFileMessage.Compensation.{Deletes}
use simply_chat.Wire.{file_server}
use simply_chat.Wire.Reliable.{file_server-Deletes}
use simply_chat.Tests.Fixtures.{healthy, healthy-IsHealthy}
use simply_chat.Tests.Files.{storage, host, config}

abbrev Store : Type 0
Store = storage.Store

deletable :
    (key : String) (store : Store) → unless_not_found (storage.delete_object key store).0 ≡ ok tt
unfolding delete_object with_retry attempts
deletable key store = refl

named : (n : ℕ) → trim_space host.fresh_id ≢ ""
unfolding trim_space
named n = ne-of_==-false "f1" "" refl

wire_example : Deletes (file_server healthy storage (λ id. some id) (λ _. host) config)
wire_example =
    file_server-Deletes healthy storage (λ id. some id) (λ _. host) config healthy-IsHealthy
      deletable named
