-- ===== src/Tests/Start.antt =====
-- The gateway, started over an auth service that always gives the same key.
use simply_chat.Base.{pos, String, true, ◌≡◌, refl, some, [], ok}
use simply_chat.Gateway.Tokens.Certified.{Certified}
use simply_chat.Gateway.Start.{
  App, Asked, AuthKeys, IsKeyFrom, load_config, new_app, new_tokens_handler, get_public_rsa_key,
  started-Certified,
}
use simply_chat.Tests.Gateway.{jwt, bearer_of, accepted}

abbrev auth : AuthKeys String
auth = record {
  Block = String;
  makes_client = λ _. true;
  public_rsa_key = λ _. some "key";
  decode = λ pem. some pem;
  parse = λ block. some block;
}

abbrev getenv : String → String
getenv key = key

abbrev app : App auth
app = record {
  config = load_config getenv;
  tokens_key = "key";
  auth_service_public_rsa_key = "key";
}

abbrev asked : Asked
asked = record { steps = []; questions = 0 }

started : (new_app auth getenv asked).0 ≡ ok app
unfolding new_app new_tokens_handler get_public_rsa_key
started = refl

key_example :
    (key : String) × IsKeyFrom auth 0 key
    × Certified jwt (λ u. some u) key (pos 100) "Bearer good" (bearer_of "bob")
key_example =
    started-Certified jwt auth getenv asked app (λ u. some u) (pos 100) "Bearer good"
      (bearer_of "bob") started accepted
