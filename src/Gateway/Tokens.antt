-- ===== src/Gateway/Tokens.antt =====
-- ValidateAccessToken of apiGateway/internal/service/authService.go. Parsing and checking a JSON web
-- token, parsing a uuid and the clock are parameters.
pub mod Certified
use Prim.Native.Char.{Char, code}
use Prim.Native.String
use simply_chat.Base.{
  ℕ, nat_eq, Exec, or_raise, guard, pure, raise, continue, ◌>>=◌, ◌>>◌, ℤ, ltb_ℤ, String, Bool,
  true, false, not, ◌&&◌, ◌||◌, ◌≡◌, ◌≢◌, refl, Option, none, some, Result, ok, err, ◌==◌,
  string_eq, if◌then◌else◌,
}

pub record AccessToken : Type 0 where
  pub uid : String
  pub login : String
  pub user_role : String
  pub exp : ℤ

-- The value of a claim: a number is what `int64` makes of it, and a claim that is missing is `other`.
pub data Claim : Type 0 where
  text : String → Claim
  number : ℤ → Claim
  other : Claim

-- `claims` is none where they are no MapClaims.
pub record JwtToken : Type 0 where
  pub claims : Option (String → Claim)
  pub valid : Bool

-- The library of web tokens: `parse text key_of` asks `key_of` for the key by the signing method that
-- the token names; a token is returned without an error only where its signature verifies with it.
pub record Jwt : Type 1 where
  pub Method : Type 0
  pub Key : Type 0
  pub is_rsa : Method → Bool
  pub parse : String → (Method → Option Key) → Option JwtToken

pub data TokenError : Type 0 where
  not_parsed bad_access_token expired wrong_token : TokenError

abbrev pub text_claim : Claim → Option String
text_claim (text s) = some s
text_claim (number n) = none
text_claim other = none

abbrev pub number_claim : Claim → Option ℤ
number_claim (text s) = none
number_claim (number n) = some n
number_claim other = none

abbrev strip : String → String → Option String
strip String.[] s = some s
strip (String.◌∷◌ c p) String.[] = none
strip (String.◌∷◌ c p) (String.◌∷◌ d s) =
    let rest = strip p s in if code c == code d then rest else none

abbrev or_whole : String → Option String → String
or_whole s none = s
or_whole s (some rest) = rest

-- strings.TrimPrefix
unfoldable pub trim_prefix : String → String → String
trim_prefix s prefix = or_whole s (strip prefix s)

module _ (jwt : Jwt) (parse_uuid : String → Option String) (public_rsa_key : jwt.Key)
    (now : ℤ) where
  -- The key for a token that names this method: no token is accepted but by RSA.
  abbrev pub key_of : jwt.Method → Option jwt.Key
  key_of method = if jwt.is_rsa method then some public_rsa_key else none

  abbrev pub Check : Type 0 → Type 0
  Check A = Exec (Unit {0}) TokenError A

  abbrev pub read_claims : (String → Claim) → Check AccessToken
  read_claims claims = do
    uid_str ← or_raise bad_access_token (text_claim (claims "uid"))
    uid ← or_raise bad_access_token (parse_uuid uid_str)
    login ← or_raise bad_access_token (text_claim (claims "login"))
    guard (not (login == "")) bad_access_token
    user_role ← or_raise bad_access_token (text_claim (claims "userRole"))
    exp ← or_raise bad_access_token (number_claim (claims "exp"))
    guard (not (ltb_ℤ exp now)) expired
    pure (record { uid = uid; login = login; user_role = user_role; exp = exp })

  abbrev pub read_token : Option (String → Claim) → Bool → Check AccessToken
  read_token none valid = raise wrong_token
  read_token (some claims) false = raise wrong_token
  read_token (some claims) true = read_claims claims

  abbrev pub checked : String → Check AccessToken
  checked token = do
    jwt_token ← or_raise not_parsed (jwt.parse (trim_prefix token "Bearer ") key_of)
    read_token jwt_token.claims jwt_token.valid

  unfoldable pub validate_access_token : String → Result TokenError AccessToken
  validate_access_token token = (checked token tt).0
