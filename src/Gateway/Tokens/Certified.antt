-- ===== src/Gateway/Tokens/Certified.antt =====
-- What a valid access token is, apart from the order of the checks.
use simply_chat.Base.{
  ℤ, ◌≤ℤ◌, ltb_ℤ, or_raise-ok, guard-ok, String, true, false, not, ◌≡◌, ◌≢◌, ◌↔◌, refl, Option,
  some, ok, Option-cases, Bool-cases, inl, inr, arith, ◌==◌, if◌then◌else◌, none, ==_iff,
  ==-false_of_ne, string_eq,
}
use simply_chat.Gateway.Tokens.{
  AccessToken, Claim, text, number, other, JwtToken, Jwt, key_of, text_claim, number_claim,
  trim_prefix, read_claims, validate_access_token,
}

module _ (jwt : Jwt) (parse_uuid : String → Option String) (public_rsa_key : jwt.Key)
    (now : ℤ) where
  -- A key for the methods of RSA alone.
  abbrev pub only_rsa : jwt.Method → Option jwt.Key
  only_rsa method = if jwt.is_rsa method then some public_rsa_key else none

  -- The text is a token that verifies by RSA, whose claims are those of the access token: a uuid, a login that is not
  -- empty, a role, and a time to expire that is not over.
  pub record Certified (token : String) (t : AccessToken) : Type 0 where
    pub parsed : JwtToken
    pub claims : String → Claim
    pub uid_text : String
    pub verified : jwt.parse (trim_prefix token "Bearer ") only_rsa ≡ some parsed
    pub has_claims : parsed.claims ≡ some claims
    pub is_valid : parsed.valid ≡ true
    pub uid : claims "uid" ≡ text uid_text
    pub uuid : parse_uuid uid_text ≡ some t.uid
    pub login : claims "login" ≡ text t.login
    pub named : t.login ≢ ""
    pub user_role : claims "userRole" ≡ text t.user_role
    pub exp : claims "exp" ≡ number t.exp
    pub in_time : now ≤ℤ t.exp

text_claim-some : (c : Claim) (s : String) → text_claim c ≡ some s → c ≡ text s
text_claim-some (text t) s h = ground arith
text_claim-some (number n) s h = absurd (ground arith)
text_claim-some other s h = absurd (ground arith)

number_claim-some : (c : Claim) (n : ℤ) → number_claim c ≡ some n → c ≡ number n
number_claim-some (text t) n h = absurd (ground arith)
number_claim-some (number m) n h = ground arith
number_claim-some other n h = absurd (ground arith)

module _ (jwt : Jwt) (parse_uuid : String → Option String) (public_rsa_key : jwt.Key)
    (now : ℤ) where
  read_claims-Certified :
      (token : String) (t : AccessToken) (parsed : JwtToken) (claims : String → Claim)
      → jwt.parse (trim_prefix token "Bearer ") (key_of jwt parse_uuid public_rsa_key now)
        ≡ some parsed
      → parsed.claims ≡ some claims
      → parsed.valid ≡ true
      → (read_claims jwt parse_uuid public_rsa_key now claims tt).0 ≡ ok t
      → Certified jwt parse_uuid public_rsa_key now token t
  read_claims-Certified token t parsed claims verified has_claims is_valid h =
      let (uid_text, has_uid, h1) = or_raise-ok _ (text_claim (claims "uid")) _ tt t h in
      let (uid, uuid, h2) = or_raise-ok _ (parse_uuid uid_text) _ tt t h1 in
      let (login, has_login, h3) = or_raise-ok _ (text_claim (claims "login")) _ tt t h2 in
      let (named, h4) = guard-ok (not (login == "")) _ _ tt t h3 in
      let (user_role, has_role, h5) = or_raise-ok _ (text_claim (claims "userRole")) _ tt t h4 in
      let (exp, has_exp, h6) = or_raise-ok _ (number_claim (claims "exp")) _ tt t h5 in
      let (in_time, h7) = guard-ok (not (ltb_ℤ exp now)) _ _ tt t h6 in
      record {
        parsed = parsed;
        claims = claims;
        uid_text = uid_text;
        verified = verified;
        has_claims = has_claims;
        is_valid = is_valid;
        uid = text_claim-some (claims "uid") uid_text has_uid;
        uuid = ground arith;
        login = ground (arith, text_claim-some (claims "login") login has_login);
        named = λ empty. ground (arith, ==_iff login "");
        user_role = ground (arith, text_claim-some (claims "userRole") user_role has_role);
        exp = ground (arith, number_claim-some (claims "exp") exp has_exp);
        in_time = ground arith;
      }

  Certified-read_claims :
      (token : String) (t : AccessToken) (c : Certified jwt parse_uuid public_rsa_key now token t)
      → (read_claims jwt parse_uuid public_rsa_key now c.claims tt).0 ≡ ok t
  Certified-read_claims token t c =
      let named : (t.login == "") ≡ false = ==-false_of_ne t.login "" c.named in
      let in_time : ltb_ℤ t.exp now ≡ false = ground (arith, c.in_time) in
      rw (c.uid, c.uuid, c.login, named, c.user_role, c.exp, in_time) refl

  -- ValidateAccessToken returns an access token just where the text is certified to be it: it
  -- verifies with the public key by a method of RSA, its claims are those of the access token, and it is not expired.
  pub validate_access_token-Certified :
      (token : String) (t : AccessToken)
      → (validate_access_token jwt parse_uuid public_rsa_key now token ≡ ok t)
        ↔ Certified jwt parse_uuid public_rsa_key now token t
  unfolding validate_access_token
  validate_access_token-Certified token t = (
    λ accepted.
        let (parsed, verified, h) =
          or_raise-ok _
            (jwt.parse (trim_prefix token "Bearer ") (key_of jwt parse_uuid public_rsa_key now)) _
            tt t accepted in
        elim (Option-cases parsed.claims) [
          | inl unread ↦ absurd (ground arith)
          | inr (claims, has_claims) ↦ elim (Bool-cases parsed.valid) [
            | inl is_valid ↦
                read_claims-Certified token t parsed claims verified has_claims is_valid
                  (ground arith)
            | inr invalid ↦ absurd (ground arith)
          ]
        ],
    λ c.
        rw (c.verified, validate_access_token)
          (rw (c.has_claims, c.is_valid) (Certified-read_claims token t c)),
  )
