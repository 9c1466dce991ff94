-- ===== src/Gateway/AuthHandler/Session.antt =====
-- What a client can do with the cookies that signing in gives it.
use simply_chat.Base.{
  String, false, ◌≡◌, ◌≢◌, ◌↔◌, refl, Option, none, some, pos, negsuc, List, [], ◌∷◌, Result, ok,
  err, Result-cases, Option-cases, Bool-cases, inl, inr, arith, ◌==◌, ==-false_of_ne, string_eq,
  if◌then◌else◌, true,
}
use simply_chat.Gateway.Auth.{AuthTokens, AuthServer}
use simply_chat.Gateway.Auth.Client
use simply_chat.Gateway.Tokens.{AccessToken, TokenError}
use simply_chat.Gateway.Cookies.{Cookie, lax, strict}
use simply_chat.Gateway.Requests.{Request, Refusal, status}
use simply_chat.Gateway.AuthHandler.{logout, handle_update_tokens, handle_check_auth}
use simply_chat.Gateway.AuthHandler.SignIn.{cookies_of}

-- The request brings every one of these cookies back.
abbrev pub Carries : Request → List Cookie → Type 0
Carries r [] = Unit
Carries r (c ∷ cookies) = (r.cookie c.name ≡ ok c.value) × Carries r cookies

access_cookie :
    (r : Request) (tokens : AuthTokens)
    → Carries r (cookies_of tokens)
    → tokens.access_token ≢ ""
    → r.cookie "access_token" ≡ ok tokens.access_token
access_cookie r tokens carried nonempty =
    let set : (tokens.access_token == "") ≡ false =
      ==-false_of_ne tokens.access_token "" nonempty in
    ground (arith, carried, set)

refresh_cookie :
    (r : Request) (tokens : AuthTokens)
    → Carries r (cookies_of tokens)
    → tokens.refresh_token ≢ ""
    → r.cookie "refresh_token" ≡ ok tokens.refresh_token
refresh_cookie r tokens carried nonempty =
    let set : (tokens.refresh_token == "") ≡ false =
      ==-false_of_ne tokens.refresh_token "" nonempty in
    elim (Bool-cases (tokens.access_token == "")) [
      | inl empty ↦ ground (arith, carried, set, empty)
      | inr full ↦ ground (arith, carried, set, full)
    ]

-- The answer of HandleUpdateTokens to what the auth service gives: the new access token in its cookie.
abbrev pub renewed : Option AuthTokens → Result Refusal (List Cookie)
renewed none = err (status 500)
renewed (some new) = ok (
    if new.access_token == ""
    then []
    else record {
      name = "access_token";
      value = new.access_token;
      path = "/";
      http_only = true;
      secure = false;
      same_site = lax;
      max_age = pos 900;
    }
      ∷ [])

-- A cookie that takes the one of this name away.
abbrev pub expired : String → Cookie
expired name = record {
  name = name;
  value = "";
  path = "/";
  http_only = true;
  secure = true;
  same_site = strict;
  max_age = negsuc 0;
}

-- The answer of Logout: both cookies are taken away, where the auth service has ended the session.
abbrev pub ended : Option (Unit {0}) → Result Refusal (List Cookie)
ended none = err (status 500)
ended (some _) = ok (expired "access_token" ∷ expired "refresh_token" ∷ [])

module _ (server : AuthServer) (validate : String → Result TokenError AccessToken) where
  -- A request that brings back the cookies of tokens that are not empty passes the check of
  -- HandleCheckAuth just where the access token validates; HandleUpdateTokens and Logout ask the
  -- auth service with the refresh token: where it fails they answer 500, and else the one sets the
  -- cookie of the new access token alone, where that is not empty, and the other takes both cookies
  -- away.
  pub session-cookies_of :
      (tokens : AuthTokens) (r : Request) (s : server.Accounts)
      → tokens.access_token ≢ ""
      → tokens.refresh_token ≢ ""
      → Carries r (cookies_of tokens)
      → (((handle_check_auth validate r tt).0 ≡ ok tt)
          ↔ ((t : AccessToken) × (validate tokens.access_token ≡ ok t)))
        × ((handle_update_tokens server r s).1 ≡ (server.update_tokens tokens.refresh_token s).1)
        × ((logout server r s).1 ≡ (server.logout tokens.refresh_token s).1)
        × ((handle_update_tokens server r s).0
            ≡ renewed (server.update_tokens tokens.refresh_token s).0)
        × ((logout server r s).0 ≡ ended (server.logout tokens.refresh_token s).0)
  unfolding handle_check_auth handle_update_tokens logout Client.logout Client.update_tokens
  session-cookies_of tokens r s has_access has_refresh carried =
      let access = access_cookie r tokens carried has_access in
      let refresh = refresh_cookie r tokens carried has_refresh in
      let no_access : (tokens.access_token == "") ≡ false =
        ==-false_of_ne tokens.access_token "" has_access in
      let no_refresh : (tokens.refresh_token == "") ≡ false =
        ==-false_of_ne tokens.refresh_token "" has_refresh in
      (
        rw (access, no_access)
            (elim (Result-cases (validate tokens.access_token)) [
              | inl (t, valid) ↦ (λ h. (t, valid), λ h. rw valid refl)
              | inr (e, invalid) ↦
                  (λ h. absurd (ground (arith, h, invalid)), λ (t, valid). absurd (ground arith))
            ]),
        rw refresh (elim (Option-cases (server.update_tokens tokens.refresh_token s).0) [
          | inl refused ↦ rw refused refl
          | inr (new, given) ↦ rw given refl
        ]),
        rw (refresh, no_refresh)
            (elim (Option-cases (server.logout tokens.refresh_token s).0) [
              | inl refused ↦ rw refused refl
              | inr (_, done) ↦ rw done refl
            ]),
        rw refresh (elim (Option-cases (server.update_tokens tokens.refresh_token s).0) [
          | inl refused ↦ rw refused refl
          | inr (new, given) ↦ rw given refl
        ]),
        rw (refresh, no_refresh)
            (elim (Option-cases (server.logout tokens.refresh_token s).0) [
              | inl refused ↦ rw refused refl
              | inr (_, done) ↦ rw done refl
            ]),
      )
