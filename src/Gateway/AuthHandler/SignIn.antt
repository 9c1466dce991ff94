-- ===== src/Gateway/AuthHandler/SignIn.antt =====
-- How signing in and registering end.
use simply_chat.Base.{
  String, ◌≡◌, ◌≢◌, refl, ◌⊎◌, inl, inr, Option, none, some, List, ◌++◌, Result, ok, err,
  Option-cases, Bool-cases, ◌==◌, ==_iff, ne-of_==-false, string_eq, sym,
}
use simply_chat.Gateway.Auth.{AuthTokens, User, AuthServer}
use simply_chat.Gateway.Auth.Client
use mathlib.Core.Path.{subst}
use simply_chat.Gateway.Cookies.{Cookie, set_access_token_cookie, set_refresh_token_cookie}
use simply_chat.Gateway.Requests.{Request, Refusal, status, panicked}
use simply_chat.Gateway.AuthHandler.{login, register}

abbrev pub cookies_of : AuthTokens → List Cookie
cookies_of tokens =
    set_access_token_cookie tokens.access_token ++ set_refresh_token_cookie tokens.refresh_token

module _ (server : AuthServer) where
  abbrev pub Ask : Type 0
  Ask = server.Accounts → Option AuthTokens × server.Accounts

  -- The question to the auth service, where the user has the fields for it.
  abbrev pub login_call : Option String → Option String → Option Ask
  login_call (some name) (some password) = some (server.login name password)
  login_call (some name) none = none
  login_call none password = none

  abbrev pub register_call : Option String → Option String → Option String → Option Ask
  register_call (some name) (some password) (some email) =
      some (server.register name password email)
  register_call (some name) (some password) none = none
  register_call (some name) none email = none
  register_call none password email = none

  -- How a request to sign in ends: with an answer, and a state of the auth service.
  pub data SignIn (call : User → Option Ask) (r : Request) (s : server.Accounts)
      : Result Refusal (List Cookie) → server.Accounts → Type 0 where
    -- no JSON, or not the fields that are needed
    bad_request :
        (r.content_type ≢ "application/json")
          ⊎ (r.body ≡ none)
          ⊎ ((user : User) × (r.body ≡ some (some user)) × (call user ≡ none))
        → SignIn call r s (err (status 400)) s
    -- the JSON `null`
    null_body :
        r.content_type ≡ "application/json" → r.body ≡ some none → SignIn call r s (err panicked) s
    failed :
        (user : User) (ask : Ask)
        → r.content_type ≡ "application/json"
        → r.body ≡ some (some user)
        → call user ≡ some ask
        → (ask s).0 ≡ none
        → SignIn call r s (err (status 500)) (ask s).1
    signed_in :
        (user : User) (ask : Ask) (tokens : AuthTokens)
        → r.content_type ≡ "application/json"
        → r.body ≡ some (some user)
        → call user ≡ some ask
        → (ask s).0 ≡ some tokens
        → SignIn call r s (ok (cookies_of tokens)) (ask s).1

  abbrev pub Ends :
      (User → Option Ask)
      → Request
      → server.Accounts
      → Result Refusal (List Cookie) × server.Accounts
      → Type 0
  Ends call r s (answer, t) = SignIn call r s answer t

  login-SignIn :
      (r : Request) (s : server.Accounts)
      → Ends (λ u. login_call u.login u.password) r s (login server r s)
  unfolding login Client.login
  login-SignIn r s = elim (Bool-cases (r.content_type == "application/json")) [
    | inr other ↦
        subst (Ends _ r s) (sym (rw other refl)) (bad_request (inl (ne-of_==-false _ _ other)))
    | inl json ↦ elim (Option-cases r.body) [
      | inl undecoded ↦
          subst (Ends _ r s) (sym (rw (json, undecoded) refl)) (bad_request (inr (inl undecoded)))
      | inr (none, null) ↦
          subst (Ends _ r s) (sym (rw (json, null) refl))
            (null_body ((==_iff r.content_type "application/json").0 json) null)
      | inr (some user, body) ↦ elim (Option-cases user.login) [
        | inl no_login ↦
            subst (Ends _ r s) (sym (rw (json, body, no_login) refl))
              (bad_request (inr (inr (user, body, rw (no_login) refl))))
        | inr (name, has_login) ↦ elim (Option-cases user.password) [
          | inl no_password ↦
              subst (Ends _ r s) (sym (rw (json, body, has_login, no_password) refl))
                (bad_request (inr (inr (user, body, rw (has_login, no_password) refl))))
          | inr (password, has_password) ↦ elim (Option-cases (server.login name password s).0) [
            | inl refused ↦
                subst (Ends _ r s) (sym (rw (json, body, has_login, has_password, refused) refl)) (
                  failed user (server.login name password)
                    ((==_iff r.content_type "application/json").0 json) body
                    (rw (has_login, has_password) refl) refused)
            | inr (tokens, given) ↦
                subst (Ends _ r s) (sym (rw (json, body, has_login, has_password, given) refl)) (
                  signed_in user (server.login name password) tokens
                    ((==_iff r.content_type "application/json").0 json) body
                    (rw (has_login, has_password) refl) given)
          ]
        ]
      ]
    ]
  ]

  register-SignIn :
      (r : Request) (s : server.Accounts)
      → Ends (λ u. register_call u.login u.password u.email) r s (register server r s)
  unfolding register Client.register
  register-SignIn r s = elim (Bool-cases (r.content_type == "application/json")) [
    | inr other ↦
        subst (Ends _ r s) (sym (rw other refl)) (bad_request (inl (ne-of_==-false _ _ other)))
    | inl json ↦ elim (Option-cases r.body) [
      | inl undecoded ↦
          subst (Ends _ r s) (sym (rw (json, undecoded) refl)) (bad_request (inr (inl undecoded)))
      | inr (none, null) ↦
          subst (Ends _ r s) (sym (rw (json, null) refl))
            (null_body ((==_iff r.content_type "application/json").0 json) null)
      | inr (some user, body) ↦ elim (Option-cases user.login) [
        | inl no_login ↦
            subst (Ends _ r s) (sym (rw (json, body, no_login) refl))
              (bad_request (inr (inr (user, body, rw (no_login) refl))))
        | inr (name, has_login) ↦ elim (Option-cases user.password) [
          | inl no_password ↦
              subst (Ends _ r s) (sym (rw (json, body, has_login, no_password) refl))
                (bad_request (inr (inr (user, body, rw (has_login, no_password) refl))))
          | inr (password, has_password) ↦ elim (Option-cases user.email) [
            | inl no_email ↦
                subst (Ends _ r s) (sym (rw (json, body, has_login, has_password, no_email) refl)) (
                  bad_request (inr (inr (user, body, rw (has_login, has_password, no_email) refl))))
            | inr (email, has_email) ↦
                elim (Option-cases (server.register name password email s).0) [
                  | inl refused ↦
                      subst (Ends _ r s)
                        (sym (rw (json, body, has_login, has_password, has_email, refused) refl))
                        (failed user (server.register name password email)
                          ((==_iff r.content_type "application/json").0 json) body
                          (rw (has_login, has_password, has_email) refl) refused)
                  | inr (tokens, given) ↦
                      subst (Ends _ r s)
                        (sym (rw (json, body, has_login, has_password, has_email, given) refl))
                        (signed_in user (server.register name password email) tokens
                          ((==_iff r.content_type "application/json").0 json) body
                          (rw (has_login, has_password, has_email) refl) given)
                ]
          ]
        ]
      ]
    ]
  ]

  -- Login and Register refuse what is no JSON and what lacks a field without asking the auth service, and
  -- otherwise ask it with the fields of the body alone: its tokens become the two cookies, its
  -- failure the status 500. Of all bodies only `null` makes them panic.
  pub sign_in-SignIn :
      (r : Request) (s : server.Accounts)
      → Ends (λ u. login_call u.login u.password) r s (login server r s)
        × Ends (λ u. register_call u.login u.password u.email) r s (register server r s)
  sign_in-SignIn r s = (login-SignIn r s, register-SignIn r s)
