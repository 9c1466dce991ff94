-- ===== src/Gateway/Cookies.antt =====
-- The cookies of apiGateway/internal/handler/authHandler.go.
use simply_chat.Base.{
  ℤ, pos, negsuc, String, Bool, true, false, List, [], ◌∷◌, ◌==◌, string_eq, if◌then◌else◌,
}

pub data SameSite : Type 0 where
  lax strict : SameSite

pub record Cookie : Type 0 where
  pub name : String
  pub value : String
  pub path : String
  pub http_only : Bool
  pub secure : Bool
  pub same_site : SameSite
  pub max_age : ℤ

abbrev pub set_access_token_cookie : String → List Cookie
set_access_token_cookie access_token =
    if access_token == ""
    then []
    else record {
      name = "access_token";
      value = access_token;
      path = "/";
      http_only = true;
      secure = false;
      same_site = lax;
      max_age = pos 900;
    }
      ∷ []

abbrev pub set_refresh_token_cookie : String → List Cookie
set_refresh_token_cookie refresh_token =
    if refresh_token == ""
    then []
    else record {
      name = "refresh_token";
      value = refresh_token;
      path = "/";
      http_only = true;
      secure = false;
      same_site = lax;
      max_age = pos 2592000;
    }
      ∷ []

abbrev pub delete_cookie : String → List Cookie
delete_cookie name =
    record {
      name = name;
      value = "";
      path = "/";
      http_only = true;
      secure = true;
      same_site = strict;
      max_age = negsuc 0;
    }
    ∷ []
