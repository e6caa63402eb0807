-- ===== src/Session/Cookie.antt =====
-- session/cookie.go: the session cookie and its deletion twin.
use kal.Base.{Bool, true, Text, codes, [], if◌then◌else◌, is_empty}
use kal.Base.Int.{ℤ, pos, negsuc}

pub data SameSite : Type 0 where
  lax strict : SameSite

pub record HttpCookie : Type 0 where
  pub name : Text
  pub value : Text
  pub path : Text
  pub secure : Bool
  pub http_only : Bool
  pub same_site : SameSite
  -- 0 leaves the attribute out.
  pub max_age : ℤ

abbrev pub default_cookie_name : Text
default_cookie_name = codes "__Host-kal_session"

unfoldable pub cookie : Text → Text → HttpCookie
cookie name token = record {
  name = name;
  value = token;
  path = codes "/";
  secure = true;
  http_only = true;
  same_site = lax;
  max_age = pos 0;
}

unfoldable pub clear_cookie : Text → HttpCookie
unfolding cookie
clear_cookie name = record (cookie name []) { max_age = negsuc 0 }

-- The configured name, or the default.
unfoldable pub cookie_name : Text → Text
cookie_name name = if is_empty name then default_cookie_name else name
