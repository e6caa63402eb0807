-- ===== src/Session/Middleware.antt =====
-- session/middleware.go: the transport guard, the request's attribution and the cookie that becomes a
-- principal. `mime.ParseMediaType` and `net.SplitHostPort` are parameters.

pub mod Attribution
pub mod Crossing
mod Tests
use kal.Base.{
  ℕ, Bool, true, false, not, ◌&&◌, ◌||◌, Option, none, some, List, [], ◌∷◌, Text, codes, text_eq,
  is_empty, if◌then◌else◌,
}
use kal.Kalerr.{Result, ok, err, Failure}
use kal.Authz.Principal.{Principal, Context, Meta, with_principal}
use kal.Authz.Audit.{Event, session_lookup_fail, error}
use kal.World.{World, Action, pure, audit, ◌>>=◌, ◌>>◌}
use kal.Session.Cookie.{HttpCookie, clear_cookie, cookie_name}
use kal.Session.Sessions.{Sessions, lookup}

-- What is read of an `http.Request`; a header that is missing is empty. `cookies` answers `Cookie`.
pub record Request : Type 0 where
  pub method : Text
  pub kal_operation : Text
  pub requested_with : Text
  pub content_type : Text
  pub user_agent : Text
  pub remote_addr : Text
  pub cookies : Text → Option Text

pub record MiddlewareOptions : Type 0 where
  pub cookie_name : Text
  pub client_ip : Option (Request → Text)

-- The media types of a request that a browser sends to another site without asking first.
abbrev pub is_simple : Text → Bool
is_simple t =
    text_eq t (codes "text/plain")
    || (text_eq t (codes "application/x-www-form-urlencoded")
        || text_eq t (codes "multipart/form-data"))

abbrev pub proves_preflight : Option Text → Bool
proves_preflight none = false
proves_preflight (some t) = not (is_simple t)

-- `passesTransportGuard`; an error of the parser is none.
unfoldable pub passes_transport_guard : (Text → Option Text) → Request → Bool
unfolding text_eq
passes_transport_guard parse r =
    if not (is_empty r.kal_operation) || not (is_empty r.requested_with)
    then true
    else if is_empty r.content_type
    then false
    else proves_preflight (parse r.content_type)

-- `remoteHost`.
unfoldable pub remote_host : (Text → Option Text) → Request → Text
remote_host split r = elim (split r.remote_addr) [ none ↦ r.remote_addr | some host ↦ host ]

abbrev pub client_of : (Text → Option Text) → MiddlewareOptions → Request → Text
client_of split opts r = elim opts.client_ip [ none ↦ remote_host split r | some f ↦ f r ]

abbrev pub add_cookie : HttpCookie → Action (Unit {0})
add_cookie c w = (ok tt, record w { cookies = c ∷ w.cookies })

abbrev pub keep : {A : Type 0} → Action A → Action (Result A)
keep m w = let (r, w') = m w in (ok r, w')

module _ (sha256 : Text → Text) (s : Sessions) where
  -- `lookupCookie`.
  unfoldable pub lookup_cookie : Text → Action (Option Principal)
  unfolding lookup
  lookup_cookie value = if is_empty value then pure none else lookup sha256 s value

  abbrev lookup_failed : Text → Failure → Event
  lookup_failed ip e = record {
    kind = session_lookup_fail;
    user_id = [];
    email = [];
    ip = ip;
    at_time = 0;
    detail = error e;
  }

  -- What becomes of the answer of a lookup.
  abbrev pub settle : Text → Text → Context → Result (Option Principal) → Action Context
  settle name ip ctx (err e) = audit s.audit (lookup_failed ip e) >> pure ctx
  settle name ip ctx (ok (some p)) = pure (with_principal ctx (some p))
  settle name ip ctx (ok none) = add_cookie (clear_cookie name) >> pure ctx

  -- The context of the request after its cookie, if it has one.
  unfoldable pub resolve_cookie : Text → Text → Context → Option Text → Action Context
  unfolding lookup_cookie with_principal clear_cookie
  resolve_cookie name ip ctx none = pure ctx
  resolve_cookie name ip ctx (some value) = keep (lookup_cookie value) >>= settle name ip ctx

  abbrev pub attributed : Context → Request → Text → Context
  attributed ctx r ip = record ctx {
    jar = true;
    meta = record { user_agent = r.user_agent; ip = ip };
  }

  -- `Middleware`: none is the guard's 403, for which neither the table nor the handler is touched.
  unfoldable pub serve :
      {A : Type 0}
      → (Text → Option Text)
      → (Text → Option Text)
      → MiddlewareOptions
      → (Context → Action A)
      → Context
      → Request
      → Action (Option A)
  unfolding passes_transport_guard resolve_cookie remote_host cookie_name
  serve parse split opts next ctx r =
      if not (text_eq r.method (codes "OPTIONS")) && not (passes_transport_guard parse r)
      then pure none
      else (do
        ctx' ←
            resolve_cookie (cookie_name opts.cookie_name) (client_of split opts r)
              (attributed ctx r (client_of split opts r)) (r.cookies (cookie_name opts.cookie_name))
        a ← next ctx'
        pure (some a))
