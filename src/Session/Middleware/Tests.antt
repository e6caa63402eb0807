-- ===== src/Session/Middleware/Tests.antt =====
-- Tests of the middleware on a request for each branch.
use kal.Base.{true, false, Option, none, some, [], ◌≡◌, refl, Text, codes, text_eq}
use kal.Kalerr.{ok}
use kal.Authz.Principal.{Context, background}
use kal.World.{World, pure}
use kal.Session.Tests.{at_twenty, config, same}
use kal.Session.Middleware.{
  Request, MiddlewareOptions, passes_transport_guard, remote_host, serve, resolve_cookie,
}
use kal.Session.Middleware.Crossing.{serve-eq-none, Refused}
use kal.Session.Middleware.Attribution.{resolve_cookie-Attributed, Attributed}

abbrev request : Text → Text → Request
request method content_type = record {
  method = method;
  kal_operation = [];
  requested_with = [];
  content_type = content_type;
  user_agent = codes "agent";
  remote_addr = codes "10.0.0.1";
  cookies = λ name. some (codes "t1");
}

abbrev whole : Text → Option Text
whole t = some t

abbrev defaults : MiddlewareOptions
defaults = record { cookie_name = []; client_ip = none }

passes_transport_guard-json :
    passes_transport_guard whole (request (codes "POST") (codes "application/json")) ≡ true
unfolding passes_transport_guard text_eq
passes_transport_guard-json = refl

passes_transport_guard-form :
    passes_transport_guard whole (request (codes "POST") (codes "text/plain")) ≡ false
unfolding passes_transport_guard text_eq
passes_transport_guard-form = refl

remote_host-unsplit : remote_host (λ a. none) (request [] []) ≡ codes "10.0.0.1"
unfolding remote_host
remote_host-unsplit = refl

serve_refuses :
    serve same config whole whole defaults
      (λ c. pure c)
      background
      (request (codes "POST") (codes "text/plain"))
      at_twenty
    ≡ (ok none, at_twenty)
unfolding serve passes_transport_guard text_eq
serve_refuses = refl

serve-eq-none_example :
    Refused whole whole same config defaults (request (codes "POST") (codes "text/plain"))
serve-eq-none_example =
    (serve-eq-none whole whole same config defaults (λ c. pure c) background
        (request (codes "POST") (codes "text/plain")) at_twenty).0
      serve_refuses

resolve_cookie-Attributed_example :
    (ctx' : Context) × (w' : World) × (resolve_cookie same config
        (codes "session")
        []
        background
        (some (codes "t1"))
        at_twenty
      ≡ (ok ctx', w'))
    × Attributed same config at_twenty background (some (codes "t1")) ctx'
resolve_cookie-Attributed_example =
    resolve_cookie-Attributed same config (codes "session") [] background (some (codes "t1"))
      at_twenty
