-- ===== src/Session/Jar.antt =====
-- session/jar.go: the cookies queued on a response.
use kal.Base.{◌∷◌, if◌then◌else◌}
use kal.Kalerr.{ok, err, plain}
use kal.Authz.Principal.{Context}
use kal.World.{Action}
use kal.Session.Cookie.{HttpCookie}

-- `SetCookie`: an error where the middleware, and with it the jar, is not mounted. The latest cookie
-- is the head.
unfoldable pub set_cookie : Context → HttpCookie → Action (Unit {0})
set_cookie ctx c w =
    if ctx.jar
    then (ok tt, record w { cookies = c ∷ w.cookies })
    else (err (plain "session: middleware not mounted"), w)
