-- ===== src/Session/Middleware/Attribution.antt =====
-- Which requests the middleware refuses, and whom it attributes the others to.
use kal.Base.{Option, none, some, [], ◌∷◌, ◌≡◌, ◌⊎◌, refl, inl, inr, Text, find}
use kal.Kalerr.{Result, ok, err}
use kal.Authz.Principal.{Principal, Context, with_principal}
use kal.Store.{Session}
use kal.World.{World, audit, advance}
use kal.Session.Statements.{live_with_hash}
use kal.Session.Sessions.{Sessions}
use kal.Session.Lookup.{lookup-row, Owned}
use kal.Session.Middleware.{lookup_cookie, settle, resolve_cookie}

module _ (sha256 : Text → Text) (s : Sessions) where
  -- Whom the request acts for: the caller it came with, or the owner of the live row behind its cookie.
  abbrev pub Attributed : World → Context → Option Text → Context → Type 0
  Attributed w ctx cookie ctx' =
      (ctx' ≡ ctx)
      ⊎ ((token : Text) × (p : Principal) × (row : Session) × (cookie ≡ some token)
          × (ctx' ≡ with_principal ctx (some p))
          × (find (live_with_hash (advance w).now (sha256 token)) w.db.sessions ≡ some row)
          × Owned row p)

  lookup_cookie-row :
      (token : Text) (w : World) {p : Principal} {w' : World}
      → lookup_cookie sha256 s token w ≡ (ok (some p), w')
      → (row : Session) × (find (live_with_hash (advance w).now (sha256 token)) w.db.sessions
          ≡ some row)
        × Owned row p
  unfolding lookup_cookie
  lookup_cookie-row [] w h = absurd (cc h)
  lookup_cookie-row (c ∷ cs) w h = lookup-row sha256 s (c ∷ cs) w h

  settled :
      (name ip token : Text) (ctx : Context) (w : World) (r : Result (Option Principal))
      (w₁ : World)
      → lookup_cookie sha256 s token w ≡ (r, w₁)
      → (ctx' : Context) × (w' : World) × (settle sha256 s name ip ctx r w₁ ≡ (ok ctx', w'))
        × Attributed w ctx (some token) ctx'
  unfolding audit with_principal
  settled name ip token ctx w (err e) w₁ h = (ctx, _, refl, inl refl)
  settled name ip token ctx w (ok none) w₁ h = (ctx, _, refl, inl refl)
  settled name ip token ctx w (ok (some p)) w₁ h =
      let (row, f, mine) = lookup_cookie-row token w h in
      (_, w₁, refl, inr (token, p, row, refl, refl, f, mine))

  -- Whatever the cookie and whatever the database answers, the request goes on; it is attributed to
  -- the caller it came with, or to the owner of the unexpired session row under the cookie's hash.
  pub resolve_cookie-Attributed :
      (name ip : Text) (ctx : Context) (cookie : Option Text) (w : World)
      → (ctx' : Context) × (w' : World) × (resolve_cookie sha256 s name ip ctx cookie w
          ≡ (ok ctx', w'))
        × Attributed w ctx cookie ctx'
  unfolding resolve_cookie
  resolve_cookie-Attributed name ip ctx none w = (ctx, w, refl, inl refl)
  resolve_cookie-Attributed name ip ctx (some token) w =
      settled name ip token ctx w (lookup_cookie sha256 s token w).0
        (lookup_cookie sha256 s token w).1 refl
