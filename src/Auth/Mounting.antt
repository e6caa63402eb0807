-- ===== src/Auth/Mounting.antt =====
-- The order in which a request meets the middleware, and the guard under a configuration.
use Prim.Native.Nat.{max}
use mathlib.Core.List.{reverse, reverse-append}
use mathlib.Core.Path.{fun_ext}
use kal.Base.{
  ℕ, ◌≤◌, Option, none, List, [], ◌∷◌, ◌++◌, ◌≡◌, ◌↔◌, refl, ap, ◌∙◌, arith, Text, length, All,
}
use kal.Base.Int.{negsuc}
use kal.Authz.Principal.{Context, with_bypass_role}
use kal.World.{World, Action}
use kal.Session.Middleware.{Request, serve}
use kal.Guard.{Document, intercept_operation}
use kal.Guard.Counts.{occurrences}
use kal.Guard.Limits.{names, deepest, intercept_iff}
use kal.Auth.{wrap_backward, with_bypass, middleware, guard_limits, max_int, limit}
use kal.Auth.Setup.{Handler, Config, Auth}

module _ {Answer : Type 0} where
  -- Index 0 outermost.
  abbrev pub nest : List (Handler Answer → Handler Answer) → Handler Answer → Handler Answer
  nest [] next = next
  nest (v ∷ vs) next = v (nest vs next)

  wrap_backward-append :
      (vs : List (Handler Answer → Handler Answer)) (v : Handler Answer → Handler Answer)
      (next : Handler Answer)
      → wrap_backward (vs ++ v ∷ []) next ≡ v (wrap_backward vs next)
  unfolding wrap_backward
  wrap_backward-append [] v next = refl
  wrap_backward-append (u ∷ us) v next = wrap_backward-append us v (u next)

  wrap_backward-nest :
      (vs : List (Handler Answer → Handler Answer)) (next : Handler Answer)
      → wrap_backward (reverse vs) next ≡ nest vs next
  unfolding wrap_backward
  wrap_backward-nest [] next = refl
  wrap_backward-nest (v ∷ vs) next =
      ap (λ us. wrap_backward us next) (reverse-append (v ∷ []) vs)
      ∙ wrap_backward-append (reverse vs) v next
      ∙ ap v (wrap_backward-nest vs next)

  with_bypass-context :
      (role : Text) (inner : Handler Answer) (c : Context) (r : Request)
      → with_bypass role inner c r ≡ inner (with_bypass_role c role) r
  unfolding with_bypass with_bypass_role
  with_bypass-context role inner c r = ground arith

  -- A request meets the session middleware first, then the wrapper that names the bypass role, then
  -- the extra middleware from index 0 on, then the handler; so that every extra middleware is given a
  -- context that has the bypass role, if one is configured, as well as the caller.
  pub middleware-nest :
      (sha256 : Text → Text) (mime split : Text → Option Text) (a : Auth Answer)
      (next : Handler Answer) (ctx : Context) (r : Request) (w : World)
      → middleware sha256 mime split a next ctx r w
        ≡ serve sha256 a.sessions mime split a.mw_opts
            (λ c. nest a.cfg.extra_middleware next (with_bypass_role c a.cfg.bypass_role) r)
            ctx
            r
            w
  unfolding middleware
  middleware-nest sha256 mime split a next ctx r w =
      ap (λ (h : Context → Action Answer). serve sha256 a.sessions mime split a.mw_opts h ctx r w)
        (fun_ext (λ c.
          with_bypass-context a.cfg.bypass_role _ c r
          ∙ ap (λ (h : Handler Answer). h (with_bypass_role c a.cfg.bypass_role) r)
              (wrap_backward-nest a.cfg.extra_middleware next)))

-- With both limits disabled by a negative number, the guard lets a document through exactly when no
-- sensitive field stands twice in it, as long as the fields and the levels of the document can be
-- counted in an int.
pub guard_limits-disabled :
    {Answer : Type 0} (cfg : Config Answer) (doc : Document) (a d : ℕ)
    → cfg.max_aliases ≡ negsuc a
    → cfg.max_depth ≡ negsuc d
    → length (names doc) ≤ max_int
    → max (deepest doc.operations) (deepest doc.fragments) ≤ max_int
    → (intercept_operation (guard_limits cfg) doc ≡ none)
      ↔ All (λ n. occurrences n (names doc) ≤ 1) (guard_limits cfg).sensitive
unfolding guard_limits limit
guard_limits-disabled cfg doc a d e f few shallow = (
  λ h. ((intercept_iff (guard_limits cfg) doc).0 h).0,
  λ h. (intercept_iff (guard_limits cfg) doc).1 (h, rw e few, rw f shallow),
)
