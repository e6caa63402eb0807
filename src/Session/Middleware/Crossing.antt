-- ===== src/Session/Middleware/Crossing.antt =====
-- The requests that the middleware refuses: those that a browser sends to another site unasked.
use kal.Base.{
  Bool, true, false, not, ◌&&◌, ◌||◌, Option, none, some, [], ◌∷◌, ◌≡◌, ◌≢◌, ◌↔◌, ◌⊎◌, refl, inl,
  inr, arith, Text, codes, text_eq, text_eq_iff, is_empty, Option-cases, Bool-cases, and_parts,
  if◌then◌else◌,
}
use kal.Kalerr.{ok}
use kal.Authz.Principal.{Context}
use kal.World.{World, Action, pure, ◌>>=◌}
use kal.World.Outcome.{>>=-eq-ok}
use kal.Session.Cookie.{cookie_name}
use kal.Session.Sessions.{Sessions}
use kal.Session.Middleware.{
  Request, MiddlewareOptions, is_simple, passes_transport_guard, proves_preflight, serve,
  resolve_cookie, client_of, attributed,
}

-- The content type shows no preflight: it is missing, unreadable or one of the simple set.
abbrev pub Plain : (Text → Option Text) → Text → Type 0
Plain parse t =
    (t ≡ []) ⊎ (parse t ≡ none) ⊎ ((m : Text) × (parse t ≡ some m) × (is_simple m ≡ true))

abbrev pub Crossing : (Text → Option Text) → Request → Type 0
Crossing parse r = (r.kal_operation ≡ []) × (r.requested_with ≡ []) × Plain parse r.content_type

is_empty_sound : (t : Text) → is_empty t ≡ true → t ≡ []
is_empty_sound [] h = refl
is_empty_sound (c ∷ t) h = cc

is_empty-head : (t : Text) → not (is_empty t) ≡ false → t ≡ []
is_empty-head [] h = refl
is_empty-head (c ∷ t) h = cc

or_false : (a b : Bool) → (a || b) ≡ false → (a ≡ false) × (b ≡ false)
or_false a b h = ground arith

not-true : (b : Bool) → not b ≡ true → b ≡ false
not-true b h = ground arith

not-simple : (m : Text) → not (is_simple m) ≡ false → is_simple m ≡ true
not-simple m h = elim (Bool-cases (is_simple m)) [ inl e ↦ e | inr e ↦ absurd (ground arith) ]

content_Plain :
    (parse : Text → Option Text) (t : Text)
    → (if is_empty t then false else proves_preflight (parse t)) ≡ false
    → Plain parse t
content_Plain parse [] h = inl refl
content_Plain parse (c ∷ t) h = elim (Option-cases (parse (c ∷ t))) [
  | inl e ↦ inr (inl e)
  | inr (m, e) ↦ inr (inr (m, e, not-simple m (rw e at h)))
]

Plain-fails :
    (parse : Text → Option Text) (t : Text)
    → Plain parse t
    → (if is_empty t then false else proves_preflight (parse t)) ≡ false
Plain-fails parse [] h = refl
Plain-fails parse (c ∷ t) (inl e) = absurd (cc e)
Plain-fails parse (c ∷ t) (inr (inl e)) = rw e refl
Plain-fails parse (c ∷ t) (inr (inr (m, e, q))) = rw e (rw q refl)

passes_transport_guard_iff :
    (parse : Text → Option Text) (r : Request)
    → (passes_transport_guard parse r ≡ false) ↔ Crossing parse r
unfolding passes_transport_guard
passes_transport_guard_iff parse r = (refused, refuses)
  where
    content : Bool
    content = if is_empty r.content_type then false else proves_preflight (parse r.content_type)

    headers : Bool
    headers = not (is_empty r.kal_operation) || not (is_empty r.requested_with)

    refused : (if headers then true else content) ≡ false → Crossing parse r
    refused h = elim (Bool-cases headers) [
      | inl e ↦ absurd (ground arith)
      | inr e ↦
          let (a, b) = or_false _ _ e in
          (
            is_empty-head r.kal_operation a,
            is_empty-head r.requested_with b,
            content_Plain parse r.content_type (rw e at h),
          )
    ]

    refuses : Crossing parse r → (if headers then true else content) ≡ false
    refuses (a, b, c) = rw a (rw b (Plain-fails parse r.content_type c))

module _ (parse split : Text → Option Text) (sha256 : Text → Text) (s : Sessions)
    (opts : MiddlewareOptions) where
  -- What the guard reads of a request.
  abbrev pub Refused : Request → Type 0
  Refused r = (r.method ≢ codes "OPTIONS") × Crossing parse r

  -- The handler is called on the context after the cookie, so that no answer is none.
  then_some :
      {A : Type 0} (m : Action Context) (next_handler : Context → Action A) (w w' : World)
      → (m >>= λ c. next_handler c >>= λ a. pure (some a)) w ≢ (ok none, w')
  then_some m next_handler w w' h =
      let (c, w₁, e, k) = >>=-eq-ok m _ w h in
      let (a, w₂, e', k') = >>=-eq-ok (next_handler c) _ w₁ k in cc k'

  only_when :
      {A : Type 0} (b : Bool) (m : Action Context) (next_handler : Context → Action A)
      (w w' : World)
      → (if b then pure none else (m >>= λ c. next_handler c >>= λ a. pure (some a))) w
        ≡ (ok none, w')
      → b ≡ true
  only_when true m next_handler w w' h = refl
  only_when false m next_handler w w' h = absurd (then_some m next_handler w w' h)

  blocked-Refused :
      (r : Request)
      → (not (text_eq r.method (codes "OPTIONS")) && not (passes_transport_guard parse r)) ≡ true
      → Refused r
  blocked-Refused r h =
      let (a, b) = and_parts (not (text_eq r.method (codes "OPTIONS"))) _ h in
      (
        λ e. absurd (cc (a, (text_eq_iff r.method (codes "OPTIONS")).1 e)),
        (passes_transport_guard_iff parse r).0 (not-true _ b),
      )

  Refused-blocked :
      (r : Request)
      → Refused r
      → (not (text_eq r.method (codes "OPTIONS")) && not (passes_transport_guard parse r)) ≡ true
  Refused-blocked r (a, b) = elim (Bool-cases (text_eq r.method (codes "OPTIONS"))) [
    | inl e ↦ absurd (a ((text_eq_iff r.method (codes "OPTIONS")).0 e))
    | inr e ↦ rw (e, (passes_transport_guard_iff parse r).1 b) refl
  ]

  -- A request is refused, with neither the table nor the handler touched, exactly when it is not
  -- OPTIONS, carries neither custom header, and its content type is missing, unreadable or one of the
  -- three that need no preflight.
  pub serve-eq-none :
      {A : Type 0} (handler : Context → Action A) (ctx : Context) (r : Request) (w : World)
      → (serve sha256 s parse split opts handler ctx r w ≡ (ok none, w)) ↔ Refused r
  unfolding serve
  serve-eq-none handler ctx r w = (
    λ h. blocked-Refused r (
        only_when _
          (resolve_cookie sha256 s (cookie_name opts.cookie_name) (client_of split opts r)
            (attributed sha256 s ctx r (client_of split opts r))
            (r.cookies (cookie_name opts.cookie_name)))
          handler w w h),
    λ h. rw (Refused-blocked r h) refl,
  )
