-- ===== src/World.antt =====
-- What a request runs against: the database with its clock and its driver, the random source, the
-- mailer, the audit hook and the response's cookie jar. A method of kal is an `Action`.
pub mod Outcome
pub mod Frame
pub mod Transaction
use kal.Base.{
  ℕ, ◌+◌, ◌≤◌, Bool, true, false, Option, none, some, List, [], ◌∷◌, ◌++◌, ◌≡◌, refl, Text,
  if◌then◌else◌, arith, Bool-cases, ◌⊎◌, inl, inr, ap,
}
use kal.Kalerr.{coded_by, rate_limited, plain, Failure, driver, entropy, Result, ok, err}
use kal.Authz.Audit.{Event, emit}
use kal.Authn.Mailer.{Message}
use kal.Session.Cookie.{HttpCookie}
use kal.Store.{Db}

-- What happens at one statement: the time that passes before it, and whether the driver fails.
pub record Tick : Type 0 where
  pub elapsed : ℕ
  pub fails : Bool

-- An exhausted `schedule` is a driver that answers at once. An exhausted `random` or `salts` is a CSPRNG that
-- fails, an exhausted `uuids` a failing insert, an exhausted `mailer` a mailer that accepts.
pub record World : Type 0 where
  pub db : Db
  pub now : ℕ
  pub schedule : List Tick
  -- The strings that the next calls of `NewToken` encode.
  pub random : List Text
  -- The coming salts.
  pub salts : List Text
  -- Whether the coming waits for a hashing slot time out; none does once the list is exhausted.
  pub slots : List Bool
  -- The values of the coming `gen_random_uuid()`.
  pub uuids : List Text
  -- The process clock.
  pub clock : ℕ
  pub mailer : List Bool
  pub sent : List (Text × Message)
  pub events : List Event
  pub cookies : List HttpCookie

abbrev pub Action : Type 0 → Type 0
Action A = World → Result A × World

abbrev pub pure : {A : Type 0} → A → Action A
pure a w = (ok a, w)

abbrev pub fail : {A : Type 0} → Failure → Action A
fail e w = (err e, w)

abbrev pub next : {A B : Type 0} → (A → Action B) → Result A × World → Result B × World
next f (ok a, w) = f a w
next f (err e, w) = (err e, w)

infixl 5 ◌>>=◌ ◌>>◌
abbrev pub ◌>>=◌ : {A B : Type 0} → Action A → (A → Action B) → Action B
◌>>=◌ m f w = next f (m w)

abbrev pub ◌>>◌ : {A B : Type 0} → Action A → Action B → Action B
m >> k = m >>= λ _. k

abbrev pub lift : {A : Type 0} → Result A → Action A
lift r w = (r, w)

abbrev pub fail_if : Bool → Failure → Action (Unit {0})
fail_if b e w = (if b then err e else ok tt, w)

-- A statement that fails leaves the tables alone.
abbrev pub Stmt : Type 0 → Type 0
Stmt A = ℕ → Db → Result (A × Db)

abbrev pub advance : World → World
advance w = elim w.schedule [
  | [] ↦ w
  | t ∷ rest ↦ record w { now = w.now + t.elapsed; schedule = rest }
]

abbrev pub driver_fails : World → Bool
driver_fails w = elim w.schedule [ [] ↦ false | t ∷ rest ↦ t.fails ]

unfoldable commit : {A : Type 0} → World → Result (A × Db) → Result A × World
commit w (ok (a, db)) = (ok a, record w { db = db })
commit w (err e) = (err e, w)

unfoldable pub exec : {A : Type 0} → Stmt A → Action A
unfolding commit
exec s w =
    let w' = advance w in if driver_fails w then (err driver, w') else commit w' (s w'.now w'.db)

-- `session.NewToken`: the string form; its hash is the caller's to compute.
unfoldable draw : World → List Text → Result Text × World
draw w [] = (err entropy, w)
draw w (t ∷ rest) = (ok t, record w { random = rest })

unfoldable pub new_token : Action Text
unfolding draw
new_token w = draw w w.random

unfoldable draw_salt : World → List Text → Result Text × World
draw_salt w [] = (err entropy, w)
draw_salt w (t ∷ rest) = (ok t, record w { salts = rest })

unfoldable pub new_salt : Action Text
unfolding draw_salt
new_salt w = draw_salt w w.salts

abbrev slot_timeout : World → List Bool → Bool × World
slot_timeout w [] = (false, w)
slot_timeout w (t ∷ rest) = (t, record w { slots = rest })

-- `Hasher.acquire`: the slot is given back when the caller returns, so only the wait shows.
unfoldable pub acquire : Action (Unit {0})
acquire w =
    let (late, w') = slot_timeout w w.slots in
    (
      if late
          then err
              (coded_by rate_limited "please try again shortly" (plain "context deadline exceeded"))
          else ok tt,
      w',
    )

unfoldable draw_uuid : World → List Text → Result Text × World
draw_uuid w [] = (err driver, w)
draw_uuid w (u ∷ rest) = (ok u, record w { uuids = rest })

unfoldable pub new_uuid : Action Text
unfolding draw_uuid
new_uuid w = draw_uuid w w.uuids

-- `Audit.Emit`: `hook` tells whether a hook is configured.
unfoldable pub audit : Bool → Event → Action (Unit {0})
audit hook e w = (ok tt, if hook then record w { events = emit w.clock e ∷ w.events } else w)

-- Whether the mailer accepts the message.
unfoldable pub send : Text → Message → World → Bool × World
send to m w = elim w.mailer [
  | [] ↦ (true, record w { sent = (to, m) ∷ w.sent })
  | accepts ∷ rest ↦
      if accepts
      then (true, record w { sent = (to, m) ∷ w.sent; mailer = rest })
      else (false, record w { mailer = rest })
]
