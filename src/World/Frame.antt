-- ===== src/World/Frame.antt =====
-- What an action leaves alone, whether it succeeds or fails.
use kal.Base.{ℕ, Bool, true, false, ◌≡◌, refl, ap, ◌∙◌, Text, inl, inr, arith}
use kal.Kalerr.{Result, ok, err, Failure}
use kal.Authz.Audit.{Event}
use kal.Authn.Mailer.{Message}
use kal.Store.{Db}
use kal.World.{
  World, Action, Stmt, pure, fail, next, advance, exec, new_token, new_salt, new_uuid, acquire,
  audit, send, ◌>>=◌,
}
use kal.World.Outcome.{advance-db, exec-outcome, draw-db, draw_salt-db, draw_uuid-db}

-- The part `view` of the database is the same afterwards.
abbrev pub Leaves {ℓ} : {A : Type 0} {X : Type ℓ} → (Db → X) → Action A → Type ℓ
Leaves view m = (w : World) → view (m w).1.db ≡ view w.db

-- The same of a statement.
abbrev pub Spares {ℓ} : {A : Type 0} {X : Type ℓ} → (Db → X) → Stmt A → Type ℓ
Spares {A} view s =
    (now : ℕ) (db : Db) (a : A) (db' : Db) → s now db ≡ ok (a, db') → view db' ≡ view db

module _ {ℓ} {X : Type ℓ} (view : Db → X) where
  pub bind-Leaves :
      {A B : Type 0} (m : Action A) (f : A → Action B)
      → Leaves view m
      → ((a : A) → Leaves view (f a))
      → Leaves view (m >>= f)
  bind-Leaves {A} {B} m f first then_each w = after (m w).0 (m w).1 ∙ first w
    where
      after : (r : Result A) (v : World) → view (next f (r, v)).1.db ≡ view v.db
      after (ok a) v = then_each a v
      after (err e) v = refl

  pub exec-Leaves : {A : Type 0} (s : Stmt A) → Spares view s → Leaves view (exec s)
  exec-Leaves {A} s spared w = elim (exec-outcome s w) [
    | inl (e, q) ↦ ap (λ r. view r.1.db) q ∙ ap view (advance-db w)
    | inr (a, db, st, q) ↦
        ap (λ r. view r.1.db) q
        ∙ spared (advance w).now (advance w).db a db st
        ∙ ap view (advance-db w)
  ]

  pub pure-Leaves : {A : Type 0} (a : A) → Leaves view (pure a)
  pure-Leaves a w = refl

  pub fail-Leaves : (A : Type 0) (e : Failure) → Leaves view (fail {A = A} e)
  fail-Leaves A e w = refl

  pub audit-Leaves : (hook : Bool) (e : Event) → Leaves view (audit hook e)
  unfolding audit
  audit-Leaves true e w = refl
  audit-Leaves false e w = refl

  pub new_token-Leaves : Leaves view new_token
  new_token-Leaves w = ap view (draw-db w)

  pub new_uuid-Leaves : Leaves view new_uuid
  new_uuid-Leaves w = ap view (draw_uuid-db w)

  pub new_salt-Leaves : Leaves view new_salt
  new_salt-Leaves w = ap view (draw_salt-db w)

  pub acquire-Leaves : Leaves view acquire
  unfolding acquire
  acquire-Leaves w = ground arith

  pub send-Leaves : (to : Text) (m : Message) (w : World) → view (send to m w).1.db ≡ view w.db
  unfolding send
  send-Leaves to m w = ground arith
