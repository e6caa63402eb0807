-- ===== src/Authn/Frame.antt =====
-- What the shared steps of the credential flows leave alone, and what a hashing gives.
use kal.Base.{Bool, true, false, [], ◌≡◌, refl, ◌∙◌, Text, if◌then◌else◌}
use kal.Kalerr.{Result, ok, plain}
use kal.Authz.Audit.{mail_fail, undelivered}
use kal.Store.{Db}
use kal.World.{World, Action, pure, lift, acquire, new_salt, audit, send, ◌>>=◌}
use kal.World.Outcome.{>>=-eq-ok}
use kal.World.Frame.{
  Leaves, bind-Leaves, pure-Leaves, audit-Leaves, new_salt-Leaves, acquire-Leaves, send-Leaves,
}
use kal.Authn.Mailer.{Message, kind_name}
use kal.Authn.Password.{Kdf, Hasher, hash, derive}
use kal.Authn.Accounts.{notify, about, attempt}
use kal.Authn.Accounts.Config.{Accounts}

module _ {ℓ} {X : Type ℓ} (view : Db → X) where
  pub notify-Leaves : (a : Accounts) (to : Text) (m : Message) → Leaves view (notify a to m)
  unfolding notify
  notify-Leaves a to m w = by_answer (send to m w).0 ∙ send-Leaves view to m w
    where
      by_answer :
          (accepted : Bool)
          → view
              (if accepted
                then (ok tt, (send to m w).1)
                else audit a.audit
                    (about mail_fail [] to [] (undelivered (kind_name m.kind) (plain "mailer")))
                    (send to m w).1).1.db
            ≡ view (send to m w).1.db
      by_answer true = refl
      by_answer false =
          audit-Leaves view a.audit
            (about mail_fail [] to [] (undelivered (kind_name m.kind) (plain "mailer")))
            (send to m w).1

  pub attempt-Leaves : {A : Type 0} (m : Action A) → Leaves view m → Leaves view (attempt m)
  attempt-Leaves m h w = h w

  pub lift-Leaves : {A : Type 0} (r : Result A) → Leaves view (lift r)
  lift-Leaves r w = refl

  pub hash-Leaves : (k : Kdf) (h : Hasher) (password : Text) → Leaves view (hash k h password)
  unfolding hash
  hash-Leaves k h password = bind-Leaves view acquire _ (acquire-Leaves view) (λ _.
      bind-Leaves view new_salt _ (new_salt-Leaves view)
        (λ salt. pure-Leaves view (derive k h.params password salt)))

-- A hash that was made is the derivation under some salt.
pub hash-eq-ok :
    (k : Kdf) (h : Hasher) (password : Text) (w : World) {encoded : Text} {w' : World}
    → hash k h password w ≡ (ok encoded, w')
    → (salt : Text) × (encoded ≡ derive k h.params password salt)
unfolding hash
hash-eq-ok k h password w {encoded} {w'} e =
    let (_, w₁, _, e₁) =
      >>=-eq-ok acquire (λ _. new_salt >>= (λ salt. pure (derive k h.params password salt))) w e in
    let (salt, w₂, _, e₂) =
      >>=-eq-ok new_salt (λ salt. pure (derive k h.params password salt)) w₁ e₁ in
    (salt, cc e₂)
