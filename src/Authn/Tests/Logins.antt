-- ===== src/Authn/Tests/Logins.antt =====
-- Logins that succeed and logins that are refused, and a registration, on the database with one
-- account.
use kal.Base.{
  contains_code, ◌∷◌, ◌≡◌, refl, arith, [], codes, true, false, find, filter, any, text_eq,
  trim_space, to_lower, has_prefix, inl, inr,
}
use kal.Kalerr.{ok}
use kal.Authz.Principal.{Principal}
use kal.World.{World}
use kal.Authn.Password.{compare_hash}
use kal.Authn.Accounts.{is_open, scan, login}
use kal.Authn.Accounts.Complete.{login_complete}
use kal.Authn.Accounts.Refusal.{Refuses, login-Refuses}
use kal.Authn.Tokens.{register, is_bad_email}
use kal.Authn.Tokens.Silent.{Tells, register_silent}
use kal.Session.Statements.{user_exists}
use kal.Authn.Tests.{ones, legacy, same, no_ip, accounts, alice, calm, browser}

login_complete_example :
    (p : Principal) × (w : World) × (login legacy same no_ip accounts browser
        (codes "A@b.c ")
        (codes "secret")
        calm
      ≡ (ok p, w))
    × (p.user_id ≡ codes "u1")
    × (p.session_id ≡ codes "s9")
unfolding any find filter is_open scan text_eq trim_space to_lower compare_hash has_prefix
login_complete_example =
    login_complete legacy same no_ip accounts (omega arith) (omega arith) browser (codes "A@b.c ")
      (codes "secret") (codes "t9") (codes "s9") [] [] alice 0 true calm refl refl refl refl refl
      refl refl refl refl refl refl (inl refl)

login-Refuses_example :
    Refuses (login legacy same no_ip accounts browser (codes "A@b.c") (codes "guess")) calm
unfolding any find filter is_open scan text_eq trim_space to_lower compare_hash has_prefix
login-Refuses_example =
    login-Refuses legacy same no_ip accounts browser (codes "A@b.c") (codes "guess") 0
      (false, false) calm refl refl refl refl (inr (alice, refl, inr (refl, inl (false, refl))))

register_silent_example :
    Tells legacy same accounts
      (codes "a@b.c")
      (register legacy same accounts (codes "A@b.c") (codes "another"))
      calm
unfolding trim_space to_lower is_bad_email contains_code user_exists any text_eq
register_silent_example =
    register_silent legacy same accounts (codes "A@b.c") (codes "another") (ones 8) (codes "s9")
      (codes "t9") (ones 8 ∷ []) [] [] calm refl refl refl refl refl refl refl refl refl
