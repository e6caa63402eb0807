-- ===== src/Authn/Mailer.antt =====
-- authn/mailer.go: the transactional messages.
use kal.Base.{String, Text}

pub data MessageKind : Type 0 where
  verify reset invite attempted_register reset_no_account : MessageKind
  password_changed suspicious_login : MessageKind

-- The value of the Go constant.
unfoldable pub kind_name : MessageKind → String
kind_name verify = "verify"
kind_name reset = "reset"
kind_name invite = "invite"
kind_name attempted_register = "attempted-register"
kind_name reset_no_account = "reset-no-account"
kind_name password_changed = "password-changed"
kind_name suspicious_login = "suspicious-login"

pub record Message : Type 0 where
  pub kind : MessageKind
  pub subject : String
  pub text : String
  pub url : Text
