-- ===== src/Authz/Audit.antt =====
-- authz/audit.go: the events that kal reports, and `Audit.Emit`.
use kal.Base.{ℕ, Text, if◌then◌else◌, ◌==◌, String}
use kal.Kalerr.{Failure}

-- The kinds that kal emits.
pub data Kind : Type 0 where
  login_ok login_fail backoff_open password_rehash mail_fail : Kind
  session_lookup_fail session_revoked : Kind

-- The maps that kal puts into `Detail`, a constructor for each set of keys.
pub data Detail : Type 0 where
  nothing : Detail
  reason : String → Detail
  prior_failures : ℕ → Detail
  window : Text → ℕ → Detail
  error : Failure → Detail
  undelivered : String → Failure → Detail
  one_session : Text → Detail
  all_sessions : ℕ → Detail

pub record Event : Type 0 where
  pub kind : Kind
  pub user_id : Text
  pub email : Text
  pub ip : Text
  -- `At`: 0 is the zero time.
  pub at_time : ℕ
  pub detail : Detail

-- `Audit.Emit` at the application's clock: what the hook is called with, if there is one.
unfoldable pub emit : ℕ → Event → Event
emit now e = if e.at_time == 0 then record e { at_time = now } else e
