-- ===== src/Kalerr.antt =====
-- kalerr/errors.go: the error contract. A Go `error` is a `Failure`; `Internal` is a further one.
use kal.Base.{String, Bool, true, false, Option, none, some, ◌≡◌, refl}

-- The stable code vocabulary.
pub data Code : Type 0 where
  unauthenticated forbidden invalid_credentials rate_limited mfa_required : Code
  invalid_token invalid_input invalid_proof conflict : Code

-- `coded` is a `*kalerr.Error` with a nil `Internal`, `coded_by` one with a cause; `plain` is
-- `errors.New`, `wrapped` is `fmt.Errorf` with `%w`. `no_rows` is `pg.ErrNoRows`, `driver` any other
-- error of the driver, `entropy` one of `crypto/rand`.
pub data Failure : Type 0 where
  coded : Code → String → Failure
  coded_by : Code → String → Failure → Failure
  plain : String → Failure
  wrapped : String → Failure → Failure
  no_rows driver entropy : Failure

-- What a client receives: a message and, for kal's own errors, `extensions.code`.
pub record Wire : Type 0 where
  pub message : String
  pub code : Option Code

-- `errors.AsType[*Error]`: the first `*kalerr.Error` in the chain.
unfoldable pub as_error : Failure → Option (Code × String)
as_error (coded c m) = some (c, m)
as_error (coded_by c m e) = some (c, m)
as_error (plain m) = none
as_error (wrapped m e) = as_error e
as_error no_rows = none
as_error driver = none
as_error entropy = none

-- `Unwrap` and `errors.Is(err, pg.ErrNoRows)`.
unfoldable pub is_no_rows : Failure → Bool
is_no_rows (coded c m) = false
is_no_rows (coded_by c m e) = is_no_rows e
is_no_rows (plain m) = false
is_no_rows (wrapped m e) = is_no_rows e
is_no_rows no_rows = true
is_no_rows driver = false
is_no_rows entropy = false

-- luima's own presenter, `luimaerr.PresentError`, is a parameter.
unfoldable pub present_error : (Failure → Wire) → Failure → Wire
unfolding as_error
present_error luima e = elim (as_error e) [
  | none ↦ luima e
  | some (c, m) ↦ record { message = m; code = some c }
]

-- A failure that is one of kal's own with the given code.
abbrev pub HasCode : Code → Failure → Type 0
HasCode c e = (m : String) × (as_error e ≡ some (c, m))

-- A result, or the error that the Go function returns in its place.
pub data Result (A : Type 0) : Type 0 where
  err : Failure → Result A
  ok : A → Result A

-- The internal cause of one of kal's errors never reaches the client: only its code and its
-- message do, however often the error was wrapped on its way up.
pub present_error-redacts :
    (luima : Failure → Wire) (c : Code) (m : String) (e : Failure) (outer : String)
    → (present_error luima (coded_by c m e) ≡ present_error luima (coded c m))
      × (present_error luima (wrapped outer (coded_by c m e)) ≡ present_error luima (coded c m))
unfolding present_error
present_error-redacts luima c m e outer = (refl, refl)
