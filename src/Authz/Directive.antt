-- ===== src/Authz/Directive.antt =====
-- authz/directive.go: the `@auth` directive. The process clock, the resolver and the proof module
-- are arguments.
pub mod Conditions
pub mod Decision
use kal.Base.{
  ℕ, zero, suc, ◌+◌, ◌-◌, ◌*◌, Bool, true, false, not, ◌&&◌, ◌||◌, Option, none, some, List, [],
  ◌∷◌, Text, codes, text_eq, if◌then◌else◌, ltb, ◌==◌,
}
use kal.Base.Int.{ℤ, pos, negsuc}
use kal.Kalerr.{
  Result, ok, err, Failure, coded, coded_by, plain, forbidden, invalid_proof, unauthenticated,
  mfa_required,
}
use kal.Authz.Principal.{Principal, Context, authentication_required}
use kal.Authz.Membership.{any_role}

-- `AuthLevel` is a string type in Go: a value outside the enum can reach the directive.
abbrev pub level_anonymous : Text
level_anonymous = codes "ANONYMOUS"

abbrev pub level_authenticated : Text
level_authenticated = codes "AUTHENTICATED"

abbrev pub second : ℕ
second = 1_000_000_000

abbrev pub default_mfa_window : ℕ
default_mfa_window = 15 * (60 * second)

-- `UnmarshalGQL`: `none` is a value that is no string.
unfoldable pub unmarshal_level : Option Text → Result Text
unmarshal_level none = err (plain "AuthLevel must be a string")
unmarshal_level (some s) =
    if text_eq s level_anonymous || text_eq s level_authenticated
    then ok s
    else err (plain "not a valid AuthLevel")

pub record DirectiveOptions : Type 0 where
  pub mfa_window : ℤ
  pub bypass_role : Text
  pub proofs : Option (Context → List Text → Option Failure)

-- The arguments of one annotation. A nil list of roles and an empty one behave alike, a nil and an
-- empty list of proofs do not.
pub record Annotation : Type 0 where
  pub requires : Text
  pub roles : List Text
  pub mfa : Option Bool
  pub proves : Option (List Text)

abbrev pub not_permitted : Failure
not_permitted = coded forbidden "not permitted"

abbrev pub proof_required : Failure
proof_required = coded invalid_proof "zero-knowledge proof required"

abbrev pub is_nil {ℓ} : {A : Type ℓ} → List A → Bool
is_nil [] = true
is_nil (x ∷ xs) = false

-- `len(proves) == 0`, and `proves != nil && len(proves) == 0`.
abbrev pub no_proofs : Option (List Text) → Bool
no_proofs none = true
no_proofs (some claims) = is_nil claims

abbrev pub empty_proofs : Option (List Text) → Bool
empty_proofs none = false
empty_proofs (some claims) = is_nil claims

abbrev pub wants_mfa : Option Bool → Bool
wants_mfa none = false
wants_mfa (some b) = b

unfoldable pub is_level : Text → Bool
is_level l = text_eq l level_anonymous || text_eq l level_authenticated

unfoldable pub window_of : DirectiveOptions → ℤ
window_of opts = elim opts.mfa_window [
  | pos w ↦ pos (if w == 0 then default_mfa_window else w)
  | negsuc n ↦ negsuc n
]

-- `now.Sub(at_time) > window`, of which both sides may be negative.
unfoldable pub is_past : ℕ → ℕ → ℤ → Bool
is_past now at_time (pos w) = ltb w (now - at_time)
is_past now at_time (negsuc n) = ltb at_time (now + suc n)

-- `p.MFAAt.IsZero() || time.Since(p.MFAAt) > window`.
unfoldable pub mfa_stale : ℤ → ℕ → Option ℕ → Bool
unfolding is_past
mfa_stale window now none = true
mfa_stale window now (some at_time) = is_past now at_time window

unfoldable pub check_proofs : DirectiveOptions → Context → Option (List Text) → Option Failure
check_proofs opts ctx none = none
check_proofs opts ctx (some []) = none
check_proofs opts ctx (some (c ∷ claims)) = elim opts.proofs [
  | none ↦ some proof_required
  | some prove ↦ prove ctx (c ∷ claims)
]

unfoldable pub check_caller :
    DirectiveOptions → ℕ → Context → Annotation → Principal → Option Failure
unfolding mfa_stale window_of check_proofs
check_caller opts now ctx a p =
    if not (is_nil a.roles) && not (any_role p.roles a.roles opts.bypass_role)
    then some not_permitted
    else if wants_mfa a.mfa && mfa_stale (window_of opts) now p.mfa_at
    then some (coded mfa_required "multi-factor authentication required")
    else check_proofs opts ctx a.proves

unfoldable pub check_anonymous : Annotation → Option Failure
check_anonymous a =
    if text_eq a.requires level_anonymous
      && (is_nil a.roles && (not (wants_mfa a.mfa) && no_proofs a.proves))
    then none
    else some authentication_required

-- Every test before `next(ctx)`, in the code's order; `none` lets the call through.
unfoldable pub denial : DirectiveOptions → ℕ → Context → Annotation → Option Failure
unfolding is_level check_caller check_anonymous
denial opts now ctx a =
    if not (is_level a.requires)
    then some (coded_by forbidden "not permitted" (plain "unknown AuthLevel"))
    else if empty_proofs a.proves
    then some proof_required
    else elim ctx.principal [ none ↦ check_anonymous a | some p ↦ check_caller opts now ctx a p ]

unfoldable pub directive :
    {A : Type 0} → DirectiveOptions → ℕ → Context → (Context → Result A) → Annotation → Result A
unfolding denial
directive opts now ctx next a = elim (denial opts now ctx a) [ none ↦ next ctx | some e ↦ err e ]
