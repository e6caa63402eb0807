-- ===== src/Authz/Tests.antt =====
-- The error contract and the directive at inputs that meet the theorems' hypotheses.
use kal.Base.{ℕ, ◌↔◌, ◌≡◌, refl, [], ◌∷◌, none, some, codes, true, text_eq}
use kal.Base.Int.{pos, negsuc}
use kal.Kalerr.{ok, err, coded, mfa_required, Failure, Wire}
use kal.Authz.Principal.{Principal, Context, background}
use kal.Authz.Directive.{
  denial, check_caller, mfa_stale, is_past, window_of, is_level, DirectiveOptions, Annotation,
  directive, level_authenticated,
}
use kal.Authz.Directive.Decision.{directive-Admits}
use kal.Authz.Directive.Conditions.{Admits}

-- A presenter that shows nothing of an error that is not kal's.
abbrev hide : Failure → Wire
hide e = record { message = "internal server error"; code = none }

abbrev editor : Principal
editor = record {
  user_id = codes "u1";
  session_id = codes "s1";
  roles = codes "editor" ∷ [];
  auth_at = 5;
  mfa_at = some 7;
  email = codes "a@b.c";
  verified = true;
}

abbrev as_editor : Context
as_editor = record background { principal = some editor }

abbrev no_options : DirectiveOptions
no_options = record { mfa_window = pos 0; bypass_role = []; proofs = none }

abbrev editors_with_mfa : Annotation
editors_with_mfa = record {
  requires = level_authenticated;
  roles = codes "editor" ∷ (codes "admin" ∷ []);
  mfa = some true;
  proves = none;
}

directive-Admits_example :
    (directive {A = ℕ} no_options 9 as_editor (λ ctx. ok 3) editors_with_mfa ≡ ok 3)
    ↔ Admits no_options 9 as_editor editors_with_mfa
directive-Admits_example =
    directive-Admits {A = ℕ} no_options 9 as_editor editors_with_mfa (λ ctx. ok 3) 3 refl

-- Under a negative window every second factor that is not of the future is stale.
negative_window :
    directive {A = ℕ}
      (record no_options { mfa_window = negsuc 0 })
      9
      as_editor
      (λ ctx. ok 3)
      (record editors_with_mfa { roles = [] })
    ≡ err (coded mfa_required "multi-factor authentication required")
unfolding directive denial check_caller mfa_stale is_past window_of is_level text_eq
negative_window = refl
