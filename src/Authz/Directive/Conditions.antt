-- ===== src/Authz/Directive/Conditions.antt =====
-- What each test of the `@auth` directive asks for.
use kal.Base.{
  ℕ, suc, ◌+◌, ◌≤◌, true, false, not, ◌&&◌, Option, none, some, List, [], ◌∷◌, ◌≡◌, ◌≢◌, ◌⊎◌, ◌↔◌,
  inl, inr, refl, Text, text_eq_iff, arith, Bool-cases, or_parts,
}
use kal.Base.Int.{ℤ, pos, negsuc}
use kal.Kalerr.{Failure}
use kal.Authz.Principal.{Principal, Context}
use kal.Authz.Membership.{any_role, any_role_iff, Qualifies}
use kal.Authz.Directive.{
  empty_proofs, no_proofs, DirectiveOptions, Annotation, level_anonymous, level_authenticated,
  is_level, window_of, mfa_stale, is_past, check_proofs, check_caller, check_anonymous, wants_mfa,
  is_nil,
}

-- A known level.
abbrev pub IsLevel : Text → Type 0
IsLevel l = (l ≡ level_anonymous) ⊎ (l ≡ level_authenticated)

abbrev pub RolesMet : DirectiveOptions → Annotation → Principal → Type 0
RolesMet opts a p = (a.roles ≡ []) ⊎ Qualifies p.roles a.roles opts.bypass_role

-- No more time has passed since than the window, which may be negative.
abbrev pub IsRecent : ℕ → ℕ → ℤ → Type 0
IsRecent now at_time (pos w) = now ≤ at_time + w
IsRecent now at_time (negsuc n) = now + suc n ≤ at_time

-- A second factor is not asked for, or was given within the window.
abbrev pub MfaMet : DirectiveOptions → ℕ → Annotation → Principal → Type 0
MfaMet opts now a p =
    (wants_mfa a.mfa ≡ false)
    ⊎ ((at_time : ℕ) × (p.mfa_at ≡ some at_time) × IsRecent now at_time (window_of opts))

-- No proof is asked for, or a proof module is there and accepts every claim.
abbrev pub ProofsMet : DirectiveOptions → Context → Annotation → Type 0
ProofsMet opts ctx a =
    (a.proves ≡ none)
    ⊎ ((claims : List Text) × (prove : Context → List Text → Option Failure) × (a.proves
          ≡ some claims)
        × (opts.proofs ≡ some prove)
        × (prove ctx claims ≡ none))

abbrev pub Admits : DirectiveOptions → ℕ → Context → Annotation → Type 0
Admits opts now ctx a =
    IsLevel a.requires
    × (a.proves ≢ some [])
    × (((ctx.principal ≡ none)
          × (a.requires ≡ level_anonymous)
          × (a.roles ≡ [])
          × (wants_mfa a.mfa ≡ false)
          × (a.proves ≡ none))
        ⊎ ((p : Principal) × (ctx.principal ≡ some p)
            × RolesMet opts a p
            × MfaMet opts now a p
            × ProofsMet opts ctx a))

pub is_level_iff : (l : Text) → (is_level l ≡ true) ↔ IsLevel l
unfolding is_level
is_level_iff l = (
  (λ h. elim (or_parts _ _ h) [
    | inl e ↦ inl ((text_eq_iff l level_anonymous).0 e)
    | inr e ↦ inr ((text_eq_iff l level_authenticated).0 e)
  ]),
  λ h. elim h [
    | inl e ↦ ground (arith, (text_eq_iff l level_anonymous).1 e)
    | inr e ↦ ground (arith, (text_eq_iff l level_authenticated).1 e)
  ],
)

is_nil_iff : (l : List Text) → (is_nil l ≡ true) ↔ (l ≡ [])
is_nil_iff [] = (λ _. refl, λ _. refl)
is_nil_iff (x ∷ l) = (λ h. cc, λ h. cc)

mfa_stale-false :
    (w : ℤ) (now : ℕ) (m : Option ℕ)
    → mfa_stale w now m ≡ false
    → (at_time : ℕ) × (m ≡ some at_time) × IsRecent now at_time w
unfolding mfa_stale is_past
mfa_stale-false w now none h = cc
mfa_stale-false (pos w) now (some t) h = (t, refl, ground arith)
mfa_stale-false (negsuc n) now (some t) h = (t, refl, ground arith)

mfa_stale-recent :
    (w : ℤ) (now at_time : ℕ) → IsRecent now at_time w → mfa_stale w now (some at_time) ≡ false
unfolding mfa_stale is_past
mfa_stale-recent (pos w) now t h = ground arith
mfa_stale-recent (negsuc n) now t h = ground arith

check_proofs→ProofsMet :
    (opts : DirectiveOptions) (ctx : Context) (a : Annotation)
    → a.proves ≢ some []
    → check_proofs opts ctx a.proves ≡ none
    → ProofsMet opts ctx a
unfolding check_proofs
check_proofs→ProofsMet opts ctx a ne h = by_proves a.proves refl h
  where
    by_module :
        (c : Text) (cs : List Text) (o : Option (Context → List Text → Option Failure))
        → opts.proofs ≡ o
        → a.proves ≡ some (c ∷ cs)
        → check_proofs (record opts { proofs = o }) ctx (some (c ∷ cs)) ≡ none
        → ProofsMet opts ctx a
    by_module c cs none eo ep e = ground arith
    by_module c cs (some prove) eo ep e = inr (c ∷ cs, prove, ep, eo, ground arith)

    by_proves :
        (o : Option (List Text))
        → a.proves ≡ o
        → check_proofs opts ctx o ≡ none
        → ProofsMet opts ctx a
    by_proves none ep e = inl ep
    by_proves (some []) ep e = absurd (ne ep)
    by_proves (some (c ∷ cs)) ep e = by_module c cs opts.proofs refl ep e

ProofsMet→check_proofs :
    (opts : DirectiveOptions) (ctx : Context) (a : Annotation)
    → ProofsMet opts ctx a
    → check_proofs opts ctx a.proves ≡ none
unfolding check_proofs
ProofsMet→check_proofs opts ctx a (inl e) = rw e
ProofsMet→check_proofs opts ctx a (inr (claims, prove, ep, eo, e)) = ground arith

pub check_caller→met :
    (opts : DirectiveOptions) (now : ℕ) (ctx : Context) (a : Annotation) (p : Principal)
    → a.proves ≢ some []
    → check_caller opts now ctx a p ≡ none
    → RolesMet opts a p × MfaMet opts now a p × ProofsMet opts ctx a
unfolding check_caller
check_caller→met opts now ctx a p ne h = (
  elim (Bool-cases (is_nil a.roles)) [
    | inl e ↦ inl ((is_nil_iff a.roles).0 e)
    | inr e ↦ inr ((any_role_iff p.roles a.roles opts.bypass_role).0 (ground arith))
  ],
  elim (Bool-cases (wants_mfa a.mfa)) [
    | inl e ↦ inr (mfa_stale-false (window_of opts) now p.mfa_at (ground arith))
    | inr e ↦ inl e
  ],
  check_proofs→ProofsMet opts ctx a ne (ground arith),
)

mfa_met :
    (opts : DirectiveOptions) (now : ℕ) (a : Annotation) (p : Principal)
    → MfaMet opts now a p
    → (wants_mfa a.mfa && mfa_stale (window_of opts) now p.mfa_at) ≡ false
unfolding mfa_stale
mfa_met opts now a p (inl e) = rw e
mfa_met opts now a p (inr (t, e, le)) =
    let fresh = mfa_stale-recent (window_of opts) now t le in ground arith

roles_met :
    (opts : DirectiveOptions) (a : Annotation) (p : Principal)
    → RolesMet opts a p
    → (not (is_nil a.roles) && not (any_role p.roles a.roles opts.bypass_role)) ≡ false
roles_met opts a p (inl e) = rw e
roles_met opts a p (inr q) = ground (arith, (any_role_iff p.roles a.roles opts.bypass_role).1 q)

pub met→check_caller :
    (opts : DirectiveOptions) (now : ℕ) (ctx : Context) (a : Annotation) (p : Principal)
    → RolesMet opts a p
    → MfaMet opts now a p
    → ProofsMet opts ctx a
    → check_caller opts now ctx a p ≡ none
unfolding check_caller
met→check_caller opts now ctx a p r m q =
    rw (roles_met opts a p r, mfa_met opts now a p m) (ProofsMet→check_proofs opts ctx a q)

pub check_anonymous→met :
    (a : Annotation)
    → a.proves ≢ some []
    → check_anonymous a ≡ none
    → (a.requires ≡ level_anonymous)
      × (a.roles ≡ [])
      × (wants_mfa a.mfa ≡ false)
      × (a.proves ≡ none)
unfolding check_anonymous
check_anonymous→met a ne h = (
  (text_eq_iff a.requires level_anonymous).0 (ground arith),
  (is_nil_iff a.roles).0 (ground arith),
  ground arith,
  only_none a.proves ne (ground arith),
)
  where
    only_none : (o : Option (List Text)) → o ≢ some [] → no_proofs o ≡ true → o ≡ none
    only_none none ne e = refl
    only_none (some []) ne e = absurd (ne refl)
    only_none (some (c ∷ cs)) ne e = cc

pub met→check_anonymous :
    (a : Annotation)
    → a.requires ≡ level_anonymous
    → a.roles ≡ []
    → wants_mfa a.mfa ≡ false
    → a.proves ≡ none
    → check_anonymous a ≡ none
unfolding check_anonymous
met→check_anonymous a e r m q =
    rw (r, m, q) (ground (arith, (text_eq_iff a.requires level_anonymous).1 e))

pub empty_proofs_iff : (o : Option (List Text)) → (empty_proofs o ≡ true) ↔ (o ≡ some [])
empty_proofs_iff none = (λ h. cc, λ h. cc)
empty_proofs_iff (some []) = (λ _. refl, λ _. refl)
empty_proofs_iff (some (c ∷ cs)) = (λ h. cc, λ h. cc)
