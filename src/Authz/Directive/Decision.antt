-- ===== src/Authz/Directive/Decision.antt =====
-- When the `@auth` directive lets a call through, stated without its order of tests.
use kal.Base.{ℕ, false, none, some, [], ◌≡◌, ◌≢◌, ◌↔◌, inl, inr, arith, Option-cases}
use kal.Kalerr.{Result, ok}
use kal.Authz.Principal.{Context}
use kal.Authz.Directive.{empty_proofs, DirectiveOptions, Annotation, denial, directive}
use kal.Authz.Directive.Conditions.{
  IsLevel, Admits, is_level_iff, check_caller→met, met→check_caller, check_anonymous→met,
  met→check_anonymous, empty_proofs_iff,
}

-- The two tests that come before the caller is looked at.
denial_by_caller :
    (opts : DirectiveOptions) (now : ℕ) (ctx : Context) (a : Annotation)
    → denial opts now ctx a ≡ none
    → IsLevel a.requires × (a.proves ≢ some [])
unfolding denial
denial_by_caller opts now ctx a h = (
  (is_level_iff a.requires).0 (ground arith),
  λ e. absurd (cc ((empty_proofs_iff a.proves).1 e, shown)),
)
  where
    shown : empty_proofs a.proves ≡ false
    shown = ground arith

denial→Admits :
    (opts : DirectiveOptions) (now : ℕ) (ctx : Context) (a : Annotation)
    → denial opts now ctx a ≡ none
    → Admits opts now ctx a
unfolding denial
denial→Admits opts now ctx a h =
    let (known, ne) = denial_by_caller opts now ctx a h in
    (
      known,
      ne,
      elim (Option-cases ctx.principal) [
        | inl e ↦ let (l, r, m, q) = check_anonymous→met a ne (ground arith) in inl (e, l, r, m, q)
        | inr (p, e) ↦
            let (r, m, q) = check_caller→met opts now ctx a p ne (ground arith) in
            inr (p, e, r, m, q)
      ],
    )

Admits→denial :
    (opts : DirectiveOptions) (now : ℕ) (ctx : Context) (a : Annotation)
    → Admits opts now ctx a
    → denial opts now ctx a ≡ none
unfolding denial
Admits→denial opts now ctx a (known, ne, inl (e, l, r, m, q)) =
    rw ((is_level_iff a.requires).1 known, q, e) (met→check_anonymous a l r m q)
Admits→denial opts now ctx a (known, ne, inr (p, e, r, m, q)) = ground (
  arith,
  (is_level_iff a.requires).1 known,
  (empty_proofs_iff a.proves).0,
  met→check_caller opts now ctx a p r m q,
)

-- On a resolver that answers with a value, the directive gives that value exactly when the annotation
-- admits the call: the level is known, the proof list is not the empty one, and either nobody is
-- signed in and the field asks for nothing, or the caller meets the roles (one of them, or the bypass
-- role), the second factor and the proofs.
pub directive-Admits :
    {A : Type 0} (opts : DirectiveOptions) (now : ℕ) (ctx : Context) (a : Annotation)
    (next : Context → Result A) (v : A)
    → next ctx ≡ ok v
    → (directive opts now ctx next a ≡ ok v) ↔ Admits opts now ctx a
unfolding directive
directive-Admits opts now ctx a next v e = (
  (λ h. denial→Admits opts now ctx a (elim (Option-cases (denial opts now ctx a)) [
    | inl passed ↦ passed
    | inr (f, denied) ↦ absurd (cc (rw (denied, directive) at h))
  ])),
  λ h. rw (Admits→denial opts now ctx a h, directive) e,
)
