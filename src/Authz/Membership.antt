-- ===== src/Authz/Membership.antt =====
-- authz/scope.go and directive.go: `hasRole`, `HasRole` and `anyRole`, against membership up to case.
use kal.Base.{
  Bool, true, false, not, ◌&&◌, ◌||◌, none, some, List, [], ◌∷◌, ◌≡◌, ◌↔◌, ◌⊎◌, inl, inr, arith,
  Text, text_eq_iff, to_lower, equal_fold, is_empty, if◌then◌else◌, Bool-cases, or_parts,
}
use kal.Authz.Principal.{Context}

unfoldable pub has_role : List Text → Text → Bool
has_role [] want = false
has_role (r ∷ roles) want = equal_fold r want || has_role roles want

unfoldable pub has_role_ctx : Context → Text → Bool
has_role_ctx ctx role = elim ctx.principal [ none ↦ false | some p ↦ has_role p.roles role ]

any_wanted : List Text → List Text → Bool
any_wanted held [] = false
any_wanted held (w ∷ want) = has_role held w || any_wanted held want

unfoldable pub any_role : List Text → List Text → Text → Bool
unfolding any_wanted
any_role held want bypass =
    if not (is_empty bypass) && has_role held bypass then true else any_wanted held want

-- The user holds a role that equals the wanted one when case is disregarded.
abbrev pub Holds : List Text → Text → Type 0
Holds [] want = ⊥
Holds (r ∷ roles) want = (to_lower r ≡ to_lower want) ⊎ Holds roles want

abbrev pub HoldsOne : List Text → List Text → Type 0
HoldsOne held [] = ⊥
HoldsOne held (w ∷ want) = Holds held w ⊎ HoldsOne held want

-- A bypass role that is configured and held, or one of the wanted roles.
abbrev pub Qualifies : List Text → List Text → Text → Type 0
Qualifies held want bypass = ((is_empty bypass ≡ false) × Holds held bypass) ⊎ HoldsOne held want

equal_fold_iff : (s t : Text) → (equal_fold s t ≡ true) ↔ (to_lower s ≡ to_lower t)
unfolding equal_fold
equal_fold_iff s t = text_eq_iff (to_lower s) (to_lower t)

has_role→Holds : (roles : List Text) (want : Text) → has_role roles want ≡ true → Holds roles want
unfolding has_role
has_role→Holds [] want h = cc
has_role→Holds (r ∷ roles) want h = elim (or_parts (equal_fold r want) (has_role roles want) h) [
  | inl e ↦ inl ((equal_fold_iff r want).0 e)
  | inr e ↦ inr (has_role→Holds roles want e)
]

Holds→has_role : (roles : List Text) (want : Text) → Holds roles want → has_role roles want ≡ true
unfolding has_role
Holds→has_role [] want h = absurd h
Holds→has_role (r ∷ roles) want (inl e) = rw ((equal_fold_iff r want).1 e)
Holds→has_role (r ∷ roles) want (inr h) = ground (arith, Holds→has_role roles want h)

pub has_role_iff :
    (roles : List Text) (want : Text) → (has_role roles want ≡ true) ↔ Holds roles want
has_role_iff roles want = (has_role→Holds roles want, Holds→has_role roles want)

any_wanted→HoldsOne : (held want : List Text) → any_wanted held want ≡ true → HoldsOne held want
unfolding any_wanted
any_wanted→HoldsOne held [] h = cc
any_wanted→HoldsOne held (w ∷ want) h = elim (or_parts (has_role held w) (any_wanted held want) h) [
  | inl e ↦ inl ((has_role_iff held w).0 e)
  | inr e ↦ inr (any_wanted→HoldsOne held want e)
]

HoldsOne→any_wanted : (held want : List Text) → HoldsOne held want → any_wanted held want ≡ true
unfolding any_wanted
HoldsOne→any_wanted held [] h = absurd h
HoldsOne→any_wanted held (w ∷ want) (inl h) = rw ((has_role_iff held w).1 h)
HoldsOne→any_wanted held (w ∷ want) (inr h) = ground (arith, HoldsOne→any_wanted held want h)

any_role→Qualifies :
    (held want : List Text) (bypass : Text)
    → any_role held want bypass ≡ true
    → Qualifies held want bypass
unfolding any_role
any_role→Qualifies held want bypass h =
    elim (Bool-cases (not (is_empty bypass) && has_role held bypass)) [
      | inl e ↦ inl (ground arith, (has_role_iff held bypass).0 (ground arith))
      | inr e ↦ inr (any_wanted→HoldsOne held want (ground arith))
    ]

Qualifies→any_role :
    (held want : List Text) (bypass : Text)
    → Qualifies held want bypass
    → any_role held want bypass ≡ true
unfolding any_role
Qualifies→any_role held want bypass (inl (set, h)) = rw (set, (has_role_iff held bypass).1 h)
Qualifies→any_role held want bypass (inr h) = ground (arith, HoldsOne→any_wanted held want h)

pub any_role_iff :
    (held want : List Text) (bypass : Text)
    → (any_role held want bypass ≡ true) ↔ Qualifies held want bypass
any_role_iff held want bypass =
    (any_role→Qualifies held want bypass, Qualifies→any_role held want bypass)
