-- ===== src/Authz/Roles/Pairs.antt =====
-- The assignments as a set of pairs: the lists of rows and of names against the set.
use kal.Base.{
  Bool, true, false, not, ◌&&◌, ◌||◌, List, [], ◌∷◌, ◌≡◌, refl, sym, inl, inr, arith, Text, text_eq,
  text_eq_iff, any, filter, Bool-cases, subst, and_parts,
}
use kal.Store.{UserRole}
use kal.Session.Statements.{roles_of}
use kal.Authz.Roles.{is_assignment}

-- Which user has which role.
abbrev pub Assignment : Type 0
Assignment = Text → Text → Bool

abbrev pub assigned : List UserRole → Assignment
assigned rows user role = any (is_assignment user role) rows

abbrev pub is_pair : Text → Text → Assignment
is_pair u r user role = text_eq u user && text_eq r role

pub roles_of-assigned :
    (user role : Text) (rows : List UserRole)
    → any (λ r. text_eq r role) (roles_of user rows) ≡ assigned rows user role
unfolding any roles_of
roles_of-assigned user role [] = refl
roles_of-assigned user role (r ∷ rs) = ground (arith, roles_of-assigned user role rs)

is_pair_sound : (u r user role : Text) → is_pair u r user role ≡ true → (u ≡ user) × (r ≡ role)
is_pair_sound u r user role h =
    let (a, b) = and_parts (text_eq u user) _ h in
    ((text_eq_iff u user).0 a, (text_eq_iff r role).0 b)

same_assignment :
    (u r user role : Text) (x : UserRole)
    → is_assignment u r x ≡ true
    → is_assignment user role x ≡ is_pair u r user role
same_assignment u r user role x h =
    let (a, b) = is_pair_sound x.user_id x.role u r h in rw (a, b) refl

other_assignment :
    (u r user role : Text) (x : UserRole)
    → is_assignment u r x ≡ false
    → (not (is_pair u r user role) && is_assignment user role x) ≡ is_assignment user role x
other_assignment u r user role x h = elim (Bool-cases (is_pair u r user role)) [
  | inl e ↦
      let (a, b) = is_pair_sound u r user role e in
      rw e (
        sym (
          subst (λ t. is_assignment t role x ≡ false) a
            (subst (λ t. is_assignment u t x ≡ false) b h)))
  | inr e ↦ rw e refl
]

-- A filter that drops one assignment.
pub assigned-filter :
    (u r user role : Text) (rows : List UserRole)
    → assigned (filter (λ x. not (is_assignment u r x)) rows) user role
      ≡ (not (is_pair u r user role) && assigned rows user role)
unfolding any filter
assigned-filter u r user role [] = ground arith
assigned-filter u r user role (x ∷ xs) = elim (Bool-cases (is_assignment u r x)) [
  | inl e ↦
      rw (e, same_assignment u r user role x e) (ground (arith, assigned-filter u r user role xs))
  | inr e ↦
      let q = other_assignment u r user role x e in
      rw e (ground (arith, assigned-filter u r user role xs))
]

pub granted-assigned :
    (u r user role : Text) (rows : List UserRole)
    → assigned rows u r ≡ true
    → assigned rows user role ≡ (is_pair u r user role || assigned rows user role)
granted-assigned u r user role rows h = elim (Bool-cases (is_pair u r user role)) [
  | inl e ↦
      let (a, b) = is_pair_sound u r user role e in
      rw e (subst (λ t. assigned rows t role ≡ true) a (subst (λ t. assigned rows u t ≡ true) b h))
  | inr e ↦ rw e refl
]
