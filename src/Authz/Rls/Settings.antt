-- ===== src/Authz/Rls/Settings.antt =====
-- What the policies of a transaction read, and which extra settings are refused.
use kal.Base.{
  Bool, true, false, not, ◌||◌, some, List, [], ◌∷◌, ◌≡◌, ◌⊎◌, refl, sym, ap, ◌∙◌, subst, arith,
  Text, text_eq, text_eq_iff, find, any, All, All-mono, map, if◌then◌else◌, Bool-cases, inl, inr,
}
use kal.Base.Sort.{sort_texts, any-sort_texts, All-sort_texts}
use kal.Kalerr.{Result, ok, err, Failure}
use kal.Authz.Principal.{Context}
use kal.World.{World, Action, exec, ◌>>◌}
use kal.World.Outcome.{then-eq-ok}
use kal.World.Transaction.{idle_stmt, run_in_transaction-ok, run_in_transaction-err, idle-db}
use kal.Authz.Rls.{
  Settings, is_setting, current_setting, user_id_key, roles_key, is_setting_key, is_reserved,
  check_keys, extra_value, caller_id, caller_roles, rls_args, set_all, with_rls_settings, bad_key,
  reserved_key,
}

module _ (n v : Text) where
  -- Every assignment to the name gives it the value.
  abbrev Agrees : Text × Text → Type 0
  Agrees a = text_eq a.0 n ≡ true → a.1 ≡ v

  current-cons :
      (a : Text × Text) (s : Settings)
      → Agrees a
      → text_eq a.0 n ≡ true
      → current_setting n (a ∷ s) ≡ some v
  unfolding current_setting find
  current-cons (m, u) s h e = rw e (ap some (h e))

  current-cons_other :
      (a : Text × Text) (s : Settings)
      → text_eq a.0 n ≡ false
      → current_setting n (a ∷ s) ≡ current_setting n s
  unfolding current_setting find
  current-cons_other (m, u) s e = rw e refl

  set_all-same :
      (args : List (Text × Text)) (s : Settings)
      → All Agrees args
      → current_setting n s ≡ some v
      → current_setting n (set_all args s) ≡ some v
  unfolding set_all
  set_all-same [] s h k = k
  set_all-same (a ∷ rest) s h k = elim (Bool-cases (text_eq a.0 n)) [
    | inl e ↦ set_all-same rest (a ∷ s) h.1 (current-cons a s h.0 e)
    | inr e ↦ set_all-same rest (a ∷ s) h.1 (current-cons_other a s e ∙ k)
  ]

  set_all-any :
      (args : List (Text × Text)) (s : Settings)
      → All Agrees args
      → any (is_setting n) args ≡ true
      → current_setting n (set_all args s) ≡ some v
  unfolding set_all any
  set_all-any [] s h k = cc
  set_all-any (a ∷ rest) s h k = elim (Bool-cases (text_eq a.0 n)) [
    | inl e ↦ set_all-same rest (a ∷ s) h.1 (current-cons a s h.0 e)
    | inr e ↦ set_all-any rest (a ∷ s) h.1 (ground arith)
  ]

-- A name that may be set as an extra.
abbrev pub IsExtra : Text → Type 0
IsExtra k = (is_setting_key k ≡ true) × (is_reserved k ≡ false)

same_keys : (ks ls : List Text) → ◌≡◌ {A = Result (List Text)} (ok ks) (ok ls) → ks ≡ ls
same_keys ks ls h = cc h

check_keys-IsExtra :
    (extra : List (Text × Text)) (keys : List Text)
    → check_keys extra ≡ ok keys
    → All (λ a. IsExtra a.0) extra × (keys ≡ map (λ a. a.0) extra)
unfolding check_keys
check_keys-IsExtra [] keys h = (tt, sym (same_keys [] keys h))
check_keys-IsExtra ((k, v) ∷ rest) keys h =
    by_tests (is_setting_key k) (is_reserved k) (check_keys rest) refl refl
      (check_keys-IsExtra rest) h
  where
    by_tests :
        (a b : Bool) (r : Result (List Text))
        → is_setting_key k ≡ a
        → is_reserved k ≡ b
        → ((ks : List Text) → r ≡ ok ks → All (λ x. IsExtra x.0) rest × (ks ≡ map (λ x. x.0) rest))
        → (if not a
            then err bad_key
            else (if b then err reserved_key else elim r [ ok ks ↦ ok (k ∷ ks) | err e ↦ err e ]))
          ≡ ok keys
        → (IsExtra k × All (λ x. IsExtra x.0) rest) × (keys ≡ k ∷ map (λ x. x.0) rest)
    by_tests false b r p q ih g = absurd (cc g)
    by_tests true true r p q ih g = absurd (cc g)
    by_tests true false (err x) p q ih g = absurd (cc g)
    by_tests true false (ok ks) p q ih g =
        let (good, same) = ih ks refl in
        (((p, q), good), sym (same_keys (k ∷ ks) keys g) ∙ ap (λ l. k ∷ l) same)

IsExtra-check_keys :
    (extra : List (Text × Text))
    → All (λ a. IsExtra a.0) extra
    → check_keys extra ≡ ok (map (λ a. a.0) extra)
unfolding check_keys
IsExtra-check_keys [] h = refl
IsExtra-check_keys ((k, v) ∷ rest) h = rw (h.0.0, h.0.1, IsExtra-check_keys rest h.1) refl

-- The settings carry the caller, and every extra at its value.
abbrev pub Carries : Context → List (Text × Text) → Settings → Type 0
Carries ctx extra s =
    (current_setting user_id_key s ≡ some (caller_id ctx))
    × (current_setting roles_key s ≡ some (caller_roles ctx))
    × ((k : Text)
        → any (is_setting k) extra ≡ true
        → current_setting k s ≡ some (extra_value extra k))

reserved_other :
    (k name : Text) → is_reserved k ≡ false → is_reserved name ≡ true → text_eq k name ≡ false
reserved_other k name h r = elim (Bool-cases (text_eq k name)) [
  | inl e ↦ absurd (cc (subst (λ t. is_reserved t ≡ true) (sym ((text_eq_iff k name).0 e)) r, h))
  | inr e ↦ e
]

All-map_keys {ℓ} :
    (P : Text × Text → Type ℓ) (f : Text → Text × Text) (keys : List Text)
    → All (λ k. P (f k)) keys
    → All P (map f keys)
All-map_keys P f [] h = tt
All-map_keys P f (k ∷ ks) h = (h.0, All-map_keys P f ks h.1)

All-keys {ℓ} :
    (P : Text → Type ℓ) (extra : List (Text × Text))
    → All (λ a. P a.0) extra
    → All P (map (λ a. a.0) extra)
All-keys P [] h = tt
All-keys P (a ∷ rest) h = (h.0, All-keys P rest h.1)

All-each {ℓ} : (P : Text → Type ℓ) → ((t : Text) → P t) → (ts : List Text) → All P ts
All-each P f [] = tt
All-each P f (t ∷ ts) = (f t, All-each P f ts)

any-keys :
    (k : Text) (extra : List (Text × Text))
    → any (λ t. text_eq t k) (map (λ a. a.0) extra) ≡ any (is_setting k) extra
unfolding any
any-keys k [] = refl
any-keys k ((m, v) ∷ rest) = ap (λ b. text_eq m k || b) (any-keys k rest)

any-map_keys :
    (k : Text) (f : Text → Text) (keys : List Text)
    → any (is_setting k) (map (λ t. (t, f t)) keys) ≡ any (λ t. text_eq t k) keys
unfolding any
any-map_keys k f [] = refl
any-map_keys k f (t ∷ ts) = ap (λ b. text_eq t k || b) (any-map_keys k f ts)

module _ (ctx : Context) (extra : List (Text × Text)) (session : Settings) where
  abbrev extra_args : List (Text × Text)
  extra_args = map (λ k. (k, extra_value extra k)) (sort_texts (map (λ a. a.0) extra))

  not_named :
      (name v : Text)
      → is_reserved name ≡ true
      → All (λ a. IsExtra a.0) extra
      → All (Agrees name v) extra_args
  not_named name v r h =
      All-map_keys (Agrees name v) (λ k. (k, extra_value extra k)) _
        (All-mono IsExtra _ _ (λ k x e. absurd (cc (reserved_other k name x.1 r, e)))
          (All-sort_texts IsExtra _ (All-keys IsExtra extra h)))

  Agrees-itself : (k : Text) → All (Agrees k (extra_value extra k)) extra_args
  Agrees-itself k =
      All-map_keys (Agrees k (extra_value extra k)) (λ t. (t, extra_value extra t)) _
        (All-each _ (λ t e. ap (extra_value extra) ((text_eq_iff t k).0 e)) _)

  abbrev carried : Settings
  carried = set_all (rls_args ctx extra (map (λ a. a.0) extra)) session

  carried-Carries : All (λ a. IsExtra a.0) extra → Carries ctx extra carried
  unfolding rls_args set_all current_setting find text_eq
  carried-Carries h = (
    set_all-same user_id_key (caller_id ctx) extra_args _ (not_named user_id_key _ refl h) refl,
    set_all-same roles_key (caller_roles ctx) extra_args _ (not_named roles_key _ refl h) refl,
    λ k named. set_all-any k (extra_value extra k) extra_args _ (Agrees-itself k) (
        any-map_keys k (extra_value extra) _
        ∙ any-sort_texts (λ t. text_eq t k) _
        ∙ any-keys k extra
        ∙ named),
  )

-- Where every extra may be set, `fn` is run in a transaction whose settings carry the caller and
-- every extra, whatever the connection had set before: the caller's id and roles, empty for nobody,
-- cannot be overridden. If `fn` and the commit succeed, the tables are as `fn` left them; if not, as
-- they were.
pub with_rls_settings-Carries :
    (session : Settings) (ctx : Context) (extra : List (Text × Text))
    (fn : Settings → Action (Unit {0})) (w : World)
    → All (λ a. IsExtra a.0) extra
    → (s : Settings) × Carries ctx extra s
      × ((w' : World)
          → with_rls_settings session ctx extra fn w ≡ (ok tt, w')
          → (w₁ : World) × (w₂ : World) × (w₁.db ≡ w.db)
            × (fn s w₁ ≡ (ok tt, w₂))
            × (w'.db ≡ w₂.db))
      × ((e : Failure) (w' : World)
          → with_rls_settings session ctx extra fn w ≡ (err e, w')
          → w'.db ≡ w.db)
unfolding with_rls_settings
with_rls_settings-Carries session ctx extra fn w h =
    let accepted = IsExtra-check_keys extra h in
    (
      carried ctx extra session,
      carried-Carries ctx extra session h,
      λ w' q.
          let (w₁, w₂, same, ran, kept) =
            run_in_transaction-ok (exec idle_stmt >> fn (carried ctx extra session)) w
              (rw accepted at q) in
          let (w₀, e, f) = then-eq-ok (exec idle_stmt) _ w₁ ran in
          (w₀, w₂, idle-db w₁ e ∙ same, f, kept),
      λ e w' q.
          run_in_transaction-err (exec idle_stmt >> fn (carried ctx extra session)) w
            (rw accepted at q),
    )

check_keys-refuses :
    (extra : List (Text × Text))
    → any (λ a. not (is_setting_key a.0) || is_reserved a.0) extra ≡ true
    → (check_keys extra ≡ err bad_key) ⊎ (check_keys extra ≡ err reserved_key)
unfolding check_keys any
check_keys-refuses [] h = cc
check_keys-refuses ((k, v) ∷ rest) h = elim (Bool-cases (is_setting_key k)) [
  | inr e ↦ inl (rw e refl)
  | inl e ↦ elim (Bool-cases (is_reserved k)) [
    | inl r ↦ inr (rw (e, r) refl)
    | inr r ↦ elim (check_keys-refuses rest (ground arith)) [
      | inl q ↦ inl (rw (e, r, q) refl)
      | inr q ↦ inr (rw (e, r, q) refl)
    ]
  ]
]

-- Where one extra may not be set, the call is refused before anything is run.
pub with_rls_settings-refuses :
    (session : Settings) (ctx : Context) (extra : List (Text × Text))
    (fn : Settings → Action (Unit {0})) (w : World)
    → any (λ a. not (is_setting_key a.0) || is_reserved a.0) extra ≡ true
    → (with_rls_settings session ctx extra fn w ≡ (err bad_key, w))
      ⊎ (with_rls_settings session ctx extra fn w ≡ (err reserved_key, w))
unfolding with_rls_settings
with_rls_settings-refuses session ctx extra fn w h = elim (check_keys-refuses extra h) [
  | inl e ↦ inl (rw e refl)
  | inr e ↦ inr (rw e refl)
]
