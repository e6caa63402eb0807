-- ===== src/Guard/Limits.antt =====
-- Which documents the guard lets through.
use Prim.Native.Nat.{max}
use kal.Base.{
  ℕ, ◌+◌, ◌≤◌, ◌<◌, Bool, true, false, ◌&&◌, none, List, [], ◌∷◌, ◌≡◌, ◌↔◌, refl, sym, ap, ◌∙◌,
  arith, Text, text_eq, text_eq_iff, text_eq_refl, ltb, ltb→lt, find, any, length, All, All-mono,
  All-zip, find-none, any-false, find-none-any, Bool-cases, Option-cases, inl, inr, and_parts,
}
use kal.Guard.{
  SelectionSet, Document, GuardLimits, Tally, named, deepen, walk_selections, walk_all, no_tally,
  tally, is_sensitive, is_repeated, judge, intercept_operation,
}
use kal.Guard.Counts.{
  occurrences, selected, nesting, Counted, walk-Counted, walk_depth, deepen-le, deepened,
  deepen-Counted, named-inv,
}

unfoldable pub all_selected : List SelectionSet → List Text → List Text
unfolding selected
all_selected [] seen = seen
all_selected (set ∷ sets) seen = all_selected sets (selected set seen)

-- The names of all fields of a document, each fragment taken once, where it is defined.
abbrev pub names : Document → List Text
names doc = all_selected doc.fragments (all_selected doc.operations [])

-- The deepest level of the sets: a field without selections of its own opens one more.
unfoldable pub deepest : List SelectionSet → ℕ
unfolding nesting
deepest [] = 0
deepest (set ∷ sets) = max (1 + nesting set) (deepest sets)

walk_all-Counted :
    (sets : List SelectionSet) (t : Tally) (seen : List Text)
    → Counted t seen
    → Counted (walk_all sets t) (all_selected sets seen)
unfolding walk_all all_selected
walk_all-Counted [] t seen c = c
walk_all-Counted (set ∷ sets) t seen c =
    walk_all-Counted sets (walk_selections set 1 (deepen 1 t)) (selected set seen)
      (walk-Counted set 1 (deepen 1 t) seen (deepen-Counted 1 t seen c))

walk_all_depth :
    (sets : List SelectionSet) (t : Tally) → (walk_all sets t).depth ≡ max t.depth (deepest sets)
unfolding walk_all deepest
walk_all_depth [] t = omega arith
walk_all_depth (set ∷ sets) t =
    let one = walk_depth set 1 (deepen 1 t) (deepen-le 1 t) ∙ deepened 1 t (nesting set) in
    let rest = walk_all_depth sets (walk_selections set 1 (deepen 1 t)) in omega (arith, one, rest)

tally-Counted : (doc : Document) → Counted (tally doc) (names doc)
unfolding tally occurrences
tally-Counted doc =
    walk_all-Counted doc.fragments (walk_all doc.operations no_tally)
      (all_selected doc.operations [])
      (walk_all-Counted doc.operations no_tally []
        (record { exact = tt; complete = none_seen; total = refl }))
  where
    none_seen : (n : Text) → 0 < occurrences n [] → any (named n) [] ≡ true
    none_seen n h = absurd (omega arith)

tally_depth :
    (doc : Document) → (tally doc).depth ≡ max (deepest doc.operations) (deepest doc.fragments)
unfolding tally
tally_depth doc =
    let first = walk_all_depth doc.operations no_tally in
    omega (arith, first, walk_all_depth doc.fragments (walk_all doc.operations no_tally))

-- An element that passes the test, with what holds of all of them.
any-All :
    {A : Type 0} (P : A → Type 0) (p : A → Bool) (xs : List A)
    → any p xs ≡ true
    → All P xs
    → (x : A) × (p x ≡ true) × P x
unfolding any
any-All P p [] h k = cc
any-All P p (x ∷ xs) h k = elim (Bool-cases (p x)) [
  | inl hit ↦ (x, hit, k.0)
  | inr miss ↦ any-All P p xs (rw miss at h) k.1
]

module _ (g : GuardLimits) (doc : Document) where
  abbrev pub Once : Type 0
  Once = All (λ n. occurrences n (names doc) ≤ 1) g.sensitive

  once-unrepeated :
      (e : Text × ℕ) → Once → e.1 ≡ occurrences e.0 (names doc) → is_repeated g e ≡ false
  once-unrepeated (n, c) once exact = elim (Bool-cases (is_repeated g (n, c))) [
    | inr fine ↦ fine
    | inl bad ↦
        let (twice, listed) = and_parts (ltb 1 c) (is_sensitive g n) bad in
        let (m, same, le) =
          any-All (λ m. occurrences m (names doc) ≤ 1) (λ m. text_eq m n) g.sensitive listed once in
        let q : occurrences m (names doc) ≡ c =
          ap (λ x. occurrences x (names doc)) ((text_eq_iff m n).0 same) ∙ sym exact in
        absurd (omega (arith, q, le, ltb→lt 1 c twice))
  ]

  -- Each name is on its own list.
  listed : (ns : List Text) → All (λ n. any (λ m. text_eq m n) ns ≡ true) ns
  unfolding any
  listed [] = tt
  listed (n ∷ ns) = (
    rw (text_eq_refl n) refl,
    All-mono (λ m. any (λ x. text_eq x m) ns ≡ true) (λ m. any (λ x. text_eq x m) (n ∷ ns) ≡ true)
        ns (λ m h. ground (arith, h)) (listed ns),
  )

  unrepeated-once :
      (n : Text)
      → find (is_repeated g) (tally doc).counts ≡ none
      → is_sensitive g n ≡ true
      → occurrences n (names doc) ≤ 1
  unrepeated-once n h sensitive = elim (Bool-cases (ltb 1 (occurrences n (names doc)))) [
    | inr fine ↦ ground arith
    | inl bad ↦ absurd (never bad)
  ]
    where
      c : Counted (tally doc) (names doc)
      c = tally-Counted doc

      never : ltb 1 (occurrences n (names doc)) ≡ true → ⊥
      never bad =
          let (e, hit, (exact, single)) =
            any-All (λ e. (e.1 ≡ occurrences e.0 (names doc)) × (is_repeated g e ≡ false)) (named n)
              (tally doc).counts (c.complete n (omega (arith, ltb→lt 1 _ bad))) entries in
          clash e (named-inv n e hit) exact single
        where
          entries :
              All
                (λ e. (e.1 ≡ occurrences e.0 (names doc)) × (is_repeated g e ≡ false))
                (tally doc).counts
          entries =
              All-zip (λ e. e.1 ≡ occurrences e.0 (names doc)) (λ e. is_repeated g e ≡ false)
                (λ e. (e.1 ≡ occurrences e.0 (names doc)) × (is_repeated g e ≡ false))
                (tally doc).counts (λ e x y. (x, y)) c.exact
                (any-false (is_repeated g) (tally doc).counts
                  (find-none-any (is_repeated g) (tally doc).counts h))

          clash :
              (e : Text × ℕ)
              → e.0 ≡ n
              → e.1 ≡ occurrences e.0 (names doc)
              → is_repeated g e ≡ false
              → ⊥
          clash (m, k) q exact single =
              let often : k ≡ occurrences n (names doc) =
                exact ∙ ap (λ x. occurrences x (names doc)) q in
              cc (
                single,
                ap (λ x. ltb 1 x && is_sensitive g m) often,
                ap (λ x. ltb 1 (occurrences n (names doc)) && is_sensitive g x) q,
                ap (λ b. b && is_sensitive g n) bad,
                sensitive,
              )

  within_limits :
      (t : Tally) → judge g t none ≡ none → (t.total ≤ g.max_aliases) × (t.depth ≤ g.max_depth)
  within_limits t h = (ground arith, ground arith)

  limits_within :
      (t : Tally) → t.total ≤ g.max_aliases → t.depth ≤ g.max_depth → judge g t none ≡ none
  limits_within t total depth = ground arith

  -- The guard lets a document through exactly when no sensitive field stands twice in it, whatever
  -- its aliases and wherever it stands; its fields are at most as many as allowed; and no operation
  -- and no fragment is nested deeper than allowed, each fragment measured by itself.
  pub intercept_iff : (intercept_operation g doc ≡ none) ↔ (
      All (λ n. occurrences n (names doc) ≤ 1) g.sensitive
      × (length (names doc) ≤ g.max_aliases)
      × (max (deepest doc.operations) (deepest doc.fragments) ≤ g.max_depth))
  unfolding intercept_operation
  intercept_iff = (passed, passes)
    where
      c : Counted (tally doc) (names doc)
      c = tally-Counted doc

      passed :
          judge g (tally doc) (find (is_repeated g) (tally doc).counts) ≡ none
          → All (λ n. occurrences n (names doc) ≤ 1) g.sensitive
            × (length (names doc) ≤ g.max_aliases)
            × (max (deepest doc.operations) (deepest doc.fragments) ≤ g.max_depth)
      passed h = elim (Option-cases (find (is_repeated g) (tally doc).counts)) [
        | inr ((n, k), e) ↦ absurd (cc (ap (judge g (tally doc)) e, h))
        | inl e ↦
            let (total, depth) = within_limits (tally doc) (sym (ap (judge g (tally doc)) e) ∙ h) in
            (
              All-mono (λ n. is_sensitive g n ≡ true) (λ n. occurrences n (names doc) ≤ 1)
                  g.sensitive (λ n s. unrepeated-once n e s) (listed g.sensitive),
              omega (arith, c.total, total),
              omega (arith, tally_depth doc, depth),
            )
      ]

      passes :
          All (λ n. occurrences n (names doc) ≤ 1) g.sensitive
            × (length (names doc) ≤ g.max_aliases)
            × (max (deepest doc.operations) (deepest doc.fragments) ≤ g.max_depth)
          → judge g (tally doc) (find (is_repeated g) (tally doc).counts) ≡ none
      passes (once, total, depth) =
          ap (judge g (tally doc)) (
            find-none (is_repeated g) (tally doc).counts (
              All-mono (λ e. e.1 ≡ occurrences e.0 (names doc)) (λ e. is_repeated g e ≡ false)
                (tally doc).counts (λ e exact. once-unrepeated e once exact) c.exact))
          ∙ limits_within (tally doc) (omega (arith, c.total, total))
              (omega (arith, tally_depth doc, depth))
