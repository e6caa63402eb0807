-- ===== src/Guard/Counts.antt =====
-- What the walk of a document counts: each field name as often as it is selected, and the deepest
-- nesting.
use Prim.Native.Nat.{max}
use kal.Base.{
  ℕ, suc, ◌+◌, ◌≤◌, ◌<◌, true, false, List, [], ◌∷◌, ◌≡◌, ◌≢◌, ltb→lt, refl, sym, ap, subst, ◌∙◌,
  arith, Text, text_eq, text_eq_iff, text_eq_refl, if◌then◌else◌, ltb, any, update, length, All,
  any-update, any-false, Bool-cases, inl, inr,
}
use kal.Guard.{
  Selection, field, inline_fragment, fragment_spread, SelectionSet, end, item, Tally, named,
  increment, count, deepen, walk_selections, walk_selection,
}

-- How often a name stands in a list.
unfoldable pub occurrences : Text → List Text → ℕ
unfolding text_eq
occurrences n [] = 0
occurrences n (m ∷ ms) = let rest = occurrences n ms in if text_eq m n then rest + 1 else rest

-- The names of the fields of a selection set, in front of those already met.
unfoldable mutual
  pub selected : SelectionSet → List Text → List Text
  selected end seen = seen
  selected (item s rest) seen = selected rest (selected_by s seen)

  pub selected_by : Selection → List Text → List Text
  selected_by (field n set) seen = selected set (n ∷ seen)
  selected_by (inline_fragment set) seen = selected set seen
  selected_by (fragment_spread n) seen = seen

-- The nesting of fields below a selection set; fragments are not entered.
unfoldable mutual
  pub nesting : SelectionSet → ℕ
  nesting end = 0
  nesting (item s rest) = max (nesting_by s) (nesting rest)

  pub nesting_by : Selection → ℕ
  nesting_by (field n set) = suc (nesting set)
  nesting_by (inline_fragment set) = nesting set
  nesting_by (fragment_spread n) = 0

abbrev Exact : List Text → Text × ℕ → Type 0
Exact seen e = e.1 ≡ occurrences e.0 seen

-- A tally of the names that were met.
pub record Counted (t : Tally) (seen : List Text) : Type 0 where
  pub exact : All (Exact seen) t.counts
  pub complete : (n : Text) → 0 < occurrences n seen → any (named n) t.counts ≡ true
  pub total : t.total ≡ length seen

occurrences-here : (n : Text) (seen : List Text) → occurrences n (n ∷ seen) ≡ occurrences n seen + 1
unfolding occurrences
occurrences-here n seen =
    ap (λ b. if b then occurrences n seen + 1 else occurrences n seen) (text_eq_refl n)

occurrences-other :
    (m n : Text) (seen : List Text) → m ≢ n → occurrences n (m ∷ seen) ≡ occurrences n seen
unfolding occurrences
occurrences-other m n seen ne = elim (Bool-cases (text_eq m n)) [
  | inl e ↦ absurd (ne ((text_eq_iff m n).0 e))
  | inr e ↦ rw e refl
]

pub named-inv : (n : Text) (e : Text × ℕ) → named n e ≡ true → e.0 ≡ n
named-inv n (m, c) h = (text_eq_iff m n).0 h

not_named : (n : Text) (e : Text × ℕ) → named n e ≡ false → n ≢ e.0
not_named n (m, c) h q = cc (h, (text_eq_iff m n).1 (sym q))

-- The entries after the increment.
increment-Exact :
    (n : Text) (counts : List (Text × ℕ)) (seen : List Text)
    → All (Exact seen) counts
    → (any (named n) counts ≡ false → occurrences n seen ≡ 0)
    → All (Exact (n ∷ seen)) (increment n counts)
unfolding increment
increment-Exact n counts seen h new = elim (Bool-cases (any (named n) counts)) [
  | inl known ↦ rw known (bumped counts h)
  | inr absent ↦ rw absent (
    sym (occurrences-here n seen ∙ ap (λ k. k + 1) (new absent)),
    untouched counts (any-false (named n) counts absent) h,
  )
]
  where
    one_more :
        (e : Text × ℕ) → e.0 ≡ n → e.1 ≡ occurrences e.0 seen → e.1 + 1 ≡ occurrences e.0 (n ∷ seen)
    one_more (m, c) q k =
        ap (λ x. x + 1) (k ∙ ap (λ x. occurrences x seen) q)
        ∙ sym (occurrences-here n seen)
        ∙ ap (λ x. occurrences x (n ∷ seen)) (sym q)

    bumped :
        (es : List (Text × ℕ))
        → All (Exact seen) es
        → All (Exact (n ∷ seen)) (update (named n) (λ e. (e.0, e.1 + 1)) es)
    bumped [] k = tt
    bumped (e ∷ es) k = elim (Bool-cases (named n e)) [
      | inl hit ↦ rw hit (one_more e (named-inv n e hit) k.0, bumped es k.1)
      | inr miss ↦
          rw miss (k.0 ∙ sym (occurrences-other n e.0 seen (not_named n e miss)), bumped es k.1)
    ]

    untouched :
        (es : List (Text × ℕ))
        → All (λ e. named n e ≡ false) es
        → All (Exact seen) es
        → All (Exact (n ∷ seen)) es
    untouched [] a k = tt
    untouched (e ∷ es) a k =
        (k.0 ∙ sym (occurrences-other n e.0 seen (not_named n e a.0)), untouched es a.1 k.1)

any-increment-here :
    (n : Text) (counts : List (Text × ℕ)) → any (named n) (increment n counts) ≡ true
unfolding increment any
any-increment-here n counts = elim (Bool-cases (any (named n) counts)) [
  | inl known ↦
      rw known (any-update (named n) (named n) (λ e. (e.0, e.1 + 1)) counts (λ e. refl) ∙ known)
  | inr absent ↦ rw (absent, text_eq_refl n) refl
]

any-increment-other :
    (m n : Text) (counts : List (Text × ℕ))
    → any (named m) counts ≡ true
    → any (named m) (increment n counts) ≡ true
unfolding increment any
any-increment-other m n counts h = elim (Bool-cases (any (named n) counts)) [
  | inl known ↦
      rw known (any-update (named m) (named n) (λ e. (e.0, e.1 + 1)) counts (λ e. refl) ∙ h)
  | inr absent ↦ rw absent (ground (arith, h))
]

count-Counted :
    (n : Text) (t : Tally) (seen : List Text) → Counted t seen → Counted (count n t) (n ∷ seen)
count-Counted n t seen c = record {
  exact = increment-Exact n t.counts seen c.exact unseen;
  complete = complete;
  total = omega (arith, c.total);
}
  where
    unseen : any (named n) t.counts ≡ false → occurrences n seen ≡ 0
    unseen absent = elim (Bool-cases (ltb 0 (occurrences n seen))) [
      | inl some_times ↦
          absurd (cc (absent, c.complete n (ltb→lt 0 (occurrences n seen) some_times)))
      | inr never ↦ ground arith
    ]

    complete :
        (m : Text) → 0 < occurrences m (n ∷ seen) → any (named m) (increment n t.counts) ≡ true
    complete m h = elim (Bool-cases (text_eq n m)) [
      | inl e ↦
          subst (λ x. any (named x) (increment n t.counts) ≡ true) ((text_eq_iff n m).0 e)
            (any-increment-here n t.counts)
      | inr e ↦ any-increment-other m n t.counts (
          c.complete m (
            subst (λ k. 0 < k) (occurrences-other n m seen (λ q. cc (e, (text_eq_iff n m).1 q))) h))
    ]

pub deepen-Counted :
    (level : ℕ) (t : Tally) (seen : List Text) → Counted t seen → Counted (deepen level t) seen
deepen-Counted level t seen c = record { exact = c.exact; complete = c.complete; total = c.total }

-- The walk counts every field of the set, fragments aside.
mutual
  unfolding walk_selections selected

  pub walk-Counted :
      (set : SelectionSet) (level : ℕ) (t : Tally) (seen : List Text)
      → Counted t seen
      → Counted (walk_selections set level t) (selected set seen)
  walk-Counted end level t seen c = c
  walk-Counted (item s rest) level t seen c =
      walk-Counted rest level (walk_selection s level t) (selected_by s seen)
        (walk_one-Counted s level t seen c)

  walk_one-Counted :
      (s : Selection) (level : ℕ) (t : Tally) (seen : List Text)
      → Counted t seen
      → Counted (walk_selection s level t) (selected_by s seen)
  walk_one-Counted (field n set) level t seen c =
      walk-Counted set (level + 1) (deepen (level + 1) (count n t)) (n ∷ seen)
        (deepen-Counted (level + 1) (count n t) (n ∷ seen) (count-Counted n t seen c))
  walk_one-Counted (inline_fragment set) level t seen c =
      walk-Counted set level (deepen level t) seen (deepen-Counted level t seen c)
  walk_one-Counted (fragment_spread n) level t seen c = c

pub deepen-le : (level : ℕ) (t : Tally) → level ≤ (deepen level t).depth
deepen-le level t = ground arith

pub deepened :
    (level : ℕ) (t : Tally) (n : ℕ)
    → max (deepen level t).depth (level + n) ≡ max t.depth (level + n)
deepened level t n = elim (Bool-cases (ltb t.depth level)) [
  | inl deeper ↦
      ap (λ b. max (if b then level else t.depth) (level + n)) deeper
      ∙ omega (arith, ltb→lt t.depth level deeper)
  | inr enough ↦ ap (λ b. max (if b then level else t.depth) (level + n)) enough
]

-- The walk finds the deepest level below the one that it starts at.
mutual
  unfolding walk_selections nesting

  pub walk_depth :
      (set : SelectionSet) (level : ℕ) (t : Tally)
      → level ≤ t.depth
      → (walk_selections set level t).depth ≡ max t.depth (level + nesting set)
  walk_depth end level t h = omega arith
  walk_depth (item s rest) level t h =
      let one = walk_one_depth s level t h in
      omega (arith, one, walk_depth rest level (walk_selection s level t) (omega (arith, one)))

  walk_one_depth :
      (s : Selection) (level : ℕ) (t : Tally)
      → level ≤ t.depth
      → (walk_selection s level t).depth ≡ max t.depth (level + nesting_by s)
  walk_one_depth (field n set) level t h =
      walk_depth set (level + 1) (deepen (level + 1) (count n t))
        (deepen-le (level + 1) (count n t))
      ∙ deepened (level + 1) (count n t) (nesting set)
      ∙ omega arith
  walk_one_depth (inline_fragment set) level t h =
      walk_depth set level (deepen level t) (deepen-le level t) ∙ deepened level t (nesting set)
  walk_one_depth (fragment_spread n) level t h = omega arith
