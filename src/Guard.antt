-- ===== src/Guard.antt =====
-- guard.go: the interceptor that rejects abusive documents before any resolver runs.
pub mod Counts
pub mod Limits
mod Tests
use kal.Base.{
  ℕ, suc, ◌+◌, Bool, true, false, ◌&&◌, Option, none, some, List, [], ◌∷◌, String, Text, text_eq,
  if◌then◌else◌, ltb, find, any, update,
}

-- gqlparser's `ast.Selection` and `ast.SelectionSet`: what the walk looks at.
mutual
  pub data Selection : Type 0 where
    field : Text → SelectionSet → Selection
    inline_fragment : SelectionSet → Selection
    fragment_spread : Text → Selection

  pub data SelectionSet : Type 0 where
    end : SelectionSet
    item : Selection → SelectionSet → SelectionSet

-- `ast.QueryDocument`: the selection sets of its operations and of its fragments.
pub record Document : Type 0 where
  pub operations : List SelectionSet
  pub fragments : List SelectionSet

-- `guard`, with `sensitive` as the names that the map holds.
pub record GuardLimits : Type 0 where
  pub sensitive : List Text
  pub max_aliases : ℕ
  pub max_depth : ℕ

-- `counts`, `total` and `depth`, which the walk updates in place.
pub record Tally : Type 0 where
  pub counts : List (Text × ℕ)
  pub total : ℕ
  pub depth : ℕ

abbrev pub named : Text → Text × ℕ → Bool
named n (m, c) = text_eq m n

-- `counts[name]++`.
unfoldable pub increment : Text → List (Text × ℕ) → List (Text × ℕ)
unfolding any update text_eq
increment n counts =
    if any (named n) counts then update (named n) (λ e. (e.0, e.1 + 1)) counts else (n, 1) ∷ counts

abbrev pub count : Text → Tally → Tally
count n t = record t { counts = increment n t.counts; total = t.total + 1 }

abbrev pub deepen : ℕ → Tally → Tally
deepen level t = record t { depth = if ltb t.depth level then level else t.depth }

-- `walkSelections`: the depth first, then the selections in order. A spread is not followed.
unfoldable mutual
  unfolding increment

  pub walk_selections : SelectionSet → ℕ → Tally → Tally
  walk_selections end level t = t
  walk_selections (item s rest) level t = walk_selections rest level (walk_selection s level t)

  pub walk_selection : Selection → ℕ → Tally → Tally
  walk_selection (field n set) level t =
      walk_selections set (level + 1) (deepen (level + 1) (count n t))
  walk_selection (inline_fragment set) level t = walk_selections set level (deepen level t)
  walk_selection (fragment_spread n) level t = t

unfoldable pub walk_all : List SelectionSet → Tally → Tally
unfolding walk_selections
walk_all [] t = t
walk_all (set ∷ sets) t = walk_all sets (walk_selections set 1 (deepen 1 t))

abbrev pub no_tally : Tally
no_tally = record { counts = []; total = 0; depth = 0 }

unfoldable pub tally : Document → Tally
unfolding walk_all
tally doc = walk_all doc.fragments (walk_all doc.operations no_tally)

abbrev pub is_sensitive : GuardLimits → Text → Bool
is_sensitive g n = any (λ m. text_eq m n) g.sensitive

abbrev pub is_repeated : GuardLimits → Text × ℕ → Bool
is_repeated g (n, c) = ltb 1 c && is_sensitive g n

pub data Rejection : Type 0 where
  repeated : Text → Rejection
  too_many_selections : ℕ → Rejection
  nested_too_deeply : ℕ → Rejection

abbrev pub judge : GuardLimits → Tally → Option (Text × ℕ) → Option Rejection
judge g t (some (n, c)) = some (repeated n)
judge g t none =
    if ltb g.max_aliases t.total
    then some (too_many_selections t.total)
    else if ltb g.max_depth t.depth
    then some (nested_too_deeply t.depth)
    else none

-- `InterceptOperation`: the error of the single response, or none where `next` is called. Go's
-- order over a map is any order; here it is that of the list.
unfoldable pub intercept_operation : GuardLimits → Document → Option Rejection
unfolding tally find any text_eq
intercept_operation g doc = judge g (tally doc) (find (is_repeated g) (tally doc).counts)
