-- ===== src/Guard/Tests.antt =====
-- The guard on a document that selects one sensitive field by way of a fragment.
use Prim.Native.Nat.{max}
use kal.Base.{
  ◌≤◌, ◌≡◌, ◌↔◌, refl, [], ◌∷◌, none, some, Text, codes, length, All, find, any, update, text_eq,
}
use kal.Guard.{
  field, inline_fragment, fragment_spread, SelectionSet, end, item, Document, GuardLimits,
  intercept_operation, repeated, tally, increment, walk_all, walk_selections,
}
use kal.Guard.Counts.{occurrences}
use kal.Guard.Limits.{names, deepest, intercept_iff}

abbrev limits : GuardLimits
limits = record { sensitive = codes "login" ∷ []; max_aliases = 3; max_depth = 4 }

-- A field with one selection below it.
abbrev over : Text → SelectionSet → SelectionSet
over n set = item (field n set) end

abbrev log_in : Document
log_in = record {
  operations = over (codes "m") (item (fragment_spread (codes "f")) end) ∷ [];
  fragments = over (codes "login") (over (codes "id") end) ∷ [];
}

intercept_iff_example : (intercept_operation limits log_in ≡ none) ↔ (
    All (λ n. occurrences n (names log_in) ≤ 1) limits.sensitive
    × (length (names log_in) ≤ limits.max_aliases)
    × (max (deepest log_in.operations) (deepest log_in.fragments) ≤ limits.max_depth))
intercept_iff_example = intercept_iff limits log_in

abbrev two_guesses : Document
two_guesses = record {
  operations =
      item (field (codes "login") end) (item (inline_fragment (over (codes "login") end)) end) ∷ [];
  fragments = [];
}

aliased_guesses : intercept_operation limits two_guesses ≡ some (repeated (codes "login"))
unfolding intercept_operation tally walk_all walk_selections increment any find update text_eq
aliased_guesses = refl
