-- ===== src/Evaluator/Score.antt =====
-- `LegacyScore` and `LegacyScoreMatches` of internal/evaluator/filters.go: how specific a name of
-- the include or exclude list is, and what a rule collects from such a list.
pub mod Matches
pub mod Names
use ec_cli.Base.{
  ℕ, ◌+◌, ◌-◌, ◌*◌, Text, lit, List, [], ◌∷◌, length, is_empty, ◌&&◌, not, ◌==◌, text_eq, nat_eq,
  if◌then◌else◌, has_prefix, cut, split, join, TextSet, remove,
}

-- `parts[len(parts)-1]` of a list that is not empty
unfoldable pub last : List Text → Text
last [] = []
last (p ∷ []) = p
last (p ∷ q ∷ ps) = last (q ∷ ps)

-- `parts[:len(parts)-1]`
unfoldable pub all_but_last : List Text → List Text
all_but_last [] = []
all_but_last (p ∷ []) = []
all_but_last (p ∷ q ∷ ps) = p ∷ all_but_last (q ∷ ps)

-- The part of the score for what stands before the colon, given with its split at the dots.
unfoldable pub path_score : Text → List Text → ℕ
path_score short_name [] = 0
path_score short_name (p ∷ []) = if short_name == lit "*" then 1 else 10
path_score short_name (p ∷ q ∷ ps) =
    let parts = p ∷ q ∷ ps in
    let rule = last parts in
    let pkg = join (lit ".") (all_but_last parts) in
    (if pkg == lit "*" then 1 else 10 * (length parts - 1))
    + (if not (rule == lit "*") && not (is_empty rule) then 100 else 0)

unfoldable pub legacy_score : Text → ℕ
legacy_score name =
    let (short_name, term, _) = cut b':' name in
    if has_prefix name (lit "@")
    then 10
    else (if is_empty term then 0 else 100) + path_score short_name (split b'.' short_name)

-- The inner loop, over the haystack.
unfoldable pub score_needle : Text → List Text → ℕ × TextSet → ℕ × TextSet
score_needle needle [] state = state
score_needle needle (hay ∷ haystack) (s, to_be_pruned) =
    score_needle needle haystack
      (if hay == needle then (s + legacy_score hay, remove hay to_be_pruned) else (s, to_be_pruned))

unfoldable pub score_needles : List Text → List Text → ℕ × TextSet → ℕ × TextSet
score_needles [] haystack state = state
score_needles (needle ∷ needles) haystack state =
    score_needles needles haystack (score_needle needle haystack state)

-- The score, and what is left of the names to be pruned.
unfoldable pub legacy_score_matches : List Text → List Text → TextSet → ℕ × TextSet
legacy_score_matches needles haystack to_be_pruned =
    score_needles needles haystack (0, to_be_pruned)
