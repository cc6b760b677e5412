-- ===== src/Evaluator/Score/Matches.antt =====
-- What `LegacyScoreMatches` computes, said without its loops.
use ec_cli.Base.{
  Bool-cases, ◌∙◌, ap, inl, inr, true, ℕ, ◌+◌, ◌≡◌, refl, Text, Bool, List, [], ◌∷◌, ◌&&◌, not,
  arith, ◌==◌, text_eq, if◌then◌else◌, contains, keep, keep-keep, keep_congr, keep_all, TextSet,
  remove,
}
use ec_cli.Evaluator.Score.{legacy_score, score_needle, score_needles, legacy_score_matches}

-- What one needle collects from the haystack.
unfoldable pub hay_total : Text → List Text → ℕ
unfolding text_eq
hay_total needle [] = 0
hay_total needle (hay ∷ haystack) =
    (if hay == needle then legacy_score hay else 0) + hay_total needle haystack

-- The scores of all pairs of equal names.
unfoldable pub match_total : List Text → List Text → ℕ
unfolding hay_total
match_total [] haystack = 0
match_total (needle ∷ needles) haystack = hay_total needle haystack + match_total needles haystack

-- A name that the loop leaves to be pruned.
abbrev survives : Text → List Text → Text → Bool
survives needle haystack j = not (j == needle && contains haystack needle)

survives-nil : (needle j : Text) → survives needle [] j ≡ true
unfolding contains
survives-nil needle j = ground arith

survives-cons :
    (needle hay : Text) (haystack : List Text) (j : Text)
    → (if hay == needle
        then not (j == hay) && survives needle haystack j
        else survives needle haystack j)
      ≡ survives needle (hay ∷ haystack) j
unfolding contains
survives-cons needle hay haystack j = ground arith

score_needle_lem :
    (needle : Text) (haystack : List Text) (s : ℕ) (pruned : TextSet)
    → score_needle needle haystack (s, pruned)
      ≡ (s + hay_total needle haystack, keep (survives needle haystack) pruned)
unfolding score_needle hay_total remove
score_needle_lem needle [] s pruned =
    ground (arith, keep_all (survives needle []) pruned (survives-nil needle))
score_needle_lem needle (hay ∷ haystack) s pruned = elim (Bool-cases (hay == needle)) [
  | inl e ↦ rw e (
      score_needle_lem needle haystack (s + legacy_score hay) (keep (λ j. not (j == hay)) pruned)
      ∙ ground (
        arith,
        keep-keep (survives needle haystack) (λ j. not (j == hay)) pruned,
        keep_congr (λ j. not (j == hay) && survives needle haystack j)
            (survives needle (hay ∷ haystack)) pruned
            (λ j. rw e at (survives-cons needle hay haystack j)),
      ))
  | inr e ↦ rw e (
      score_needle_lem needle haystack s pruned
      ∙ ground (
        arith,
        keep_congr (survives needle haystack) (survives needle (hay ∷ haystack)) pruned
            (λ j. rw e at (survives-cons needle hay haystack j)),
      ))
]

-- A name that stands in both lists.
abbrev pub is_common : List Text → List Text → Text → Bool
is_common needles haystack name = contains needles name && contains haystack name

survives-needles :
    (needle : Text) (needles haystack : List Text) (j : Text)
    → (survives needle haystack j && not (is_common needles haystack j))
      ≡ not (is_common (needle ∷ needles) haystack j)
unfolding contains
survives-needles needle needles haystack j = ground arith

score_needles_lem :
    (needles haystack : List Text) (s : ℕ) (pruned : TextSet)
    → score_needles needles haystack (s, pruned)
      ≡ (s + match_total needles haystack, keep (λ j. not (is_common needles haystack j)) pruned)
unfolding score_needles match_total
score_needles_lem [] haystack s pruned =
    ground
      (arith, keep_all (λ j. not (is_common [] haystack j)) pruned (λ j. unfold contains in refl))
score_needles_lem (needle ∷ needles) haystack s pruned =
    ap (score_needles needles haystack) (score_needle_lem needle haystack s pruned)
    ∙ score_needles_lem needles haystack (s + hay_total needle haystack)
        (keep (survives needle haystack) pruned)
    ∙ ground (
      arith,
      keep-keep (λ j. not (is_common needles haystack j)) (survives needle haystack) pruned,
      keep_congr (λ j. survives needle haystack j && not (is_common needles haystack j))
          (λ j. not (is_common (needle ∷ needles) haystack j)) pruned
          (survives-needles needle needles haystack),
    )

-- The score of a match is the sum of the scores of all pairs of equal names, and exactly the names
-- that stand in both lists are pruned.
pub legacy_score_matches_lem :
    (needles haystack : List Text) (pruned : TextSet)
    → legacy_score_matches needles haystack pruned
      ≡ (match_total needles haystack, keep (λ j. not (is_common needles haystack j)) pruned)
unfolding legacy_score_matches
legacy_score_matches_lem needles haystack pruned =
    score_needles_lem needles haystack 0 pruned ∙ ground arith
