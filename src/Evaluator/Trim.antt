-- ===== src/Evaluator/Trim.antt =====
-- `trim` and `excludeDirectives` of internal/evaluator/conftest_evaluator.go: dropping the results
-- that depend on a reported rule, and the advice that is added to failures.
pub mod Dependencies
pub mod Advice
use ec_cli.Base.{
  ℕ, zero, suc, Text, lit, List, [], ◌∷◌, ◌++◌, is_empty, Option, none, some, ◌==◌, not, contains,
  count_if, length, text_eq, nat_eq, ltb, if◌then◌else◌, TextSet, add, insert, join,
}
use ec_cli.Evaluator.Result.{
  Result, Outcome, Value, string, strings, array, Element, text, opaque, get_metadata,
  metadata_code, metadata_depends_on, metadata_description, metadata_term,
}

unfoldable pub add_code : Option Value → TextSet → TextSet
add_code (some (string code)) reported = add code reported
add_code _ reported = reported

unfoldable pub add_codes : List Result → TextSet → TextSet
add_codes [] reported = reported
add_codes (r ∷ results) reported =
    add_codes results (add_code (get_metadata r metadata_code) reported)

unfoldable pub collect_reported : List Outcome → TextSet → TextSet
collect_reported [] reported = reported
collect_reported (o ∷ outcomes) reported =
    collect_reported outcomes
      (add_codes o.skipped (add_codes o.warnings (add_codes o.failures reported)))

-- The codes of all failures, warnings and skipped results.
unfoldable pub reported_codes : List Outcome → TextSet
reported_codes outcomes = collect_reported outcomes []

unfoldable pub copies_of_value : TextSet → Option Value → ℕ
copies_of_value reported (some (strings ds)) = count_if (λ d. not (contains reported d)) ds
copies_of_value reported _ = 1

-- How many times `trimOutput` appends a result: once for each dependency that is not reported, and
-- once where no list of dependencies is given.
unfoldable pub copies : TextSet → Result → ℕ
copies reported r = copies_of_value reported (get_metadata r metadata_depends_on)

unfoldable pub replicate : ℕ → Result → List Result
replicate zero r = []
replicate (suc n) r = r ∷ replicate n r

unfoldable pub trim_output : TextSet → List Result → List Result
trim_output reported [] = []
trim_output reported (r ∷ what) = replicate (copies reported r) r ++ trim_output reported what

unfoldable pub quoted : Text → Text
quoted s = lit "\"" ++ (s ++ lit "\"")

unfoldable pub term_directives : Text → List Element → List Text
term_directives code [] = []
term_directives code (text t ∷ es) =
    let rest = term_directives code es in
    if is_empty t then rest else quoted (code ++ (lit ":" ++ t)) ∷ rest
term_directives code (opaque n ∷ es) = term_directives code es

unfoldable pub directives_of : Text → Option Value → List Text
directives_of code (some (string t)) =
    if is_empty t then [] else quoted (code ++ (lit ":" ++ t)) ∷ []
directives_of code (some (array es)) = term_directives code es
directives_of code _ = []

unfoldable pub or_code : Text → List Text → List Text
or_code code [] = quoted code ∷ []
or_code code (d ∷ ds) = d ∷ ds

unfoldable pub exclude_directives : Text → Option Value → Text
exclude_directives code term =
    let output = or_code code (directives_of code term) in
    (if ltb 1 (length output) then lit "one or more of " else []) ++ join (lit ", ") output

-- `strings.TrimSuffix(s, ".")`
unfoldable pub trim_dot : Text → Text
trim_dot [] = []
trim_dot (c ∷ []) = if c == b'.' then [] else c ∷ []
trim_dot (c ∷ d ∷ s) = c ∷ trim_dot (d ∷ s)

-- `r.Metadata[key] = v`, on a map that is not nil.
unfoldable pub set_metadata : Text → Value → Result → Result
set_metadata key v r = elim r.metadata [
  | none ↦ r
  | some m ↦ record r { metadata = some (insert key v m) }
]

unfoldable pub note_of : Option Value → Option Value → Option Value → Option Text
note_of (some (string description)) (some (string code)) term = some (
    trim_dot description
    ++ lit ". To exclude this rule add "
    ++ exclude_directives code term
    ++ lit " to the `exclude` section of the policy configuration.")
note_of _ _ term = none

-- One round of the loop of `addNote`.
unfoldable pub add_note : Result → Result
add_note r =
    elim (note_of (get_metadata r metadata_description) (get_metadata r metadata_code)
      (get_metadata r metadata_term)) [
        | none ↦ r
        | some note ↦ set_metadata metadata_description (string note) r
      ]

unfoldable pub add_notes : ℕ → Result → Result
add_notes zero r = r
add_notes (suc n) r = add_notes n (add_note r)

-- `addNote(trimOutput(failures))`: the copies of one failure share its metadata map, so that each
-- of their rounds changes the map that all of them show. A result of the exceptions that shares the
-- map as well stays as it is here.
unfoldable pub trim_failures : TextSet → List Result → List Result
trim_failures reported [] = []
trim_failures reported (r ∷ what) =
    let n = copies reported r in replicate n (add_notes n r) ++ trim_failures reported what

unfoldable pub trim_outcome : TextSet → Outcome → Outcome
trim_outcome reported o = record o {
  failures = trim_failures reported o.failures;
  warnings = trim_output reported o.warnings;
  skipped = trim_output reported o.skipped;
  successes = trim_output reported o.successes;
}

unfoldable pub trim_outcomes : TextSet → List Outcome → List Outcome
trim_outcomes reported [] = []
trim_outcomes reported (o ∷ outcomes) = trim_outcome reported o ∷ trim_outcomes reported outcomes

unfoldable pub trim : List Outcome → List Outcome
trim outcomes = trim_outcomes (reported_codes outcomes) outcomes
