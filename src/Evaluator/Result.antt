-- ===== src/Evaluator/Result.antt =====
-- Results and outcomes of internal/evaluator/evaluator.go, and the readers of result metadata in
-- internal/evaluator/conftest_evaluator.go. The parser of times is a parameter.
use ec_cli.Base.{
  ℕ, Text, lit, List, [], ◌∷◌, ◌++◌, is_empty, Option, none, some, Bool, true, ◌==◌, text_eq, ltb,
  if◌then◌else◌, Dict, lookup,
}
use ec_cli.Evaluator.Criteria.{TimeParser}

-- An element of an `[]any`: a string, or any other value, which the code never looks into.
pub data Element : Type 0 where
  text : Text → Element
  opaque : ℕ → Element

-- A value of the metadata map: a `string`, a `[]string`, an `[]any` or any other.
pub data Value : Type 0 where
  string : Text → Value
  strings : List Text → Value
  array : List Element → Value
  other : ℕ → Value

abbrev pub Metadata : Type 0
Metadata = Dict Value

-- The metadata is `none` where the source has a nil map.
pub record Result : Type 0 where
  pub message : Text
  pub metadata : Option Metadata
  pub outputs : List Text

pub record Outcome : Type 0 where
  pub file_name : Text
  pub namespace : Text
  pub successes : List Result
  pub skipped : List Result
  pub warnings : List Result
  pub failures : List Result
  pub exceptions : List Result

abbrev pub metadata_code : Text
metadata_code = lit "code"

abbrev pub metadata_collections : Text
metadata_collections = lit "collections"

abbrev pub metadata_depends_on : Text
metadata_depends_on = lit "depends_on"

abbrev pub metadata_description : Text
metadata_description = lit "description"

abbrev pub metadata_severity : Text
metadata_severity = lit "severity"

abbrev pub metadata_effective_on : Text
metadata_effective_on = lit "effective_on"

abbrev pub metadata_solution : Text
metadata_solution = lit "solution"

abbrev pub metadata_term : Text
metadata_term = lit "term"

abbrev pub metadata_title : Text
metadata_title = lit "title"

-- `r.Metadata[key]`
unfoldable pub get_metadata : Result → Text → Option Value
get_metadata r key = elim r.metadata [ none ↦ none | some m ↦ lookup key m ]

unfoldable pub texts_of : List Element → List Text
texts_of [] = []
texts_of (text t ∷ es) = let rest = texts_of es in if is_empty t then rest else t ∷ rest
texts_of (opaque n ∷ es) = texts_of es

unfoldable pub strings_of_value : Option Value → List Text
strings_of_value (some (string t)) = if is_empty t then [] else t ∷ []
strings_of_value (some (array es)) = texts_of es
strings_of_value _ = []

unfoldable pub extract_strings_from_metadata : Result → Text → List Text
extract_strings_from_metadata r key = strings_of_value (get_metadata r key)

unfoldable pub extract_string_from_metadata : Result → Text → Text
extract_string_from_metadata r key = elim (extract_strings_from_metadata r key) [
  | [] ↦ []
  | value ∷ _ ↦ value
]

unfoldable pub at_collections : List Text → List Text
at_collections [] = []
at_collections (c ∷ cs) = (lit "@" ++ c) ∷ at_collections cs

unfoldable pub collections_of_value : Option Value → List Text
collections_of_value (some (strings cs)) = at_collections cs
collections_of_value _ = []

unfoldable pub extract_collections : Result → List Text
extract_collections r = collections_of_value (get_metadata r metadata_collections)

-- The severities that `getSeverity` returns; `unspecified` is its empty string.
pub data Severity : Type 0 where
  unspecified warning failure : Severity

unfoldable pub severity_of_value : Option Value → Severity
severity_of_value (some (string t)) =
    if t == lit "failure" then failure else if t == lit "warning" then warning else unspecified
severity_of_value _ = unspecified

unfoldable pub get_severity : Result → Severity
get_severity r = severity_of_value (get_metadata r metadata_severity)

unfoldable pub effective_value : TimeParser → ℕ → Option Value → Bool
effective_value parse now (some (string t)) = elim (parse t) [
  | none ↦ true
  | some effective_on ↦ ltb effective_on now
]
effective_value parse now _ = true

unfoldable pub is_result_effective : TimeParser → Result → ℕ → Bool
is_result_effective parse r now = effective_value parse now (get_metadata r metadata_effective_on)
