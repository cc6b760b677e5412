-- ===== src/Evaluator/Postfilter.antt =====
-- What is kept of the results after an evaluation, and as what it is reported: the legacy and the
-- unified post-evaluation filter of internal/evaluator/filters.go.
pub mod Inclusion
pub mod Partition
use ec_cli.Base.{
  ℕ, Text, List, [], ◌∷◌, ◌++◌, is_empty, none, some, Bool, true, false, ◌==◌, ◌||◌, not, any, keep,
  contains, text_eq, ltb, if◌then◌else◌, TextSet,
}
use ec_cli.Evaluator.Info.{PolicyRules}
use ec_cli.Evaluator.Criteria.{Criteria, ReferenceParser, TimeParser, get}
use ec_cli.Evaluator.Score.{legacy_score_matches}
use ec_cli.Evaluator.Result.{
  Result, Outcome, extract_string_from_metadata, metadata_code, metadata_effective_on, get_metadata,
  Severity, get_severity, is_result_effective,
}
use ec_cli.Evaluator.Matchers.{legacy_make_matchers}
use ec_cli.Evaluator.Resolver.{PolicyResolver, ec, include_exclude, BaseResolver, resolve_policy}

-- The name is a matcher of one of the results.
unfoldable pub matched_by : List Result → Text → Bool
matched_by results name = any (λ r. contains (legacy_make_matchers r) name) results

module _ (parse : ReferenceParser) where
  -- Whether the result is included, and the include criteria that are still unmatched.
  unfoldable pub legacy_is_result_included :
      Result → Text → TextSet → Criteria → Criteria → Bool × TextSet
  legacy_is_result_included result target missing include exclude =
      let matchers = legacy_make_matchers result in
      let (include_score, missing') =
        legacy_score_matches matchers (get parse include target) missing in
      let (exclude_score, _) = legacy_score_matches matchers (get parse exclude target) [] in
      (ltb exclude_score include_score, missing')

  -- `LegacyPostEvaluationFilter.FilterResults`
  unfoldable pub legacy_filter_results :
      Criteria → Criteria → Text → List Result → TextSet → List Result × TextSet
  legacy_filter_results include exclude target [] missing = ([], missing)
  legacy_filter_results include exclude target (r ∷ results) missing =
      let (included, missing') = legacy_is_result_included r target missing include exclude in
      let (kept, missing'') = legacy_filter_results include exclude target results missing' in
      (if included then r ∷ kept else kept, missing'')

  -- The loop of the unified filter over a resolver without pipeline intentions. A result with no
  -- code is kept and matches nothing.
  unfoldable pub unified_loop : BaseResolver → Text → List Result → TextSet → List Result × TextSet
  unified_loop b target [] missing = ([], missing)
  unified_loop b target (r ∷ results) missing =
      if is_empty (extract_string_from_metadata r metadata_code)
      then (let (kept, missing') = unified_loop b target results missing in (r ∷ kept, missing'))
      else (let (included, missing') =
            legacy_is_result_included r target missing b.include b.exclude in
          let (kept, missing'') = unified_loop b target results missing' in
          (if included then r ∷ kept else kept, missing''))

  -- `UnifiedPostEvaluationFilter.FilterResults`
  unfoldable pub unified_filter_results :
      PolicyResolver → PolicyRules → Text → List Result → TextSet → List Result × TextSet
  unified_filter_results (ec b intentions) rules target results missing =
      let resolution = resolve_policy parse (ec b intentions) rules target in
      let is_kept : Result → Bool = λ r.
        let code = extract_string_from_metadata r metadata_code in
        is_empty code || contains resolution.included_rules code in
      (keep is_kept results, keep (contains resolution.missing_includes) missing)
  unified_filter_results (include_exclude b) rules target results missing =
      let (kept, missing') = unified_loop b target results missing in
      (kept, keep (λ name. not (matched_by kept name)) missing')

-- The four lists that `CategorizeResults` returns.
pub record Categories : Type 0 where
  pub warnings : List Result
  pub failures : List Result
  pub exceptions : List Result
  pub skipped : List Result

abbrev pub no_categories : Categories
no_categories = record { warnings = []; failures = []; exceptions = []; skipped = [] }

pub data OriginalType : Type 0 where
  warning failure exception skip unknown : OriginalType

-- Whether a list of the outcome has a result with the code.
unfoldable pub has_code : Text → List Result → Bool
has_code code = any (λ r. extract_string_from_metadata r metadata_code == code)

unfoldable pub has_message : Text → List Result → Bool
has_message message = any (λ r. r.message == message)

unfoldable pub type_by_message : Result → Outcome → OriginalType
type_by_message r original =
    if has_message r.message original.warnings
    then warning
    else if has_message r.message original.failures
    then failure
    else if has_message r.message original.exceptions
    then exception
    else if has_message r.message original.skipped
    then skip
    else elim (get_metadata r metadata_effective_on) [ none ↦ unknown | some _ ↦ failure ]

unfoldable pub determine_original_type : Result → Outcome → OriginalType
determine_original_type r original =
    let code = extract_string_from_metadata r metadata_code in
    let by_message = type_by_message r original in
    if is_empty code
    then by_message
    else if has_code code original.warnings
    then warning
    else if has_code code original.failures
    then failure
    else if has_code code original.exceptions
    then exception
    else if has_code code original.skipped
    then skip
    else by_message

-- The type that the legacy filter finds: its two loops run one after the other, so a failure of
-- that code wins over a warning.
unfoldable pub legacy_original_type : Result → Outcome → OriginalType
legacy_original_type r original =
    let code = extract_string_from_metadata r metadata_code in
    if has_code code original.failures
    then failure
    else if has_code code original.warnings
    then warning
    else unknown

unfoldable pub is_failure : Severity → Bool
is_failure Severity.failure = true
is_failure _ = false

unfoldable pub is_warning : Severity → Bool
is_warning Severity.warning = true
is_warning _ = false

unfoldable pub as_warning : Result → Categories → Categories
as_warning r c = record c { warnings = c.warnings ++ r ∷ [] }

unfoldable pub as_failure : Result → Categories → Categories
as_failure r c = record c { failures = c.failures ++ r ∷ [] }

-- Both end by adding the exceptions and the skipped results of the outcome.
unfoldable pub add_as_is : Outcome → Categories → Categories
add_as_is original c = record c {
  exceptions = c.exceptions ++ original.exceptions;
  skipped = c.skipped ++ original.skipped;
}

module _ (parse : TimeParser) (effective_time : ℕ) where
  -- The `switch` on the original type.
  unfoldable pub place : OriginalType → Result → Categories → Categories
  place warning r c = if is_failure (get_severity r) then as_failure r c else as_warning r c
  place failure r c =
      if is_warning (get_severity r) || not (is_result_effective parse r effective_time)
      then as_warning r c
      else as_failure r c
  place exception r c = record c { exceptions = c.exceptions ++ r ∷ [] }
  place skip r c = record c { skipped = c.skipped ++ r ∷ [] }
  place unknown r c = as_warning r c

  unfoldable pub unified_categories : List Result → Outcome → Categories → Categories
  unified_categories [] original c = c
  unified_categories (r ∷ results) original c =
      unified_categories results original (place (determine_original_type r original) r c)

  unfoldable pub legacy_categories : List Result → Outcome → Categories → Categories
  legacy_categories [] original c = c
  legacy_categories (r ∷ results) original c =
      legacy_categories results original (place (legacy_original_type r original) r c)

  unfoldable pub unified_categorize_results : List Result → Outcome → Categories
  unified_categorize_results results original =
      add_as_is original (unified_categories results original no_categories)

  unfoldable pub legacy_categorize_results : List Result → Outcome → Categories
  legacy_categorize_results results original =
      add_as_is original (legacy_categories results original no_categories)
