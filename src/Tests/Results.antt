-- ===== src/Tests/Results.antt =====
-- The filters of results, the dependencies between them, and the run of an evaluation.
use ec_cli.Base.{
  any, true, false, ◌≡◌, ◌<◌, ◌≤◌, ◌⊎◌, refl, true, false, ◌==◌, Bool, Text, List, lit, [], ◌∷◌,
  some, contains, text_eq, nat_eq, split, any, keep, onto_first, cut, has_prefix, join, lookup,
  insert, length, All, add, NodupKeys, remove, map,
}
use ec_cli.Evaluator.Criteria.{get, items_of, get_with_key, lookup_keys}
use ec_cli.Evaluator.Score.{
  last, all_but_last, legacy_score, path_score, legacy_score_matches, score_needles, score_needle,
}
use ec_cli.Evaluator.Score.Matches.{match_total, hay_total}
use ec_cli.Evaluator.Matchers.{
  code_matchers, package_matchers, package_of_parts, collection_matchers, legacy_make_matchers,
  term_matchers, with_term,
}
use ec_cli.Evaluator.Result.{
  Result, Outcome, string, strings, metadata_code, metadata_depends_on, get_metadata,
  extract_string_from_metadata, extract_strings_from_metadata, strings_of_value,
  extract_collections, collections_of_value, get_severity, severity_of_value, is_result_effective,
  effective_value, at_collections,
}
use ec_cli.Evaluator.Resolver.{base_of}
use ec_cli.Evaluator.Postfilter.{
  unified_filter_results, unified_categorize_results, legacy_categorize_results, add_as_is,
  matched_by, determine_original_type, legacy_original_type, type_by_message, has_code, has_message,
  is_warning, unified_loop, legacy_is_result_included, unified_categories, place, as_failure,
}
use ec_cli.Evaluator.Postfilter.Inclusion.{passes, passes_or_codeless, unified_filter_results_lem}
use ec_cli.Evaluator.Postfilter.Partition.{
  is_reported_failure, is_exception, is_skipped, categorize_results_lem,
}
use ec_cli.Evaluator.Trim.{trim_output}
use ec_cli.Evaluator.Trim.Dependencies.{
  is_code, lists_dependencies, dependencies, any-trim_output, trim_output_of_two,
}
use ec_cli.Evaluator.Evaluate.{
  annotated, bare, collect, collect_all, ok, err, process_outcome, process_outcomes, report,
  all_criteria, total_rules, nothing_checked, annotate_outcome, map_results, Evaluation, evaluate,
}
use ec_cli.Evaluator.Annotate.{
  add_rule_metadata, add_for_code, add_metadata_to_results, drop_long_past, is_long_past,
  rule_fields, set_texts, set_text, normalize_collections, compute_successes, is_seen, has_seen,
  success_of, successes_from,
}
use ec_cli.Evaluator.Evaluate.Collection.{IsOwnCode, named_rules, collect_all_lem}
use ec_cli.Evaluator.Evaluate.Reports.{
  has_results, included-process_outcome, exceptions-process_outcome, report_lem,
}
use ec_cli.Evaluator.Evaluate.Outputs.{included-evaluate}
use ec_cli.Evaluator.Trim.Advice.{ReportsIncluded}
use ec_cli.Evaluator.Annotate.Successes.{shows, succeeds, reported_success, compute_successes_lem}
use ec_cli.Tests.Data.{
  pinned, by_name, no_time, image, policy, resolver, tasks_only, hermetic, result_of, outcome,
  context,
}

abbrev hermetic_result : Result
hermetic_result = result_of (lit "tasks.hermetic")

abbrev pinned_result : Result
pinned_result = result_of (lit "tasks.pinned")

filtered : List Result
unfolding contains text_eq nat_eq split any keep onto_first cut has_prefix join lookup insert get
    items_of get_with_key lookup_keys last all_but_last legacy_score path_score match_total
    hay_total code_matchers package_matchers package_of_parts collection_matchers
    legacy_make_matchers term_matchers with_term get_metadata extract_string_from_metadata
    extract_strings_from_metadata strings_of_value extract_collections collections_of_value
    get_severity severity_of_value is_result_effective effective_value base_of matched_by
    determine_original_type legacy_original_type type_by_message has_code has_message passes is_code
    is_reported_failure is_exception is_skipped is_warning lists_dependencies dependencies add
    add_as_is remove named_rules
filtered =
    (unified_filter_results by_name resolver policy image (hermetic_result ∷ pinned_result ∷ [])
      []).0

unified_filter_results_lem_example :
    ((unified_filter_results by_name resolver policy image
        (hermetic_result ∷ pinned_result ∷ [])
        (lit "tasks" ∷ [])).0
      ≡ hermetic_result ∷ [])
    × (contains
          (unified_filter_results by_name resolver policy image
            (hermetic_result ∷ pinned_result ∷ [])
            (lit "tasks" ∷ [])).1
          (lit "tasks")
        ≡ false)
unfolding filtered
unified_filter_results_lem_example =
    unified_filter_results_lem by_name tasks_only image policy
      (hermetic_result ∷ pinned_result ∷ []) (lit "tasks" ∷ []) (lit "tasks")

categorize_results_lem_example :
    (unified_categorize_results no_time 0 (hermetic_result ∷ []) outcome ≡ record {
      warnings = [];
      failures = hermetic_result ∷ [];
      exceptions = result_of (lit "slsa.trusted") ∷ [];
      skipped = [];
    })
    × (legacy_categorize_results no_time 0 (hermetic_result ∷ []) outcome ≡ record {
      warnings = [];
      failures = hermetic_result ∷ [];
      exceptions = result_of (lit "slsa.trusted") ∷ [];
      skipped = [];
    })
unfolding filtered
categorize_results_lem_example = categorize_results_lem no_time 0 outcome (hermetic_result ∷ [])

-- A result of a rule with dependencies.
abbrev depending : List Text → Result
depending ds = record {
  message = lit "depends";
  metadata =
      some ((metadata_code, string (lit "slsa.trusted")) ∷ (metadata_depends_on, strings ds) ∷ []);
  outputs = [];
}

abbrev pinned_code : List Text
pinned_code = lit "tasks.pinned" ∷ []

abbrev has_message_depends : Result → Bool
has_message_depends r = r.message == lit "depends"

any-trim_output_example :
    any has_message_depends (trim_output pinned_code (depending pinned_code ∷ [])) ≡ false
unfolding filtered
any-trim_output_example =
    any-trim_output pinned_code (depending pinned_code ∷ []) has_message_depends

trim_output_of_two_example :
    trim_output pinned_code (depending (lit "tasks.pinned" ∷ lit "tasks.hermetic" ∷ []) ∷ [])
    ≡ depending (lit "tasks.pinned" ∷ lit "tasks.hermetic" ∷ []) ∷ trim_output pinned_code []
unfolding filtered
trim_output_of_two_example =
    trim_output_of_two pinned_code (depending (lit "tasks.pinned" ∷ lit "tasks.hermetic" ∷ []))
      (lit "tasks.pinned") (lit "tasks.hermetic") [] refl

collect_all_lem_example :
    NodupKeys ((lit "tasks.hermetic", hermetic) ∷ [])
    × All IsOwnCode ((lit "tasks.hermetic", hermetic) ∷ [])
    × ((lit "tasks.hermetic", hermetic) ∷ []
        ≡ named_rules (annotated hermetic ∷ bare (lit "tasks.pinned") ∷ []))
collect_all_lem_example =
    collect_all_lem (annotated hermetic ∷ bare (lit "tasks.pinned") ∷ [])
      ((lit "tasks.hermetic", hermetic) ∷ []) (lit "tasks.pinned" ∷ [])
      (unfold collect_all collect filtered in refl)

abbrev reported_outcome : Outcome
reported_outcome = (process_outcome context policy policy image outcome []).0

included-process_outcome_example :
    All (λ r. passes_or_codeless by_name tasks_only image r ≡ true) reported_outcome.failures
    × All (λ r. passes_or_codeless by_name tasks_only image r ≡ true) reported_outcome.warnings
included-process_outcome_example =
    included-process_outcome context tasks_only policy policy image outcome [] refl

exceptions-process_outcome_example :
    reported_outcome.exceptions ≡ (annotate_outcome context policy outcome).exceptions
unfolding filtered annotate_outcome map_results add_rule_metadata add_for_code
    add_metadata_to_results drop_long_past is_long_past rule_fields set_texts set_text
    normalize_collections at_collections
exceptions-process_outcome_example =
    exceptions-process_outcome context tasks_only policy policy image outcome [] refl

report_lem_example :
    let processed =
      process_outcomes context policy policy image
        (outcome ∷ [])
        (all_criteria tasks_only.include) in
    ((any has_results processed.0 ≡ false)
      × (report context policy policy image (outcome ∷ []) ≡ err nothing_checked))
    ⊎ ((any has_results processed.0 ≡ true)
        × (outs : List Outcome) × (report context policy policy image (outcome ∷ []) ≡ ok outs)
        × (0 < length outs)
        × (1 ≤ length outs))
unfolding base_of
report_lem_example = report_lem context policy policy image (outcome ∷ [])

abbrev outputs_of : Evaluation (List Outcome) → List Outcome
outputs_of (ok outs) = outs
outputs_of (err e) = []

-- Two rules are found, and the runner gives one outcome.
abbrev evaluation : Evaluation (List Outcome)
evaluation =
    evaluate context [] (some (annotated hermetic ∷ annotated pinned ∷ []))
      (λ _. some (outcome ∷ [])) image

ends_well : evaluation ≡ ok (outputs_of evaluation)
unfolding filtered annotate_outcome map_results add_rule_metadata add_for_code
    add_metadata_to_results drop_long_past is_long_past rule_fields set_texts set_text
    normalize_collections at_collections evaluate collect_all collect report process_outcomes
    process_outcome unified_filter_results unified_loop legacy_is_result_included
    legacy_score_matches score_needles score_needle unified_categorize_results unified_categories
    place total_rules as_failure compute_successes successes_from is_seen has_seen success_of
ends_well = refl

included-evaluate_example : All (ReportsIncluded by_name tasks_only image) (outputs_of evaluation)
included-evaluate_example =
    included-evaluate context tasks_only [] (some (annotated hermetic ∷ annotated pinned ∷ []))
      (λ _. some (outcome ∷ [])) image (outputs_of evaluation) refl ends_well

-- The rule that reported nothing has a success.
compute_successes_lem_example :
    (compute_successes by_name resolver (record outcome { failures = [] }) policy image []).0
    ≡ map (reported_success by_name tasks_only image) ((lit "tasks.hermetic", hermetic) ∷ [])
unfolding filtered keep succeeds is_seen has_seen shows any success_of set_texts set_text
    at_collections
compute_successes_lem_example =
    compute_successes_lem by_name tasks_only image (record outcome { failures = [] }) policy []
