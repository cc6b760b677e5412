-- ===== src/Evaluator/Evaluate.antt =====
-- `Evaluate` of internal/evaluator/conftest_evaluator.go, from the rules that the policy sources
-- hold to the reported outcomes. The download of the sources, the inspection of their Rego files
-- and the run of conftest are parameters.
pub mod Collection
pub mod Reports
pub mod Outputs
use ec_cli.Base.{
  ℕ, ◌+◌, Text, lit, List, [], ◌∷◌, ◌++◌, is_empty, Option, none, some, Bool, false, length,
  text_eq, ltb, if◌then◌else◌, TextSet, add, insert, lookup, Dict, split,
}
use ec_cli.Evaluator.Info.{Info, PolicyRules}
use ec_cli.Evaluator.Criteria.{Criteria, ReferenceParser, TimeParser}
use ec_cli.Evaluator.Score.{last}
use ec_cli.Evaluator.Matchers.{package_of_parts}
use ec_cli.Evaluator.Result.{Result, Outcome}
use ec_cli.Evaluator.Resolver.{PolicyResolver, resolve_policy, base_of, all_true}
use ec_cli.Evaluator.Postfilter.{unified_filter_results, unified_categorize_results}
use ec_cli.Evaluator.Trim.{trim}
use ec_cli.Evaluator.Annotate.{add_rule_metadata, compute_successes, zero_info}

-- The errors that `Evaluate` returns.
pub data EvaluateError : Type 0 where
  source_failed run_failed nothing_checked : EvaluateError
  duplicate_code : Text → EvaluateError

pub data Evaluation {ℓ} (A : Type ℓ) : Type ℓ where
  ok : A → Evaluation A
  err : EvaluateError → Evaluation A

infixl 5 ◌>>=◌
abbrev pub ◌>>=◌ {ℓ κ} :
    {A : Type ℓ} {B : Type κ} → Evaluation A → (A → Evaluation B) → Evaluation B
ok a >>= f = f a
err e >>= f = err e

-- A rule that the inspection finds: with annotations, or without, then with the code that the
-- rule's body or its name gives.
pub data RuleEntry : Type 0 where
  annotated : Info → RuleEntry
  bare : Text → RuleEntry

-- `policyRules.collect`
unfoldable pub collect : Info → PolicyRules → Evaluation PolicyRules
collect info rules = if is_empty info.short_name then ok rules else elim (lookup info.code rules) [
  | none ↦ ok (insert info.code info rules)
  | some _ ↦ err (duplicate_code info.code)
]

-- The rules with annotations, and the codes of the others.
unfoldable pub collect_all :
    List RuleEntry → PolicyRules → TextSet → Evaluation (PolicyRules × TextSet)
collect_all [] rules others = ok (rules, others)
collect_all (annotated info ∷ entries) rules others = do
  rules' ← collect info rules
  collect_all entries rules' others
collect_all (bare code ∷ entries) rules others = collect_all entries rules (add code others)

unfoldable pub bare_info : Text → List Text → Info
bare_info code parts = record zero_info {
  code = code;
  package_name = package_of_parts parts;
  short_name = last parts;
}

-- The rules for filtering: those with annotations, and the others with a code of two parts or more.
unfoldable pub with_bare_rules : TextSet → PolicyRules → PolicyRules
with_bare_rules [] rules = rules
with_bare_rules (code ∷ codes) rules =
    let parts = split b'.' code in
    with_bare_rules codes
      (if ltb 1 (length parts) then insert code (bare_info code parts) rules else rules)

-- The namespaces for the runner, and whether it evaluates all.
unfoldable pub choose_namespaces : List Text → List Text → List Text × Bool
choose_namespaces namespace (pkg ∷ filtered) = (pkg ∷ filtered, false)
choose_namespaces namespace [] = (namespace, is_empty namespace)

unfoldable pub map_results : (Result → Result) → List Result → List Result
map_results f [] = []
map_results f (r ∷ results) = f r ∷ map_results f results

unfoldable pub digest_criteria : Dict (List Text) → TextSet → TextSet
digest_criteria [] missing = missing
digest_criteria ((key, items) ∷ d) missing = digest_criteria d (all_true items missing)

-- Every include criterion, whatever image it is for.
unfoldable pub all_criteria : Criteria → TextSet
all_criteria include = digest_criteria include.digest_items (all_true include.default_items [])

unfoldable pub missing_outcome : Text → Outcome
missing_outcome name = record {
  file_name = [];
  namespace = [];
  successes = [];
  skipped = [];
  warnings =
      record {
        message = lit "Include criterion '" ++ name ++ lit "' doesn't match any policy rule";
        metadata = none;
        outputs = [];
      }
      ∷ [];
  failures = [];
  exceptions = [];
}

unfoldable pub missing_outcomes : TextSet → List Outcome
missing_outcomes [] = []
missing_outcomes (name ∷ names) = missing_outcome name ∷ missing_outcomes names

-- How many results were reported.
unfoldable pub total_rules : List Outcome → ℕ
total_rules [] = 0
total_rules (o ∷ outcomes) =
    length o.warnings + length o.failures + length o.successes + total_rules outcomes

pub record Context : Type 0 where
  pub parse_reference : ReferenceParser
  -- `time.Parse` with the layout of `effective_on`
  pub parse_time : TimeParser
  -- `fmt.Sprint` of a value that is no string
  pub sprint : ℕ → Text
  pub resolver : PolicyResolver
  pub effective_time : ℕ

module _ (c : Context) where
  open c use {parse_reference, parse_time, sprint, resolver, effective_time}

  -- The metadata maps are shared: adding to the collected results adds to the outcome's own.
  unfoldable pub annotate_outcome : PolicyRules → Outcome → Outcome
  annotate_outcome rules o =
      let annotate = map_results (add_rule_metadata sprint parse_time effective_time rules) in
      record o {
        warnings = annotate o.warnings;
        failures = annotate o.failures;
        exceptions = annotate o.exceptions;
        skipped = annotate o.skipped;
      }

  -- One round of the loop over the results of the runner.
  unfoldable pub process_outcome :
      PolicyRules → PolicyRules → Text → Outcome → TextSet → Outcome × TextSet
  process_outcome rules all_rules target result missing =
      let o = annotate_outcome rules result in
      let collected = o.warnings ++ (o.failures ++ (o.exceptions ++ o.skipped)) in
      let (filtered, missing') =
        unified_filter_results parse_reference resolver all_rules target collected missing in
      let cs = unified_categorize_results parse_time effective_time filtered o in
      let o' : Outcome = record o {
        warnings = cs.warnings;
        failures = cs.failures;
        exceptions = cs.exceptions;
        skipped = cs.skipped;
      } in
      let (successes, missing'') =
        compute_successes parse_reference resolver o' rules target missing' in
      (record o' { successes = successes }, missing'')

  unfoldable pub process_outcomes :
      PolicyRules → PolicyRules → Text → List Outcome → TextSet → List Outcome × TextSet
  process_outcomes rules all_rules target [] missing = ([], missing)
  process_outcomes rules all_rules target (result ∷ results) missing =
      let (o, missing') = process_outcome rules all_rules target result missing in
      let (rest, missing'') = process_outcomes rules all_rules target results missing' in
      (o ∷ rest, missing'')

  -- What follows the run.
  unfoldable pub report :
      PolicyRules → PolicyRules → Text → List Outcome → Evaluation (List Outcome)
  report rules all_rules target run_results =
      let (outcomes, missing) =
        process_outcomes rules all_rules target run_results
          (all_criteria (base_of resolver).include) in
      if ltb 0 (total_rules outcomes)
      then ok (trim (outcomes ++ missing_outcomes missing))
      else err nothing_checked

  -- `inspected` is what the download and the inspection give, `run` the test runner at the chosen
  -- namespaces.
  unfoldable pub evaluate :
      List Text
      → Option (List RuleEntry)
      → (List Text × Bool → Option (List Outcome))
      → Text
      → Evaluation (List Outcome)
  evaluate namespace none run target = err source_failed
  evaluate namespace (some entries) run target = do
    (rules, others) ← collect_all entries [] []
    let all_rules = with_bare_rules others rules
    let resolution = resolve_policy parse_reference resolver all_rules target
    elim (run (choose_namespaces namespace resolution.included_packages)) [
      | none ↦ err run_failed
      | some run_results ↦ report rules all_rules target run_results
    ]
