-- ===== src/Evaluator/Evaluate/Reports.antt =====
-- What the reported outcomes can hold, for the resolver without pipeline intentions, which is the
-- one that the evaluator is made with.
use ec_cli.Base.{
  suc, ◌≡◌, ◌⊎◌, refl, sym, ◌∙◌, ap, subst, Text, Bool, true, false, not, ◌&&◌, is_empty, any, List,
  [], ◌∷◌, ◌++◌, arith, text_eq, TextSet, Bool-cases, inl, inr, All, keep, length, length-append,
  ltb, ltb→lt, ◌<◌, ◌≤◌,
}
use ec_cli.Evaluator.Info.{PolicyRules}
use ec_cli.Evaluator.Result.{Result, Outcome}
use ec_cli.Evaluator.Resolver.{base_of, BaseResolver, PolicyResolver, include_exclude}
use ec_cli.Evaluator.Postfilter.{
  Categories, unified_filter_results, unified_categorize_results, add_as_is, no_categories,
}
use ec_cli.Evaluator.Postfilter.Inclusion.{passes_or_codeless, unified_filter_results_lem}
use ec_cli.Evaluator.Postfilter.Partition.{sorted, unified_type, categorize_results_lem, reported}
use ec_cli.Evaluator.Trim.{trim, trim_outcomes}
use ec_cli.Evaluator.Evaluate.{
  Context, ok, err, nothing_checked, process_outcome, process_outcomes, annotate_outcome,
  total_rules, report, missing_outcomes, all_criteria,
}

All-keep {ℓ} :
    {A : Type ℓ} (p q : A → Bool) (xs : List A) → All (λ x. p x ≡ true) (keep q (keep p xs))
unfolding keep
All-keep p q [] = tt
All-keep p q (x ∷ xs) = elim (Bool-cases (p x)) [
  | inr e ↦ rw e (All-keep p q xs)
  | inl e ↦ rw e (elim (Bool-cases (q x)) [
    | inl f ↦ rw f (e, All-keep p q xs)
    | inr f ↦ rw f (All-keep p q xs)
  ])
]

module _ (c : Context) (b : BaseResolver) (rules all_rules : PolicyRules) (target : Text)
    (result : Outcome) (missing : TextSet) (made : c.resolver ≡ include_exclude b) where
  abbrev included : Result → Bool
  included = passes_or_codeless c.parse_reference b target

  abbrev processed : Outcome
  processed = (process_outcome c rules all_rules target result missing).0

  abbrev annotated : Outcome
  annotated = annotate_outcome c rules result

  abbrev collected : List Result
  collected =
      annotated.warnings ++ (annotated.failures ++ (annotated.exceptions ++ annotated.skipped))

  filtered_lem :
      (unified_filter_results c.parse_reference c.resolver all_rules target collected missing).0
      ≡ keep included collected
  filtered_lem =
      subst
        (λ (q : PolicyResolver).
          (unified_filter_results c.parse_reference q all_rules target collected missing).0
          ≡ keep included collected)
        (sym made)
        (unified_filter_results_lem c.parse_reference b target all_rules collected missing []).0

  abbrev placed : Categories
  placed =
      sorted c.parse_time c.effective_time (unified_type c.parse_time c.effective_time annotated)
        (keep included collected) no_categories

  categories_lem :
      unified_categorize_results c.parse_time c.effective_time
        (unified_filter_results c.parse_reference c.resolver all_rules target collected missing).0
        annotated
      ≡ add_as_is annotated placed
  categories_lem =
      ap (λ l. unified_categorize_results c.parse_time c.effective_time l annotated) filtered_lem
      ∙ (categorize_results_lem c.parse_time c.effective_time annotated (keep included collected)).0

  -- Without pipeline intentions, every failure and every warning that one round of the evaluation
  -- reports is a result whose include score exceeds its exclude score, or a result without a code.
  pub included-process_outcome :
      All (λ r. included r ≡ true) processed.failures
      × All (λ r. included r ≡ true) processed.warnings
  unfolding process_outcome add_as_is
  included-process_outcome = (
    subst (λ (d : Categories). All (λ r. included r ≡ true) d.failures) (sym categories_lem)
        (All-keep included _ collected),
    subst (λ (d : Categories). All (λ r. included r ≡ true) d.warnings) (sym categories_lem)
        (All-keep included _ collected),
  )

  -- Without pipeline intentions, the exceptions that one round of the evaluation reports are the
  -- included results whose original type is an exception, and behind them all exceptions of the
  -- runner's outcome, with their rules' metadata.
  pub exceptions-process_outcome : processed.exceptions ≡ placed.exceptions ++ annotated.exceptions
  unfolding process_outcome add_as_is
  exceptions-process_outcome = ap (λ (d : Categories). d.exceptions) categories_lem

is_empty-length : {A : Type 0} (xs : List A) → is_empty xs ≡ not (ltb 0 (length xs))
is_empty-length [] = refl
is_empty-length (x ∷ xs) = ground arith

length-trim_outcomes :
    (reported : TextSet) (outcomes : List Outcome)
    → length (trim_outcomes reported outcomes) ≡ length outcomes
unfolding trim_outcomes
length-trim_outcomes reported [] = refl
length-trim_outcomes reported (o ∷ outcomes) = ap suc (length-trim_outcomes reported outcomes)

total_rules-nonempty : (outcomes : List Outcome) → 0 < total_rules outcomes → 0 < length outcomes
unfolding total_rules
total_rules-nonempty [] h = h
total_rules-nonempty (o ∷ outcomes) h = omega arith

-- The outcome reports a warning, a failure or a success.
unfoldable pub has_results : Outcome → Bool
has_results o = not (is_empty o.warnings && (is_empty o.failures && is_empty o.successes))

any-has_results :
    (outcomes : List Outcome) → ltb 0 (total_rules outcomes) ≡ any has_results outcomes
unfolding total_rules any has_results
any-has_results [] = ground arith
any-has_results (o ∷ outcomes) = ground (
  arith,
  any-has_results outcomes,
  is_empty-length o.warnings,
  is_empty-length o.failures,
  is_empty-length o.successes,
)

-- Trimming drops no outcome.
length-trim : (outcomes : List Outcome) → length (trim outcomes) ≡ length outcomes
unfolding trim
length-trim outcomes = length-trim_outcomes _ outcomes

length-process_outcomes :
    (c : Context) (rules all_rules : PolicyRules) (target : Text) (results : List Outcome)
    (missing : TextSet)
    → length (process_outcomes c rules all_rules target results missing).0 ≡ length results
unfolding process_outcomes
length-process_outcomes c rules all_rules target [] missing = refl
length-process_outcomes c rules all_rules target (r ∷ results) missing =
    ap suc (length-process_outcomes c rules all_rules target results _)

-- A run ends in an error if none of its processed outcomes has a warning, a failure or a success;
-- if one of them has, the run reports at least one outcome, and at least one for each outcome of
-- the runner.
pub report_lem :
    (c : Context) (rules all_rules : PolicyRules) (target : Text) (run_results : List Outcome)
    → let processed =
        process_outcomes c rules all_rules target run_results
          (all_criteria (base_of c.resolver).include) in
      ((any has_results processed.0 ≡ false)
        × (report c rules all_rules target run_results ≡ err nothing_checked))
      ⊎ ((any has_results processed.0 ≡ true)
          × (outs : List Outcome) × (report c rules all_rules target run_results ≡ ok outs)
          × (0 < length outs)
          × (length run_results ≤ length outs))
unfolding report
report_lem c rules all_rules target run_results =
    let start = all_criteria (base_of c.resolver).include in
    let processed = process_outcomes c rules all_rules target run_results start in
    let all = processed.0 ++ missing_outcomes processed.1 in
    elim (Bool-cases (ltb 0 (total_rules processed.0))) [
      | inl e ↦
          let nonempty = total_rules-nonempty processed.0 (ltb→lt _ _ e) in
          let sum = length-append processed.0 (missing_outcomes processed.1) in
          let same = length-process_outcomes c rules all_rules target run_results start in
          inr (
            sym (any-has_results processed.0) ∙ e,
            trim all,
            rw e refl,
            omega (arith, length-trim all),
            omega (arith, length-trim all),
          )
      | inr e ↦ inl (sym (any-has_results processed.0) ∙ e, rw e refl)
    ]
