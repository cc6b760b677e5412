-- ===== src/Evaluator/Evaluate/Outputs.antt =====
-- What a whole evaluation reports.
use ec_cli.Base.{
  ◌≡◌, refl, Text, Bool, none, some, List, [], ◌∷◌, ◌++◌, All, TextSet, Option, inl, inr,
  Bool-cases, ltb, subst, ◌⊎◌,
}
use ec_cli.Evaluator.Info.{PolicyRules}
use ec_cli.Evaluator.Result.{
  Outcome, extract_string_from_metadata, extract_strings_from_metadata, get_metadata,
  strings_of_value,
}
use ec_cli.Evaluator.Resolver.{BaseResolver, base_of, include_exclude, resolve_policy}
use ec_cli.Evaluator.Trim.{trim}
use ec_cli.Evaluator.Trim.Advice.{ReportsIncluded, trim_outcomes-ReportsIncluded}
use ec_cli.Evaluator.Evaluate.{
  run_failed, Context, Evaluation, EvaluateError, ok, err, RuleEntry, collect_all, with_bare_rules,
  choose_namespaces, process_outcome, process_outcomes, missing_outcome, missing_outcomes,
  total_rules, report, evaluate, all_criteria,
}
use ec_cli.Evaluator.Evaluate.Reports.{included-process_outcome}

All-append {ℓ κ} :
    {A : Type ℓ} (P : A → Type κ) (xs ys : List A) → All P xs → All P ys → All P (xs ++ ys)
All-append P [] ys h k = k
All-append P (x ∷ xs) ys (h, hs) k = (h, All-append P xs ys hs k)

ok_same : {A : Type 0} (a b : A) → ok a ≡ ok b → a ≡ b
ok_same a b h = cc

err_or_ok : {A : Type 0} (e : EvaluateError) (a : A) → ¬ (err e ≡ ok a)
err_or_ok e a h = cc

Evaluation-cases :
    {A : Type 0} (x : Evaluation A) → ((a : A) × (x ≡ ok a)) ⊎ ((e : EvaluateError) × (x ≡ err e))
Evaluation-cases (ok a) = inl (a, refl)
Evaluation-cases (err e) = inr (e, refl)

module _ (c : Context) (b : BaseResolver) (target : Text)
    (made : c.resolver ≡ include_exclude b) where
  abbrev Reports : List Outcome → Type 0
  Reports outcomes = All (ReportsIncluded c.parse_reference b target) outcomes

  process_outcomes-Reports :
      (rules all_rules : PolicyRules) (results : List Outcome) (missing : TextSet)
      → Reports (process_outcomes c rules all_rules target results missing).0
  unfolding process_outcomes
  process_outcomes-Reports rules all_rules [] missing = tt
  process_outcomes-Reports rules all_rules (result ∷ results) missing = (
    included-process_outcome c b rules all_rules target result missing made,
    process_outcomes-Reports rules all_rules results
        (process_outcome c rules all_rules target result missing).1,
  )

  missing_outcomes-Reports : (names : TextSet) → Reports (missing_outcomes names)
  unfolding missing_outcomes missing_outcome extract_string_from_metadata
      extract_strings_from_metadata get_metadata strings_of_value
  missing_outcomes-Reports [] = tt
  missing_outcomes-Reports (name ∷ names) = ((tt, (refl, tt)), missing_outcomes-Reports names)

  trim-Reports : (outcomes : List Outcome) → Reports outcomes → Reports (trim outcomes)
  unfolding trim
  trim-Reports outcomes h = trim_outcomes-ReportsIncluded c.parse_reference b target _ outcomes h

  report-Reports :
      (rules all_rules : PolicyRules) (run_results outs : List Outcome)
      → report c rules all_rules target run_results ≡ ok outs
      → Reports outs
  unfolding report
  report-Reports rules all_rules run_results outs h =
      let processed =
        process_outcomes c rules all_rules target run_results
          (all_criteria (base_of c.resolver).include) in
      let all = processed.0 ++ missing_outcomes processed.1 in
      elim (Bool-cases (ltb 0 (total_rules processed.0))) [
        | inl e ↦ subst Reports (ok_same (trim all) outs (rw e at h)) (
            trim-Reports all (
              All-append (ReportsIncluded c.parse_reference b target) processed.0
                (missing_outcomes processed.1)
                (process_outcomes-Reports rules all_rules run_results
                  (all_criteria (base_of c.resolver).include))
                (missing_outcomes-Reports processed.1)))
        | inr e ↦ absurd (err_or_ok _ outs (rw e at h))
      ]

-- An evaluation that ends without an error reports as failures and warnings only results whose
-- include score exceeds their exclude score, or results without a code: also after trimming, with
-- the advice added to the failures, and with the warnings for criteria that match nothing. The
-- evaluator has no pipeline intentions.
pub included-evaluate :
    (c : Context) (b : BaseResolver) (namespace : List Text) (inspected : Option (List RuleEntry))
    (run : List Text × Bool → Option (List Outcome)) (target : Text) (outs : List Outcome)
    → c.resolver ≡ include_exclude b
    → evaluate c namespace inspected run target ≡ ok outs
    → All (ReportsIncluded c.parse_reference b target) outs
unfolding evaluate
included-evaluate c b namespace none run target outs made h = absurd (err_or_ok _ outs h)
included-evaluate c b namespace (some entries) run target outs made h =
    elim (Evaluation-cases (collect_all entries [] [])) [
      | inr (e, q) ↦ absurd (err_or_ok e outs (rw q at h))
      | inl ((rules, others), q) ↦
          let all_rules = with_bare_rules others rules in
          let resolution = resolve_policy c.parse_reference c.resolver all_rules target in
          after_run rules all_rules (run (choose_namespaces namespace resolution.included_packages))
            (rw q at h)
    ]
  where
    after_run :
        (rules all_rules : PolicyRules) (results : Option (List Outcome))
        → (elim results [
          | none ↦ err run_failed
          | some run_results ↦ report c rules all_rules target run_results
        ])
          ≡ ok outs
        → All (ReportsIncluded c.parse_reference b target) outs
    after_run rules all_rules none g = absurd (err_or_ok _ outs g)
    after_run rules all_rules (some run_results) g =
        report-Reports c b target made rules all_rules run_results outs g
