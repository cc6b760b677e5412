-- ===== src/Snapshot/Report/Totals.antt =====
-- The totals of the test report, its result, and the flag of the summary.
use ec_cli.Base.{
  ℕ, ◌+◌, ◌≡◌, refl, ◌∙◌, sym, arith, Text, List, [], ◌∷◌, ◌++◌, map, length, Bool, true, false,
  not, ◌||◌, ltb, if◌then◌else◌, append_assoc, append-nil,
}
use ec_cli.Evaluator.Result.{Value}
use ec_cli.Snapshot.Report.{
  Component, Report, Summary, TestReport, failure, warning, skipped, success, component_summary,
  summarize, to_summary, pending, no_note, all_succeed, add_components, to_appstudio_report,
  derive_result,
}

module _ (sprint : Value → Text) where
  summarize_success :
      (components : List Component) (pr : Summary)
      → pr.success ≡ false
      → (summarize sprint components pr).success ≡ false
  unfolding summarize
  summarize_success [] pr h = h
  summarize_success (c ∷ components) pr h = summarize_success components _ (ground arith)

  -- The summary never says that a report succeeded, not even if all components did.
  pub to_summary_success : (r : Report) → (to_summary sprint r).success ≡ false
  unfolding to_summary
  to_summary_success r = summarize_success r.components _ refl

  summarize_components :
      (components : List Component) (pr : Summary)
      → (summarize sprint components pr).components
        ≡ pr.components ++ map (component_summary sprint) components
  unfolding summarize
  summarize_components [] pr = sym (append-nil pr.components)
  summarize_components (c ∷ components) pr =
      summarize_components components _
      ∙ append_assoc pr.components (component_summary sprint c ∷ [])
          (map (component_summary sprint) components)

unfoldable pub total_of : (Component → ℕ) → List Component → ℕ
total_of f [] = 0
total_of f (c ∷ components) = f c + total_of f components

add_components_lem :
    (sprint : Value → Text) (components : List Component) (t : TestReport) (failed : Bool)
    → add_components (map (component_summary sprint) components) (t, failed) ≡ (
      record t {
        failures = t.failures + total_of (λ c. length c.violations) components;
        warnings = t.warnings + total_of (λ c. length c.warnings) components;
        successes = t.successes + total_of (λ c. c.success_count) components;
      },
      failed || not (all_succeed components),
    )
unfolding add_components total_of all_succeed component_summary
add_components_lem sprint [] t failed = ground arith
add_components_lem sprint (c ∷ components) t failed =
    add_components_lem sprint components _ (if not c.success then true else failed) ∙ ground arith

-- The counts of the test report are the sums over the components. Its result is a failure exactly
-- if there is a violation or a component without success; else a warning if there is a warning;
-- else skipped if there is no success, and a success if there is one.
pub to_appstudio_report_lem :
    (sprint : Value → Text) (r : Report)
    → let t = to_appstudio_report sprint r in
      let violations = total_of (λ c. length c.violations) r.components in
      let warnings = total_of (λ c. length c.warnings) r.components in
      let successes = total_of (λ c. c.success_count) r.components in
      (t.failures ≡ violations)
      × (t.warnings ≡ warnings)
      × (t.successes ≡ successes)
      × (t.result ≡ (
          if ltb 0 violations || not (all_succeed r.components)
          then failure
          else if ltb 0 warnings
          then warning
          else if ltb 0 successes
          then success
          else skipped))
unfolding to_appstudio_report to_summary derive_result
to_appstudio_report_lem sprint r = ground (
  arith,
  summarize_components sprint r.components
      (record { snapshot = r.snapshot; components = []; success = false; key = [] }),
  add_components_lem sprint r.components
      (record { successes = 0; failures = 0; warnings = 0; result = pending; note = no_note })
      false,
)
