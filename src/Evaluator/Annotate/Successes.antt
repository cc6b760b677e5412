-- ===== src/Evaluator/Annotate/Successes.antt =====
-- The successes that `computeSuccesses` adds for the rules that reported nothing.
use ec_cli.Base.{
  ◌≡◌, refl, ◌∙◌, ap, Text, Bool, [], ◌∷◌, ◌&&◌, ◌||◌, not, arith, ◌==◌, text_eq, keep, map,
  TextSet, is_empty, any, any-append, List, ◌++◌, lit, some, false, sym, inl, inr, Bool-cases,
}
use ec_cli.Evaluator.Info.{Info, PolicyRules}
use ec_cli.Evaluator.Criteria.{ReferenceParser}
use ec_cli.Evaluator.Result.{Result, Outcome, string, get_metadata}
use ec_cli.Evaluator.Resolver.{include_exclude, BaseResolver}
use ec_cli.Evaluator.Postfilter.{unified_filter_results}
use ec_cli.Evaluator.Postfilter.Inclusion.{passes_or_codeless, unified_filter_results_lem}
use ec_cli.Evaluator.Annotate.{
  is_seen, has_seen, success_of, with_effective_on, successes_from, compute_successes,
}

-- The code in a result's metadata is a string, and that one.
unfoldable pub shows : Text → Result → Bool
shows code r = elim (get_metadata r (lit "code")) [ some (string c) ↦ c == code | _ ↦ false ]

any-shows : (code : Text) (rs : List Result) → has_seen code rs ≡ any (shows code) rs
unfolding has_seen any shows
any-shows code [] = refl
any-shows code (r ∷ rs) = ground (arith, any-shows code rs)

is_seen_lem :
    (code : Text) (o : Outcome)
    → is_seen code o ≡ any (shows code) (o.failures ++ (o.warnings ++ (o.skipped ++ o.exceptions)))
unfolding is_seen
is_seen_lem code o = ground (
  arith,
  any-append (shows code) o.failures (o.warnings ++ (o.skipped ++ o.exceptions)),
  any-append (shows code) o.warnings (o.skipped ++ o.exceptions),
  any-append (shows code) o.skipped o.exceptions,
  any-shows code o.failures,
  any-shows code o.warnings,
  any-shows code o.skipped,
  any-shows code o.exceptions,
)

module _ (parse : ReferenceParser) (b : BaseResolver) (target : Text) where
  -- The rule is in the outcome's namespace, no result of the outcome shows its code, and the
  -- criteria include its success.
  unfoldable pub succeeds : Outcome → Text × Info → Bool
  succeeds o (code, rule) =
      not (
        any (shows code) (o.failures ++ (o.warnings ++ (o.skipped ++ o.exceptions)))
        || not (rule.package_name == o.namespace))
      && passes_or_codeless parse b target (success_of code rule)

  -- The success that is reported for a rule.
  abbrev pub reported_success : Text × Info → Result
  reported_success (code, rule) = with_effective_on rule.effective_on (success_of code rule)

  kept-one :
      (all : PolicyRules) (s : Result) (missing : TextSet)
      → is_empty (unified_filter_results parse (include_exclude b) all target (s ∷ []) missing).0
        ≡ not (passes_or_codeless parse b target s)
  kept-one all s missing =
      ap is_empty ((unified_filter_results_lem parse b target all (s ∷ []) missing []).0)
      ∙ unfold keep in ground arith

  successes_from_lem :
      (all : PolicyRules) (o : Outcome) (rules : PolicyRules) (missing : TextSet)
      → (successes_from parse (include_exclude b) all target o rules missing).0
        ≡ map reported_success (keep (succeeds o) rules)
  unfolding successes_from keep succeeds
  successes_from_lem all o [] missing = refl
  successes_from_lem all o ((code, rule) ∷ rules) missing =
      let missing' =
        (unified_filter_results parse (include_exclude b) all target (success_of code rule ∷ [])
          missing).1 in
      elim (Bool-cases (is_seen code o || not (rule.package_name == o.namespace))) [
        | inl e ↦ rw (e, sym (is_seen_lem code o), e) (successes_from_lem all o rules missing)
        | inr e ↦ elim (Bool-cases (passes_or_codeless parse b target (success_of code rule))) [
          | inl f ↦
              rw (e, sym (is_seen_lem code o), e, kept-one all (success_of code rule) missing, f)
                (ap (λ l. reported_success (code, rule) ∷ l)
                  (successes_from_lem all o rules missing'))
          | inr f ↦
              rw (e, sym (is_seen_lem code o), e, kept-one all (success_of code rule) missing, f)
                (successes_from_lem all o rules missing')
        ]
      ]

  -- Without pipeline intentions, a success is reported for exactly those rules that belong to the
  -- namespace of the outcome, whose code no failure, warning, exception or skipped result of it
  -- shows, and whose success has no code or passes the criteria; in the order of the rules.
  pub compute_successes_lem :
      (o : Outcome) (rules : PolicyRules) (missing : TextSet)
      → (compute_successes parse (include_exclude b) o rules target missing).0
        ≡ map reported_success (keep (succeeds o) rules)
  unfolding compute_successes
  compute_successes_lem o rules missing = successes_from_lem rules o rules missing
