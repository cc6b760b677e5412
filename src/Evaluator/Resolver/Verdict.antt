-- ===== src/Evaluator/Resolver/Verdict.antt =====
-- What one rule's matchers say of it, and that `baseEvaluateRuleInclusion` records just that.
use ec_cli.Base.{
  ℕ, ◌≡◌, refl, ◌∙◌, Text, Bool, List, [], ◌∷◌, ◌&&◌, ◌||◌, not, arith, ◌==◌, text_eq, ltb, any,
  contains, contains-keep, keep, contains-add,
}
use ec_cli.Evaluator.Info.{Info}
use ec_cli.Evaluator.Criteria.{ReferenceParser, get}
use ec_cli.Evaluator.Score.Matches.{match_total, is_common, legacy_score_matches_lem}
use ec_cli.Evaluator.Matchers.{create_rule_matchers}
use ec_cli.Evaluator.Resolver.{
  BaseResolver, PolicyResolutionResult, base_evaluate_rule_inclusion, evaluate_rules,
  is_default_list,
}

module _ (parse : ReferenceParser) (b : BaseResolver) (target : Text) where
  abbrev pub include_total : Info → ℕ
  include_total info =
      match_total (create_rule_matchers info.code info) (get parse b.include target)

  abbrev pub exclude_total : Info → ℕ
  exclude_total info =
      match_total (create_rule_matchers info.code info) (get parse b.exclude target)

  -- The include criteria outweigh the exclude criteria, or neither list names the rule and there
  -- are no include criteria but the default.
  unfoldable pub is_rule_included : Info → Bool
  is_rule_included info =
      ltb (exclude_total info) (include_total info)
      || (not (ltb 0 (exclude_total info)) && is_default_list (get parse b.include target))

  unfoldable pub is_rule_excluded : Info → Bool
  is_rule_excluded info =
      not (ltb (exclude_total info) (include_total info)) && ltb 0 (exclude_total info)

  abbrev evaluated : Info → PolicyResolutionResult → PolicyResolutionResult
  evaluated info = base_evaluate_rule_inclusion parse b info.code info target

  included-evaluated :
      (info : Info) (result : PolicyResolutionResult) (code : Text)
      → contains (evaluated info result).included_rules code
        ≡ ((is_rule_included info && info.code == code) || contains result.included_rules code)
  unfolding base_evaluate_rule_inclusion is_rule_included
  included-evaluated info result code = ground (
    arith,
    legacy_score_matches_lem (create_rule_matchers info.code info) (get parse b.include target)
        result.missing_includes,
    legacy_score_matches_lem (create_rule_matchers info.code info) (get parse b.exclude target) [],
    contains-add info.code code result.included_rules,
  )

  excluded-evaluated :
      (info : Info) (result : PolicyResolutionResult) (code : Text)
      → contains (evaluated info result).excluded_rules code
        ≡ ((is_rule_excluded info && info.code == code) || contains result.excluded_rules code)
  unfolding base_evaluate_rule_inclusion is_rule_excluded
  excluded-evaluated info result code = ground (
    arith,
    legacy_score_matches_lem (create_rule_matchers info.code info) (get parse b.include target)
        result.missing_includes,
    legacy_score_matches_lem (create_rule_matchers info.code info) (get parse b.exclude target) [],
    contains-add info.code code result.excluded_rules,
  )

  missing-evaluated :
      (info : Info) (result : PolicyResolutionResult)
      → (evaluated info result).missing_includes
        ≡ keep
            (λ j.
              not (is_common (create_rule_matchers info.code info) (get parse b.include target) j))
            result.missing_includes
  unfolding base_evaluate_rule_inclusion
  missing-evaluated info result = ground (
    arith,
    legacy_score_matches_lem (create_rule_matchers info.code info) (get parse b.include target)
        result.missing_includes,
  )

  -- The packages are decided later.
  packages-evaluated :
      (info : Info) (result : PolicyResolutionResult)
      → ((evaluated info result).included_packages ≡ result.included_packages)
        × ((evaluated info result).excluded_packages ≡ result.excluded_packages)
  unfolding base_evaluate_rule_inclusion
  packages-evaluated info result = ground arith

  abbrev all_evaluated : List Info → PolicyResolutionResult → PolicyResolutionResult
  all_evaluated rules = evaluate_rules parse b rules target

  pub included-all_evaluated :
      (rules : List Info) (result : PolicyResolutionResult) (code : Text)
      → contains (all_evaluated rules result).included_rules code ≡ (
          any (λ info. is_rule_included info && info.code == code) rules
          || contains result.included_rules code)
  unfolding evaluate_rules any
  included-all_evaluated [] result code = refl
  included-all_evaluated (info ∷ rules) result code = ground (
    arith,
    included-all_evaluated rules (evaluated info result) code,
    included-evaluated info result code,
  )

  pub excluded-all_evaluated :
      (rules : List Info) (result : PolicyResolutionResult) (code : Text)
      → contains (all_evaluated rules result).excluded_rules code ≡ (
          any (λ info. is_rule_excluded info && info.code == code) rules
          || contains result.excluded_rules code)
  unfolding evaluate_rules any
  excluded-all_evaluated [] result code = refl
  excluded-all_evaluated (info ∷ rules) result code = ground (
    arith,
    excluded-all_evaluated rules (evaluated info result) code,
    excluded-evaluated info result code,
  )

  -- Whether some rule of the list is matched by an include criterion.
  abbrev pub is_matched : List Info → Text → Bool
  is_matched rules j =
      any (λ info. is_common (create_rule_matchers info.code info) (get parse b.include target) j)
        rules

  pub missing-all_evaluated :
      (rules : List Info) (result : PolicyResolutionResult) (j : Text)
      → contains (all_evaluated rules result).missing_includes j
        ≡ (not (is_matched rules j) && contains result.missing_includes j)
  unfolding evaluate_rules any
  missing-all_evaluated [] result j = refl
  missing-all_evaluated (info ∷ rules) result j =
      missing-all_evaluated rules (evaluated info result) j
      ∙ ground (
        arith,
        missing-evaluated info result,
        contains-keep
            (λ j.
              not (is_common (create_rule_matchers info.code info) (get parse b.include target) j))
            result.missing_includes j,
      )

  pub packages-all_evaluated :
      (rules : List Info) (result : PolicyResolutionResult)
      → ((all_evaluated rules result).included_packages ≡ result.included_packages)
        × ((all_evaluated rules result).excluded_packages ≡ result.excluded_packages)
  unfolding evaluate_rules
  packages-all_evaluated [] result = (refl, refl)
  packages-all_evaluated (info ∷ rules) result =
      ground (
        arith,
        packages-all_evaluated rules (evaluated info result),
        packages-evaluated info result,
      )
