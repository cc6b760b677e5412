-- ===== src/Evaluator/Resolver/Packages.antt =====
-- What `processPackage` and the loop over the packages leave in the result.
use ec_cli.Base.{
  ◌≡◌, refl, Text, Bool, true, false, List, [], ◌∷◌, ◌&&◌, ◌||◌, not, arith, ◌==◌, text_eq, any,
  contains, contains-add, inl, inr, Bool-cases, ◌⊎◌,
}
use ec_cli.Evaluator.Info.{Info}
use ec_cli.Evaluator.Criteria.{ReferenceParser}
use ec_cli.Evaluator.Resolver.{
  PolicyResolver, ec, include_exclude, base_of, PolicyResolutionResult, evaluate_rules,
  find_decided_rules, base_determine_package_inclusion, matches_pipeline_intention, process_package,
}
use ec_cli.Evaluator.Resolver.Verdict.{
  is_rule_included, is_rule_excluded, is_matched, included-all_evaluated, excluded-all_evaluated,
  missing-all_evaluated, packages-all_evaluated,
}

find_decided_rules_lem :
    (rules : List Info) (result : PolicyResolutionResult) (seen : Bool)
    → ((find_decided_rules rules result seen).0
        ≡ any (λ info. contains result.included_rules info.code) rules)
      × ((find_decided_rules rules result seen).0 ≡ false
          → (find_decided_rules rules result seen).1
            ≡ (seen || any (λ info. contains result.excluded_rules info.code) rules))
unfolding find_decided_rules any
find_decided_rules_lem [] result seen = (refl, λ _. ground arith)
find_decided_rules_lem (info ∷ rules) result seen =
    ground (
      arith,
      find_decided_rules_lem rules result (seen || contains result.excluded_rules info.code),
    )

module _ (pkg : Text) (rules : List Info) (result : PolicyResolutionResult) where
  abbrev determined : PolicyResolutionResult
  determined = base_determine_package_inclusion pkg rules result

  abbrev pub some_included : Bool
  some_included = any (λ info. contains result.included_rules info.code) rules

  abbrev some_excluded : Bool
  some_excluded = any (λ info. contains result.excluded_rules info.code) rules

  -- The rules and the missing criteria stay as they are.
  rules-determined :
      (determined.included_rules ≡ result.included_rules)
      × (determined.excluded_rules ≡ result.excluded_rules)
      × (determined.missing_includes ≡ result.missing_includes)
  unfolding base_determine_package_inclusion
  rules-determined = ground arith

  included-determined :
      (p : Text)
      → contains determined.included_packages p
        ≡ ((some_included && pkg == p) || contains result.included_packages p)
  unfolding base_determine_package_inclusion
  included-determined p = ground (
    arith,
    find_decided_rules_lem rules result false,
    contains-add pkg p result.included_packages,
  )

  excluded-determined :
      (p : Text)
      → contains determined.excluded_packages p ≡ (
          (not some_included && (some_excluded && pkg == p)) || contains result.excluded_packages p)
  unfolding base_determine_package_inclusion
  excluded-determined p = ground (
    arith,
    find_decided_rules_lem rules result false,
    contains-add pkg p result.excluded_packages,
  )

-- Whether the resolver looks at the rules of a package at all.
unfoldable pub admits : PolicyResolver → List Info → Bool
admits (include_exclude b) rules = true
admits (ec b intentions) rules = matches_pipeline_intention intentions rules

module _ (parse : ReferenceParser) (r : PolicyResolver) (target : Text) where
  abbrev pub decides_included : Text → Info → Bool
  decides_included code info = is_rule_included parse (base_of r) target info && info.code == code

  abbrev pub decides_excluded : Text → Info → Bool
  decides_excluded code info = is_rule_excluded parse (base_of r) target info && info.code == code

-- A package that is not admitted leaves all but the explanations as it was.
record Untouched (result after : PolicyResolutionResult) : Type 0 where
  included_rules : after.included_rules ≡ result.included_rules
  excluded_rules : after.excluded_rules ≡ result.excluded_rules
  included_packages : after.included_packages ≡ result.included_packages
  excluded_packages : after.excluded_packages ≡ result.excluded_packages
  missing_includes : after.missing_includes ≡ result.missing_includes

processed_cases :
    (parse : ReferenceParser) (r : PolicyResolver) (target pkg : Text) (rules : List Info)
    (result : PolicyResolutionResult)
    → ((admits r rules ≡ true)
        × (process_package parse r pkg rules target result
            ≡ base_determine_package_inclusion pkg rules
                (evaluate_rules parse (base_of r) rules target result)))
      ⊎ ((admits r rules ≡ false)
          × Untouched result (process_package parse r pkg rules target result))
unfolding process_package admits base_of
processed_cases parse (include_exclude b) target pkg rules result = inl (refl, refl)
processed_cases parse (ec b intentions) target pkg rules result =
    elim (Bool-cases (matches_pipeline_intention intentions rules)) [
      | inl e ↦ inl (e, rw e refl)
      | inr e ↦ inr (e, ground arith)
    ]

module _ (parse : ReferenceParser) (r : PolicyResolver) (target pkg : Text) (rules : List Info)
    (result : PolicyResolutionResult) where
  abbrev processed : PolicyResolutionResult
  processed = process_package parse r pkg rules target result

  abbrev evaluated : PolicyResolutionResult
  evaluated = evaluate_rules parse (base_of r) rules target result

  pub included-processed :
      (code : Text)
      → contains processed.included_rules code ≡ (
          (admits r rules && any (decides_included parse r target code) rules)
          || contains result.included_rules code)
  included-processed code = ground (
    arith,
    processed_cases parse r target pkg rules result,
    rules-determined pkg rules evaluated,
    included-all_evaluated parse (base_of r) target rules result code,
  )

  pub excluded-processed :
      (code : Text)
      → contains processed.excluded_rules code ≡ (
          (admits r rules && any (decides_excluded parse r target code) rules)
          || contains result.excluded_rules code)
  excluded-processed code = ground (
    arith,
    processed_cases parse r target pkg rules result,
    rules-determined pkg rules evaluated,
    excluded-all_evaluated parse (base_of r) target rules result code,
  )

  pub missing-processed :
      (name : Text)
      → contains processed.missing_includes name ≡ (
          not (admits r rules && is_matched parse (base_of r) target rules name)
          && contains result.missing_includes name)
  missing-processed name = ground (
    arith,
    processed_cases parse r target pkg rules result,
    rules-determined pkg rules evaluated,
    missing-all_evaluated parse (base_of r) target rules result name,
  )

  -- A package is included if one of its rules is in the set of included rules by then.
  pub included_packages-processed :
      (p : Text)
      → contains processed.included_packages p ≡ (
          (admits r rules && (some_included pkg rules processed && pkg == p))
          || contains result.included_packages p)
  included_packages-processed p = ground (
    arith,
    processed_cases parse r target pkg rules result,
    rules-determined pkg rules evaluated,
    included-determined pkg rules evaluated p,
    packages-all_evaluated parse (base_of r) target rules result,
  )
