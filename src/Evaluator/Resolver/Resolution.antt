-- ===== src/Evaluator/Resolver/Resolution.antt =====
-- What `ResolvePolicy` returns, said of the rules themselves: the grouping and the order in which
-- the maps are visited make no difference to it.
use ec_cli.Base.{
  ◌≡◌, refl, ◌∙◌, Text, Bool, false, List, [], ◌∷◌, ◌&&◌, ◌||◌, not, arith, ◌==◌, text_eq, any,
  contains, Dict, All-map, TextSet, add, contains-add, any_congr_All, any_and, sym,
}
use ec_cli.Evaluator.Info.{Info, PolicyRules}
use ec_cli.Evaluator.Criteria.{ReferenceParser, get}
use ec_cli.Evaluator.Score.Matches.{is_common}
use ec_cli.Evaluator.Matchers.{create_rule_matchers}
use ec_cli.Evaluator.Resolver.{
  PolicyResolver, base_of, PolicyResolutionResult, process_packages, process_package,
  resolve_policy, all_true, group_by_package, package_of,
}
use ec_cli.Evaluator.Resolver.Verdict.{is_rule_included, is_rule_excluded, is_matched}
use ec_cli.Evaluator.Resolver.Packages.{
  admits, decides_included, decides_excluded, included-processed, excluded-processed,
  missing-processed,
}
use ec_cli.Evaluator.Resolver.Grouping.{package_rules, group-entries, any-group_by_package}

contains-nil : (j : Text) → contains {A = Text} [] j ≡ false
unfolding contains
contains-nil j = refl

contains-all_true :
    (ks : List Text) (s : TextSet) (j : Text)
    → contains (all_true ks s) j ≡ (contains ks j || contains s j)
unfolding all_true contains
contains-all_true [] s j = refl
contains-all_true (k ∷ ks) s j =
    ground (arith, contains-all_true ks (add k s) j, contains-add k j s)

module _ (parse : ReferenceParser) (r : PolicyResolver) (target : Text) where
  abbrev in_processed : (List Info → Bool) → Dict (List Info) → Bool
  in_processed p grouped = any (λ (pkg, infos). p infos) grouped

  included-process_packages :
      (grouped : Dict (List Info)) (result : PolicyResolutionResult) (code : Text)
      → contains (process_packages parse r grouped target result).included_rules code ≡ (
          any
            (λ (pkg, infos). admits r infos && any (decides_included parse r target code) infos)
            grouped
          || contains result.included_rules code)
  unfolding process_packages any
  included-process_packages [] result code = refl
  included-process_packages ((pkg, infos) ∷ grouped) result code = ground (
    arith,
    included-process_packages grouped (process_package parse r pkg infos target result) code,
    included-processed parse r target pkg infos result code,
  )

  excluded-process_packages :
      (grouped : Dict (List Info)) (result : PolicyResolutionResult) (code : Text)
      → contains (process_packages parse r grouped target result).excluded_rules code ≡ (
          any
            (λ (pkg, infos). admits r infos && any (decides_excluded parse r target code) infos)
            grouped
          || contains result.excluded_rules code)
  unfolding process_packages any
  excluded-process_packages [] result code = refl
  excluded-process_packages ((pkg, infos) ∷ grouped) result code = ground (
    arith,
    excluded-process_packages grouped (process_package parse r pkg infos target result) code,
    excluded-processed parse r target pkg infos result code,
  )

  missing-process_packages :
      (grouped : Dict (List Info)) (result : PolicyResolutionResult) (name : Text)
      → contains (process_packages parse r grouped target result).missing_includes name ≡ (
          not (
            any
              (λ (pkg, infos). admits r infos && is_matched parse (base_of r) target infos name)
              grouped)
          && contains result.missing_includes name)
  unfolding process_packages any
  missing-process_packages [] result name = refl
  missing-process_packages ((pkg, infos) ∷ grouped) result name = ground (
    arith,
    missing-process_packages grouped (process_package parse r pkg infos target result) name,
    missing-processed parse r target pkg infos result name,
  )

-- A test of admitted packages over the groups is one over the rules.
admitted-groups :
    (r : PolicyResolver) (rules : PolicyRules) (p : Info → Bool)
    → any (λ (pkg, infos). admits r infos && any p infos) (group_by_package rules)
      ≡ any (λ (name, info). admits r (package_rules rules (package_of name)) && p info) rules
admitted-groups r rules p =
    any_congr_All (λ (pkg, infos). admits r infos && any p infos)
      (λ (pkg, infos). any (λ info. admits r (package_rules rules pkg) && p info) infos)
      (group_by_package rules)
      (All-map
        (λ (pkg, infos) e.
          rw e (sym (any_and (admits r (package_rules rules pkg)) p (package_rules rules pkg))))
        (group_by_package rules) (group-entries rules))
    ∙ any-group_by_package (λ pkg info. admits r (package_rules rules pkg) && p info) rules

module _ (parse : ReferenceParser) (r : PolicyResolver) (rules : PolicyRules) (target : Text) where
  abbrev resolution : PolicyResolutionResult
  resolution = resolve_policy parse r rules target

  -- The package of a rule is looked at.
  abbrev pub is_admitted : Text → Bool
  is_admitted name = admits r (package_rules rules (package_of name))

  pub included-resolve_policy :
      (code : Text)
      → contains resolution.included_rules code
        ≡ any
            (λ (name, info).
              is_admitted name
              && (is_rule_included parse (base_of r) target info && info.code == code))
            rules
  unfolding resolve_policy
  included-resolve_policy code =
      included-process_packages parse r target (group_by_package rules) _ code
      ∙ ground
          (arith, admitted-groups r rules (decides_included parse r target code), contains-nil code)

  -- A code is among the excluded rules of a resolution exactly if some rule of the policy has it,
  -- the intentions admit the package of the name under which that rule is stored, and the exclude
  -- score of the rule is positive and not below its include score.
  pub excluded-resolve_policy :
      (code : Text)
      → contains resolution.excluded_rules code
        ≡ any
            (λ (name, info).
              is_admitted name
              && (is_rule_excluded parse (base_of r) target info && info.code == code))
            rules
  unfolding resolve_policy
  excluded-resolve_policy code =
      excluded-process_packages parse r target (group_by_package rules) _ code
      ∙ ground
          (arith, admitted-groups r rules (decides_excluded parse r target code), contains-nil code)

  -- A name is missing after a resolution exactly if it is an include criterion for the image and no
  -- rule in an admitted package has it among its matchers.
  pub missing-resolve_policy :
      (name : Text)
      → contains resolution.missing_includes name ≡ (
          contains (get parse (base_of r).include target) name
          && not (
              any
                (λ (key, info).
                  is_admitted key
                  && is_common
                      (create_rule_matchers info.code info)
                      (get parse (base_of r).include target)
                      name)
                rules))
  unfolding resolve_policy
  missing-resolve_policy name =
      missing-process_packages parse r target (group_by_package rules) _ name
      ∙ ground (
        arith,
        admitted-groups r rules (λ info.
            is_common (create_rule_matchers info.code info) (get parse (base_of r).include target)
              name),
        contains-all_true (get parse (base_of r).include target) [] name,
        contains-nil name,
      )
