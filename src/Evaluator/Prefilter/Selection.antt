-- ===== src/Evaluator/Prefilter/Selection.antt =====
-- Which packages the filters let through, and that the pipeline filter and the resolver agree.
use ec_cli.Base.{
  ◌≡◌, refl, ◌∙◌, Text, List, [], ◌∷◌, ◌&&◌, arith, ◌==◌, text_eq, any, any_congr, contains, Dict,
}
use ec_cli.Evaluator.Info.{Info, PolicyRules}
use ec_cli.Evaluator.Resolver.{matches_pipeline_intention, package_of, group_by_package}
use ec_cli.Evaluator.Resolver.Grouping.{package_rules, any-packages}
use ec_cli.Evaluator.Prefilter.{
  RuleFilter, pipeline_intention_filter, is_included, intention_include, passes_all,
  passing_packages, filter_namespaces,
}

contains-any : (ts : List Text) (x : Text) → any (λ t. x == t) ts ≡ contains ts x
unfolding any contains
contains-any [] x = refl
contains-any (t ∷ ts) x = ground (arith, contains-any ts x)

-- The pipeline filter of the packages and the resolver's own test are the same function.
is_included-pipeline_intention_filter :
    (targets : List Text) (pkg : Text) (rules : List Info)
    → is_included (pipeline_intention_filter targets) pkg rules
      ≡ matches_pipeline_intention targets rules
unfolding is_included intention_include matches_pipeline_intention
is_included-pipeline_intention_filter [] pkg rules = refl
is_included-pipeline_intention_filter (t ∷ targets) pkg rules =
    any_congr _ _ rules (λ info. any_congr _ _ info.pipeline_intention (contains-any (t ∷ targets)))

contains-passing_packages :
    (filters : List RuleFilter) (grouped : Dict (List Info)) (pkg : Text)
    → contains (passing_packages filters grouped) pkg
      ≡ any (λ (name, infos). name == pkg && passes_all filters name infos) grouped
unfolding passing_packages contains any
contains-passing_packages filters [] pkg = refl
contains-passing_packages filters ((name, infos) ∷ grouped) pkg =
    ground (arith, contains-passing_packages filters grouped pkg)

-- A package is selected exactly if it has a rule and all filters let the rules of the package
-- through.
contains-filter_namespaces :
    (rules : PolicyRules) (filters : List RuleFilter) (pkg : Text)
    → contains (filter_namespaces rules filters) pkg
      ≡ any
          (λ (name, info).
            package_of name == pkg
            && passes_all filters (package_of name) (package_rules rules (package_of name)))
          rules
unfolding filter_namespaces
contains-filter_namespaces rules filters pkg =
    contains-passing_packages filters (group_by_package rules) pkg
    ∙ any-packages (λ name infos. name == pkg && passes_all filters name infos) rules
