-- ===== src/Evaluator/Resolver.antt =====
-- The policy resolvers of internal/evaluator/filters.go. `EC` looks at pipeline intentions first,
-- the other resolver does not. A `range` over a map visits its entries in the order of the list.
pub mod Verdict
pub mod Resolution
pub mod Grouping
pub mod Packages
pub mod Admission
pub mod Disjoint
use ec_cli.Base.{
  ℕ, Text, lit, List, [], ◌∷◌, ◌++◌, is_empty, Option, none, some, Bool, true, false, ◌==◌, ◌||◌,
  not, any, contains, text_eq, ltb, if◌then◌else◌, Dict, insert, lookup, get_or, TextSet, add,
  split_two,
}
use ec_cli.Evaluator.Info.{Info, PolicyRules}
use ec_cli.Evaluator.Criteria.{
  Criteria, ReferenceParser, TimeParser, get, Source, RuleData, Datum, ConfigProvider,
  compute_include_exclude,
}
use ec_cli.Evaluator.Score.{legacy_score_matches}
use ec_cli.Evaluator.Matchers.{create_rule_matchers}

-- The texts of the explanations, with the numbers that they print.
pub data Explanation : Type 0 where
  included_by_score excluded_by_score : ℕ → ℕ → Explanation
  included_by_default not_explicitly_included : Explanation
  contains_included_rules contains_an_excluded_rule no_pipeline_intention : Explanation

pub record PolicyResolutionResult : Type 0 where
  pub included_rules : TextSet
  pub excluded_rules : TextSet
  pub included_packages : TextSet
  pub excluded_packages : TextSet
  pub missing_includes : TextSet
  pub explanations : Dict Explanation

abbrev pub new_policy_resolution_result : PolicyResolutionResult
new_policy_resolution_result = record {
  included_rules = [];
  excluded_rules = [];
  included_packages = [];
  excluded_packages = [];
  missing_includes = [];
  explanations = [];
}

pub record BaseResolver : Type 0 where
  pub include : Criteria
  pub exclude : Criteria

pub data PolicyResolver : Type 0 where
  ec : BaseResolver → List Text → PolicyResolver
  include_exclude : BaseResolver → PolicyResolver

unfoldable pub string_elements : List (Option Text) → List Text
string_elements [] = []
string_elements (none ∷ es) = string_elements es
string_elements (some t ∷ es) = t ∷ string_elements es

unfoldable pub strings_of_datum : Option Datum → List Text
strings_of_datum none = []
strings_of_datum (some (Datum.string t)) = t ∷ []
strings_of_datum (some (Datum.array es)) = string_elements es
strings_of_datum (some Datum.other) = []

unfoldable pub extract_string_array_from_rule_data : RuleData → Text → List Text
extract_string_array_from_rule_data RuleData.absent key = []
extract_string_array_from_rule_data RuleData.malformed key = []
extract_string_array_from_rule_data (RuleData.object m) key = strings_of_datum (lookup key m)

unfoldable pub base_resolver : TimeParser → Source → ConfigProvider → BaseResolver
base_resolver parse src p =
    let (include, exclude) = compute_include_exclude parse src p in
    record { include = include; exclude = exclude }

unfoldable pub new_ec_policy_resolver : TimeParser → Source → ConfigProvider → PolicyResolver
new_ec_policy_resolver parse src p =
    ec (base_resolver parse src p)
      (extract_string_array_from_rule_data src.rule_data (lit "pipeline_intention"))

unfoldable pub new_include_exclude_policy_resolver :
    TimeParser → Source → ConfigProvider → PolicyResolver
new_include_exclude_policy_resolver parse src p = include_exclude (base_resolver parse src p)

-- `len(items) == 0 || (len(items) == 1 && items[0] == "*")`
unfoldable pub is_default_list : List Text → Bool
is_default_list [] = true
is_default_list (item ∷ []) = item == lit "*"
is_default_list (item ∷ _ ∷ _) = false

module _ (parse : ReferenceParser) where
  unfoldable pub base_evaluate_rule_inclusion :
      BaseResolver → Text → Info → Text → PolicyResolutionResult → PolicyResolutionResult
  base_evaluate_rule_inclusion r rule_id info target result =
      let matchers = create_rule_matchers rule_id info in
      let (include_score, missing) =
        legacy_score_matches matchers (get parse r.include target) result.missing_includes in
      let (exclude_score, _) = legacy_score_matches matchers (get parse r.exclude target) [] in
      let scored : PolicyResolutionResult = record result { missing_includes = missing } in
      if ltb exclude_score include_score
      then record scored {
        included_rules = add rule_id result.included_rules;
        explanations =
            insert rule_id (included_by_score include_score exclude_score) result.explanations;
      }
      else if ltb 0 exclude_score
      then record scored {
        excluded_rules = add rule_id result.excluded_rules;
        explanations =
            insert rule_id (excluded_by_score include_score exclude_score) result.explanations;
      }
      else if is_default_list (get parse r.include target)
      then record scored {
        included_rules = add rule_id result.included_rules;
        explanations = insert rule_id included_by_default result.explanations;
      }
      else record scored {
        explanations = insert rule_id not_explicitly_included result.explanations;
      }

  unfoldable pub evaluate_rules :
      BaseResolver → List Info → Text → PolicyResolutionResult → PolicyResolutionResult
  evaluate_rules r [] target result = result
  evaluate_rules r (info ∷ rules) target result =
      evaluate_rules r rules target (base_evaluate_rule_inclusion r info.code info target result)

-- The loop over the rules of a package, which stops at the first one that is included: whether it
-- met one, and whether it met an excluded one before.
unfoldable pub find_decided_rules : List Info → PolicyResolutionResult → Bool → Bool × Bool
find_decided_rules [] result has_excluded = (false, has_excluded)
find_decided_rules (info ∷ rules) result has_excluded =
    let rest =
      find_decided_rules rules result (has_excluded || contains result.excluded_rules info.code) in
    if contains result.included_rules info.code then (true, has_excluded) else rest

unfoldable pub base_determine_package_inclusion :
    Text → List Info → PolicyResolutionResult → PolicyResolutionResult
base_determine_package_inclusion pkg rules result =
    let (has_included, has_excluded) = find_decided_rules rules result false in
    if has_included
    then record result {
      included_packages = add pkg result.included_packages;
      explanations = insert pkg contains_included_rules result.explanations;
    }
    else if has_excluded
    then record result {
      excluded_packages = add pkg result.excluded_packages;
      explanations = insert pkg contains_an_excluded_rule result.explanations;
    }
    else result

-- `pipelineIntention` of some rule is among the intentions of the configuration; with none
-- configured, no rule may have any.
unfoldable pub matches_pipeline_intention : List Text → List Info → Bool
matches_pipeline_intention [] rules =
    not (any (λ info. not (is_empty info.pipeline_intention)) rules)
matches_pipeline_intention (i ∷ intentions) rules =
    any (λ info. any (contains (i ∷ intentions)) info.pipeline_intention) rules

-- The package of a rule: what stands before the first dot, or all of it where that is empty.
unfoldable pub first_of_parts : Text → List Text → Text
first_of_parts name [] = name
first_of_parts name (p ∷ ps) = if is_empty p then name else p

unfoldable pub package_of : Text → Text
package_of name = first_of_parts name (split_two b'.' name)

unfoldable pub group_into : PolicyRules → Dict (List Info) → Dict (List Info)
group_into [] grouped = grouped
group_into ((name, info) ∷ rules) grouped =
    let pkg = package_of name in
    group_into rules (insert pkg (get_or [] pkg grouped ++ info ∷ []) grouped)

unfoldable pub group_by_package : PolicyRules → Dict (List Info)
group_by_package rules = group_into rules []

-- `Includes` and `Excludes` read the criteria of the embedded resolver.
unfoldable pub base_of : PolicyResolver → BaseResolver
base_of (ec r intentions) = r
base_of (include_exclude r) = r

unfoldable pub all_true : List Text → TextSet → TextSet
all_true [] s = s
all_true (k ∷ ks) s = all_true ks (add k s)

module _ (parse : ReferenceParser) where
  unfoldable pub process_package :
      PolicyResolver → Text → List Info → Text → PolicyResolutionResult → PolicyResolutionResult
  process_package (include_exclude r) pkg rules target result =
      base_determine_package_inclusion pkg rules (evaluate_rules parse r rules target result)
  process_package (ec r intentions) pkg rules target result =
      if not (matches_pipeline_intention intentions rules)
      then record result { explanations = insert pkg no_pipeline_intention result.explanations }
      else base_determine_package_inclusion pkg rules (evaluate_rules parse r rules target result)

  unfoldable pub process_packages :
      PolicyResolver → Dict (List Info) → Text → PolicyResolutionResult → PolicyResolutionResult
  process_packages r [] target result = result
  process_packages r ((pkg, rules) ∷ grouped) target result =
      process_packages r grouped target (process_package r pkg rules target result)

  unfoldable pub resolve_policy : PolicyResolver → PolicyRules → Text → PolicyResolutionResult
  resolve_policy r rules target =
      process_packages r (group_by_package rules) target (record new_policy_resolution_result {
        missing_includes = all_true (get parse (base_of r).include target) [];
      })
