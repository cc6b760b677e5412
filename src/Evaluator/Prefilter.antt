-- ===== src/Evaluator/Prefilter.antt =====
-- The package filters of internal/evaluator/filters.go, which pick the packages to evaluate by
-- pipeline intention and by the include list.
pub mod Selection
use ec_cli.Base.{
  Text, lit, List, [], ◌∷◌, is_empty, none, some, Bool, true, false, ◌==◌, ◌&&◌, not, any, text_eq,
  if◌then◌else◌, Dict, has_prefix, trim_prefix, contains_byte, split_two,
}
use ec_cli.Evaluator.Info.{Info, PolicyRules}
use ec_cli.Evaluator.Criteria.{Source}
use ec_cli.Evaluator.Resolver.{extract_string_array_from_rule_data, group_by_package}

-- The types that implement the interface `RuleFilter`.
pub data RuleFilter : Type 0 where
  pipeline_intention_filter include_list_filter : List Text → RuleFilter

unfoldable pub intention_include : List Text → List Info → Bool
intention_include [] rules = not (any (λ info. not (is_empty info.pipeline_intention)) rules)
intention_include (t ∷ targets) rules =
    any
      (λ info.
        any (λ rule_intention. any (λ target. rule_intention == target) (t ∷ targets))
          info.pipeline_intention)
      rules

-- `len(parts) == 2 && parts[0] == pkg`
unfoldable pub names_rule_of : List Text → Text → Bool
names_rule_of (p ∷ rule ∷ []) pkg = p == pkg
names_rule_of _ pkg = false

unfoldable pub entry_includes : Text → Text → List Info → Bool
entry_includes entry pkg rules =
    if entry == pkg
    then true
    else if has_prefix entry (lit "@")
    then any (λ info. any (λ c. c == trim_prefix entry (lit "@")) info.collections) rules
    else if contains_byte b'.' entry
    then names_rule_of (split_two b'.' entry) pkg
    else false

-- The method `Include`.
unfoldable pub is_included : RuleFilter → Text → List Info → Bool
is_included (pipeline_intention_filter targets) pkg rules = intention_include targets rules
is_included (include_list_filter entries) pkg rules =
    any (λ entry. entry_includes entry pkg rules) entries

unfoldable pub include_filters : Source → List RuleFilter
include_filters src = elim src.config [
  | none ↦ []
  | some config ↦ if is_empty config.include then [] else include_list_filter config.include ∷ []
]

-- `DefaultFilterFactory.CreateFilters`
unfoldable pub create_default_filters : Source → List RuleFilter
create_default_filters src =
    pipeline_intention_filter
      (extract_string_array_from_rule_data src.rule_data (lit "pipeline_intention"))
    ∷ include_filters src

-- `IncludeFilterFactory.CreateFilters`
unfoldable pub create_include_filters : Source → List RuleFilter
create_include_filters src = include_filters src

-- The loop over the filters, which stops at the first that refuses the package.
unfoldable pub passes_all : List RuleFilter → Text → List Info → Bool
passes_all [] pkg rules = true
passes_all (f ∷ filters) pkg rules = is_included f pkg rules && passes_all filters pkg rules

unfoldable pub passing_packages : List RuleFilter → Dict (List Info) → List Text
passing_packages filters [] = []
passing_packages filters ((pkg, rules) ∷ grouped) =
    let rest = passing_packages filters grouped in
    if passes_all filters pkg rules then pkg ∷ rest else rest

-- `NamespaceFilter.Filter`
unfoldable pub filter_namespaces : PolicyRules → List RuleFilter → List Text
filter_namespaces rules filters = passing_packages filters (group_by_package rules)
