-- ===== src/Tests/Policies.antt =====
-- The resolver, the scores and the criteria.
use ec_cli.Base.{
  ◌&&◌, ◌≡◌, refl, true, false, lit, [], ◌∷◌, none, some, contains, text_eq, nat_eq, split_two, any,
  split, onto_first, keep, add, insert, lookup, remove, cut, has_prefix, join, contains_byte,
  trim_prefix,
}
use ec_cli.Evaluator.Criteria.{
  VolatileCriteria, Source, RuleData, Configuration, ConfigProvider, empty_criteria, get, items_of,
  get_with_key, lookup_keys, add_item, collect_volatile_config_items, len, compute_include_exclude,
  with_source_config, with_volatile_config, add_array, total_items, add_volatile, time_or,
  is_active, default_include,
}
use ec_cli.Evaluator.Criteria.Lookups.{applies, is_within, get-collect_volatile_config_items}
use ec_cli.Evaluator.Criteria.Defaults.{compute_include_exclude_lem, is_blank, chosen}
use ec_cli.Evaluator.Prefilter.{is_included, entry_includes, names_rule_of, passes_all}
use ec_cli.Evaluator.Resolver.Grouping.{package_rules}
use ec_cli.Evaluator.Score.Matches.{legacy_score_matches_lem, match_total, hay_total}
use ec_cli.Evaluator.Score.{
  last, all_but_last, legacy_score, legacy_score_matches, path_score, score_needle, score_needles,
}
use ec_cli.Evaluator.Matchers.{
  create_rule_matchers, code_matchers, package_matchers, package_of_parts, collection_matchers,
}
use ec_cli.Evaluator.Resolver.{
  PolicyResolutionResult, resolve_policy, package_of, first_of_parts, is_default_list, all_true,
  base_of, matches_pipeline_intention,
}
use ec_cli.Evaluator.Resolver.Packages.{admits}
use ec_cli.Evaluator.Resolver.Verdict.{is_rule_included, is_rule_excluded}
use ec_cli.Evaluator.Resolver.Resolution.{excluded-resolve_policy, missing-resolve_policy}
use ec_cli.Evaluator.Resolver.Disjoint.{resolve_policy-exclusive}
use ec_cli.Tests.Data.{by_name, no_time, image, policy, resolver}

resolution : PolicyResolutionResult
unfolding contains text_eq nat_eq split_two any split onto_first keep add insert lookup remove cut
    has_prefix join get items_of get_with_key lookup_keys last all_but_last legacy_score
    legacy_score_matches path_score score_needle score_needles match_total hay_total
    create_rule_matchers code_matchers package_matchers package_of_parts collection_matchers
    package_of first_of_parts is_default_list all_true base_of matches_pipeline_intention admits
    is_rule_included is_rule_excluded package_rules contains_byte entry_includes names_rule_of
    passes_all is_included trim_prefix applies with_source_config with_volatile_config add_array
    total_items len time_or is_active collect_volatile_config_items add_item add_volatile
resolution = resolve_policy by_name resolver policy image

excluded-resolve_policy_example : contains resolution.excluded_rules (lit "tasks.pinned") ≡ true
unfolding resolution
excluded-resolve_policy_example =
    excluded-resolve_policy by_name resolver policy image (lit "tasks.pinned")

missing-resolve_policy_example : contains resolution.missing_includes (lit "tasks") ≡ false
unfolding resolution
missing-resolve_policy_example = missing-resolve_policy by_name resolver policy image (lit "tasks")

legacy_score_matches_lem_example :
    legacy_score_matches
      (lit "a" ∷ lit "a.*" ∷ [])
      (lit "a.*" ∷ lit "b" ∷ [])
      (lit "a.*" ∷ lit "b" ∷ [])
    ≡ (10, lit "b" ∷ [])
unfolding resolution
legacy_score_matches_lem_example =
    legacy_score_matches_lem (lit "a" ∷ lit "a.*" ∷ []) (lit "a.*" ∷ lit "b" ∷ [])
      (lit "a.*" ∷ lit "b" ∷ [])

abbrev for_image : VolatileCriteria
for_image = record {
  value = lit "tasks";
  effective_on = [];
  effective_until = [];
  image_ref = [];
  image_url = image;
  image_digest = [];
}

get-collect_volatile_config_items_example :
    contains
      (get by_name (collect_volatile_config_items no_time 0 (for_image ∷ []) empty_criteria) image)
      (lit "tasks")
    ≡ true
unfolding resolution is_within
get-collect_volatile_config_items_example =
    get-collect_volatile_config_items by_name no_time 0 (for_image ∷ []) empty_criteria image
      (lit "tasks")

abbrev config : Configuration
config = record {
  include = lit "tasks" ∷ [];
  exclude = lit "slsa" ∷ [];
  collections = lit "minimal" ∷ [];
}

abbrev provider : ConfigProvider
provider = record { effective_time = 0; configuration = some config }

abbrev empty_source : Source
empty_source = record { config = none; volatile_config = none; rule_data = RuleData.absent }

compute_include_exclude_lem_example : compute_include_exclude no_time empty_source provider ≡ (
  record { digest_items = []; default_items = lit "tasks" ∷ lit "@minimal" ∷ [] },
  record { digest_items = []; default_items = lit "slsa" ∷ [] },
)
unfolding resolution default_include is_blank chosen
compute_include_exclude_lem_example = compute_include_exclude_lem no_time empty_source provider

resolve_policy-exclusive_example :
    (contains resolution.included_rules (lit "tasks.pinned")
      && contains resolution.excluded_rules (lit "tasks.pinned"))
    ≡ false
unfolding resolution
resolve_policy-exclusive_example =
    resolve_policy-exclusive by_name resolver policy image (lit "tasks.pinned")
      (refl, (refl, (refl, tt))) (refl, (refl, (refl, tt)))
