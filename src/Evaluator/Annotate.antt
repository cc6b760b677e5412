-- ===== src/Evaluator/Annotate.antt =====
-- `addRuleMetadata`, `addMetadataToResults` and `computeSuccesses` of
-- internal/evaluator/conftest_evaluator.go.
pub mod Successes
use ec_cli.Base.{
  ℕ, ◌+◌, Text, lit, List, [], ◌∷◌, is_empty, Option, none, some, Bool, false, ◌==◌, ◌||◌, not,
  text_eq, ltb, if◌then◌else◌, TextSet, insert, erase, lookup, get_or,
}
use ec_cli.Evaluator.Info.{Info, RuleKind, PolicyRules}
use ec_cli.Evaluator.Criteria.{ReferenceParser, TimeParser}
use ec_cli.Evaluator.Result.{
  Result, Outcome, Value, string, strings, array, other, Element, text, opaque, get_metadata,
  metadata_code, metadata_collections, metadata_depends_on, metadata_description,
  metadata_effective_on, metadata_severity, metadata_solution, metadata_title, Metadata,
}
use ec_cli.Evaluator.Resolver.{PolicyResolver}
use ec_cli.Evaluator.Postfilter.{unified_filter_results}

-- `effectiveOnTimeout`, 90 days in nanoseconds
abbrev pub effective_on_timeout : ℕ
effective_on_timeout = 7_776_000_000_000_000

-- `rules[code]` of a missing code
abbrev pub zero_info : Info
zero_info = record {
  code = [];
  collections = [];
  depends_on = [];
  description = [];
  documentation_url = [];
  severity = [];
  effective_on = [];
  kind = RuleKind.other;
  package_name = [];
  pipeline_intention = [];
  short_name = [];
  solution = [];
  title = [];
}

-- `fmt.Sprint` of the values that are no strings is a parameter.
module _ (sprint : ℕ → Text) where
  unfoldable pub sprint_all : List Element → List Text
  sprint_all [] = []
  sprint_all (text t ∷ es) = t ∷ sprint_all es
  sprint_all (opaque n ∷ es) = sprint n ∷ sprint_all es

  unfoldable pub normalize_collections : Metadata → Metadata
  normalize_collections m = elim (lookup metadata_collections m) [
    | none ↦ m
    | some (string t) ↦ erase metadata_collections m
    | some (strings cs) ↦ m
    | some (array es) ↦ insert metadata_collections (strings (sprint_all es)) m
    | some (other n) ↦ erase metadata_collections m
  ]

-- `if value != "" { m[key] = value }`
unfoldable pub set_text : Text → Text → Metadata → Metadata
set_text key value m = if is_empty value then m else insert key (string value) m

unfoldable pub set_texts : Text → List Text → Metadata → Metadata
set_texts key values m = if is_empty values then m else insert key (strings values) m

unfoldable pub rule_fields : Info → Metadata → Metadata
rule_fields rule m = set_texts metadata_depends_on rule.depends_on (
    set_texts metadata_collections rule.collections (
      set_text metadata_solution rule.solution (
        set_text metadata_description rule.description (
          set_text metadata_severity rule.severity (
            set_text metadata_effective_on rule.effective_on
              (set_text metadata_title rule.title m))))))

-- A date before the effective time less 90 days is dropped.
unfoldable pub is_long_past : TimeParser → ℕ → Option Value → Bool
is_long_past parse effective_time (some (string t)) = elim (parse t) [
  | none ↦ false
  | some effective_on ↦ ltb (effective_on + effective_on_timeout) effective_time
]
is_long_past parse effective_time _ = false

unfoldable pub drop_long_past : TimeParser → ℕ → Metadata → Metadata
drop_long_past parse effective_time m =
    if is_long_past parse effective_time (lookup metadata_effective_on m)
    then erase metadata_effective_on m
    else m

module _ (sprint : ℕ → Text) (parse : TimeParser) (effective_time : ℕ) where
  unfoldable pub add_metadata_to_results : Result → Info → Result
  add_metadata_to_results r rule = elim r.metadata [
    | none ↦ r
    | some m ↦ record r {
      metadata =
          some (
            drop_long_past parse effective_time
              (rule_fields rule (normalize_collections sprint m)));
    }
  ]

  unfoldable pub add_for_code : Option Value → Result → PolicyRules → Result
  add_for_code (some (string code)) r rules =
      add_metadata_to_results r (get_or zero_info code rules)
  add_for_code _ r rules = r

  unfoldable pub add_rule_metadata : PolicyRules → Result → Result
  add_rule_metadata rules r = add_for_code (get_metadata r metadata_code) r rules

-- The codes that the results of a list show as strings.
unfoldable pub has_seen : Text → List Result → Bool
has_seen code [] = false
has_seen code (r ∷ results) =
    elim (get_metadata r metadata_code) [ some (string c) ↦ c == code | _ ↦ false ]
    || has_seen code results

unfoldable pub is_seen : Text → Outcome → Bool
is_seen code o =
    has_seen code o.failures
    || has_seen code o.warnings
    || has_seen code o.skipped
    || has_seen code o.exceptions

-- The success of a rule, as the filter sees it: without `effective_on`.
unfoldable pub success_of : Text → Info → Result
success_of code rule = record {
  message = lit "Pass";
  metadata = some (
      set_texts metadata_depends_on rule.depends_on (
        set_texts metadata_collections rule.collections (
          set_text metadata_description rule.description
            (set_text metadata_title rule.title ((metadata_code, string code) ∷ [])))));
  outputs = [];
}

unfoldable pub with_effective_on : Text → Result → Result
with_effective_on effective_on r = elim r.metadata [
  | none ↦ r
  | some m ↦ record r { metadata = some (set_text metadata_effective_on effective_on m) }
]

module _ (parse : ReferenceParser) (r : PolicyResolver) (all : PolicyRules) (target : Text) where
  -- The loop over the rules. The filter prunes the criteria that are still missing.
  unfoldable pub successes_from : Outcome → PolicyRules → TextSet → List Result × TextSet
  successes_from o [] missing = ([], missing)
  successes_from o ((code, rule) ∷ rules) missing =
      if is_seen code o || not (rule.package_name == o.namespace)
      then (let rest = successes_from o rules missing in rest)
      else (let (kept, missing') =
            unified_filter_results parse r all target (success_of code rule ∷ []) missing in
          let (rest, missing'') = successes_from o rules missing' in
          (
            if is_empty kept
                then rest
                else with_effective_on rule.effective_on (success_of code rule) ∷ rest,
            missing'',
          ))

unfoldable pub compute_successes :
    ReferenceParser
    → PolicyResolver
    → Outcome
    → PolicyRules
    → Text
    → TextSet
    → List Result × TextSet
compute_successes parse r o rules target missing =
    successes_from parse r rules target o rules missing
