-- ===== src/Tests/Data.antt =====
-- A policy of three rules in two packages, an image, and results of the rules.
use ec_cli.Base.{Text, lit, [], ◌∷◌, none, some}
use ec_cli.Evaluator.Info.{Info, RuleKind, PolicyRules}
use ec_cli.Evaluator.Criteria.{ReferenceParser, TimeParser, Criteria}
use ec_cli.Evaluator.Resolver.{BaseResolver, PolicyResolver, include_exclude}
use ec_cli.Evaluator.Result.{Result, Outcome, string, metadata_code}
use ec_cli.Evaluator.Evaluate.{Context}

-- Every reference is the name of a repository.
abbrev pub by_name : ReferenceParser
by_name t = some (record { context_name = t; digest = none })

abbrev pub no_time : TimeParser
no_time t = none

abbrev pub image : Text
image = lit "quay.io/app"

abbrev pub rule : Text → Text → Text → Info
rule code pkg name = record {
  code = code;
  collections = lit "minimal" ∷ [];
  depends_on = [];
  description = [];
  documentation_url = [];
  severity = [];
  effective_on = [];
  kind = RuleKind.deny;
  package_name = pkg;
  pipeline_intention = [];
  short_name = name;
  solution = [];
  title = [];
}

abbrev pub hermetic : Info
hermetic = rule (lit "tasks.hermetic") (lit "tasks") (lit "hermetic")

abbrev pub pinned : Info
pinned = rule (lit "tasks.pinned") (lit "tasks") (lit "pinned")

abbrev pub trusted : Info
trusted = rule (lit "slsa.trusted") (lit "slsa") (lit "trusted")

abbrev pub policy : PolicyRules
policy =
    (lit "tasks.hermetic", hermetic)
    ∷ (lit "tasks.pinned", pinned)
    ∷ (lit "slsa.trusted", trusted)
    ∷ []

abbrev pub for_all : Text → Criteria
for_all name = record { digest_items = []; default_items = name ∷ [] }

-- All tasks but one rule.
abbrev pub tasks_only : BaseResolver
tasks_only = record { include = for_all (lit "tasks"); exclude = for_all (lit "tasks.pinned") }

abbrev pub resolver : PolicyResolver
resolver = include_exclude tasks_only

abbrev pub result_of : Text → Result
result_of code = record {
  message = code;
  metadata = some ((metadata_code, string code) ∷ []);
  outputs = [];
}

-- One failure of each rule, and no other result.
abbrev pub outcome : Outcome
outcome = record {
  file_name = [];
  namespace = lit "tasks";
  successes = [];
  skipped = [];
  warnings = [];
  failures = result_of (lit "tasks.hermetic") ∷ result_of (lit "tasks.pinned") ∷ [];
  exceptions = result_of (lit "slsa.trusted") ∷ [];
}

abbrev pub context : Context
context = record {
  parse_reference = by_name;
  parse_time = no_time;
  sprint = λ n. [];
  resolver = resolver;
  effective_time = 0;
}
