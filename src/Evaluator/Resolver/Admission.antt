-- ===== src/Evaluator/Resolver/Admission.antt =====
-- Which packages `ResolvePolicy` includes, where each rule is stored under its own code.
use ec_cli.Base.{
  ◌≡◌, ◌≢◌, Text, Bool, false, none, List, ◌&&◌, ◌==◌, text_eq, any, contains, Dict, lookup, All,
}
use ec_cli.Evaluator.Info.{Info}
use ec_cli.Evaluator.Criteria.{ReferenceParser}
use ec_cli.Evaluator.Resolver.{PolicyResolver, base_of, PolicyResolutionResult, package_of}
use ec_cli.Evaluator.Resolver.Verdict.{is_rule_included}

-- All rules of a list belong to the package.
abbrev AreOf : Text → List Info → Type 0
AreOf pkg infos = All (λ info. package_of info.code ≡ pkg) infos

-- A rule is stored under its own code.
abbrev pub IsOwn : Text × Info → Type 0
IsOwn (name, info) = name ≡ info.code

module _ (q : Info → Bool) where
  -- A rule that passes the test has the code.
  abbrev passes_with : List Info → Text → Bool
  passes_with infos code = any (λ info. q info && info.code == code) infos

-- No code of a package that is still to come is among the included rules.
abbrev AreNew : Dict (List Info) → PolicyResolutionResult → Type 0
AreNew grouped result =
    (code : Text)
    → lookup (package_of code) grouped ≢ none
    → contains result.included_rules code ≡ false

module _ (parse : ReferenceParser) (r : PolicyResolver) (target : Text) where
  abbrev included : Info → Bool
  included info = is_rule_included parse (base_of r) target info
