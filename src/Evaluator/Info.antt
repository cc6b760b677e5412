-- ===== src/Evaluator/Info.antt =====
-- internal/opa/rule/rule.go: what the evaluator knows of one rule.
use ec_cli.Base.{Text, Dict, List}

pub data RuleKind : Type 0 where
  deny warn other : RuleKind

pub record Info : Type 0 where
  pub code : Text
  pub collections : List Text
  pub depends_on : List Text
  pub description : Text
  pub documentation_url : Text
  pub severity : Text
  pub effective_on : Text
  pub kind : RuleKind
  pub package_name : Text
  pub pipeline_intention : List Text
  pub short_name : Text
  pub solution : Text
  pub title : Text

-- `policyRules`: rule information by code
abbrev pub PolicyRules : Type 0
PolicyRules = Dict Info
