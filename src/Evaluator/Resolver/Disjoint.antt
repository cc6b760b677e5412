-- ===== src/Evaluator/Resolver/Disjoint.antt =====
-- The rules that `ResolvePolicy` includes and those that it excludes.
use ec_cli.Base.{
  ◌≡◌, refl, Text, Bool, false, none, [], ◌∷◌, ◌&&◌, arith, ◌==◌, text_eq, any, contains, lookup,
  NodupKeys, All, inl, inr, Bool-cases,
}
use ec_cli.Evaluator.Info.{Info, PolicyRules}
use ec_cli.Evaluator.Criteria.{ReferenceParser}
use ec_cli.Evaluator.Resolver.{PolicyResolver, BaseResolver, base_of, resolve_policy}
use ec_cli.Evaluator.Resolver.Verdict.{is_rule_included, is_rule_excluded}
use ec_cli.Evaluator.Resolver.Admission.{IsOwn}
use ec_cli.Evaluator.Resolver.Resolution.{
  is_admitted, included-resolve_policy, excluded-resolve_policy,
}

module _ (a : Text → Bool) (code : Text) where
  -- Some rule has the code and passes the test, and its name is admitted.
  abbrev decided : (Info → Bool) → PolicyRules → Bool
  decided p rules = any (λ (name, info). a name && (p info && info.code == code)) rules

  decided-missing :
      (p : Info → Bool) (rules : PolicyRules)
      → All IsOwn rules
      → lookup code rules ≡ none
      → decided p rules ≡ false
  unfolding any lookup
  decided-missing p [] own h = refl
  decided-missing p ((name, info) ∷ rules) (o, own) h = ground (arith, decided-missing p rules own)

  decided-both :
      (p q : Info → Bool) (rules : PolicyRules)
      → ((info : Info) → (p info && q info) ≡ false)
      → All IsOwn rules
      → NodupKeys rules
      → (decided p rules && decided q rules) ≡ false
  unfolding any
  decided-both p q [] h own nodup = refl
  decided-both p q ((name, info) ∷ rules) h (o, own) (fresh, nodup) =
      elim (Bool-cases (info.code == code)) [
        | inl e ↦
            let gone : lookup code rules ≡ none = ground arith in
            ground
              (arith, h info, decided-missing p rules own gone, decided-missing q rules own gone)
        | inr e ↦ ground (arith, decided-both p q rules h own nodup)
      ]

verdicts-exclusive :
    (parse : ReferenceParser) (b : BaseResolver) (target : Text) (info : Info)
    → (is_rule_included parse b target info && is_rule_excluded parse b target info) ≡ false
unfolding is_rule_included is_rule_excluded
verdicts-exclusive parse b target info = ground arith

-- Where each rule is stored once and under its own code, no code is both among the included and
-- among the excluded rules of a resolution.
pub resolve_policy-exclusive :
    (parse : ReferenceParser) (r : PolicyResolver) (rules : PolicyRules) (target code : Text)
    → All IsOwn rules
    → NodupKeys rules
    → (contains (resolve_policy parse r rules target).included_rules code
        && contains (resolve_policy parse r rules target).excluded_rules code)
      ≡ false
resolve_policy-exclusive parse r rules target code own nodup =
    rw
      (
        included-resolve_policy parse r rules target code,
        excluded-resolve_policy parse r rules target code,
      )
      (decided-both (is_admitted parse r rules target) code
        (is_rule_included parse (base_of r) target) (is_rule_excluded parse (base_of r) target)
        rules (verdicts-exclusive parse (base_of r) target) own nodup)
