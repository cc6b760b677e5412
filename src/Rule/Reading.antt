-- ===== src/Rule/Reading.antt =====
-- When the information of a rule can be read.
use ec_cli.Base.{◌≡◌, refl, ◌↔◌, none, some, Option-cases, inl, inr}
use ec_cli.Rule.{AnnotationsRef, Links, rule_info, depends_on}

rule_info-none :
    (l : Links) (a : AnnotationsRef) → rule_info l (some a) ≡ none ↔ a.annotations ≡ none
unfolding rule_info depends_on
rule_info-none l a = elim (Option-cases a.annotations) [
  | inl e ↦ (λ h. e, λ h. rw (e, rule_info) refl)
  | inr (n, e) ↦ (λ h. cc (rw (e, rule_info) at h), λ h. cc)
]
