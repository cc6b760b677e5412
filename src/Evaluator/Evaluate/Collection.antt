-- ===== src/Evaluator/Evaluate/Collection.antt =====
-- The rules that are collected from the policy sources.
use ec_cli.Base.{
  ◌≡◌, refl, sym, append-nil, append_assoc, subst, ◌⊎◌, ◌∙◌, ap, Text, true, false, none, List, [],
  ◌∷◌, ◌++◌, arith, text_eq, if◌then◌else◌, TextSet, Bool-cases, inl, inr, All, is_empty, insert,
  lookup, NodupKeys, insert-NodupKeys,
}
use ec_cli.Evaluator.Info.{Info, PolicyRules}
use ec_cli.Evaluator.Evaluate.{
  EvaluateError, duplicate_code, ok, err, RuleEntry, annotated, bare, collect, collect_all,
}

-- The rules are a map from each rule's own code to a rule with a short name.
abbrev pub IsOwnCode : Text × Info → Type 0
IsOwnCode (code, info) = (code ≡ info.code) × (is_empty info.short_name ≡ false)

record IsCollected (rules : PolicyRules) : Type 0 where
  pub nodup : NodupKeys rules
  pub own_codes : All IsOwnCode rules

insert_of_new :
    (k : Text) (v : Info) (d : PolicyRules) → lookup k d ≡ none → insert k v d ≡ d ++ (k, v) ∷ []
unfolding insert lookup
insert_of_new k v [] h = refl
insert_of_new k v ((j, w) ∷ d) h = ground (arith, insert_of_new k v d)

-- The rules with annotations and a short name, by their codes.
unfoldable pub named_rules : List RuleEntry → PolicyRules
named_rules [] = []
named_rules (annotated info ∷ entries) =
    let rest = named_rules entries in
    if is_empty info.short_name then rest else (info.code, info) ∷ rest
named_rules (bare code ∷ entries) = named_rules entries

named_rules-IsOwnCode : (entries : List RuleEntry) → All IsOwnCode (named_rules entries)
unfolding named_rules
named_rules-IsOwnCode [] = tt
named_rules-IsOwnCode (annotated info ∷ entries) = elim (Bool-cases (is_empty info.short_name)) [
  | inl e ↦ rw e (named_rules-IsOwnCode entries)
  | inr e ↦ rw e ((refl, e), named_rules-IsOwnCode entries)
]
named_rules-IsOwnCode (bare code ∷ entries) = named_rules-IsOwnCode entries

-- `collect` passes over a rule without a short name, adds a new code at the end and refuses others.
collect_cases :
    (info : Info) (rules : PolicyRules)
    → ((is_empty info.short_name ≡ true) × (collect info rules ≡ ok rules))
      ⊎ ((is_empty info.short_name ≡ false)
          × (((lookup info.code rules ≡ none)
                × (collect info rules ≡ ok (insert info.code info rules)))
              ⊎ (collect info rules ≡ err (duplicate_code info.code))))
unfolding collect
collect_cases info rules = ground arith

ok-injective : {A : Type 0} {a b : A} → ok a ≡ ok b → a ≡ b
ok-injective h = cc

err-ne-ok : {A : Type 0} {x : EvaluateError} {a : A} → ¬ (err x ≡ ok a)
err-ne-ok h = cc

collect_all_from :
    (entries : List RuleEntry) (rules : PolicyRules) (others : TextSet)
    (after : PolicyRules × TextSet)
    → NodupKeys rules
    → collect_all entries rules others ≡ ok after
    → NodupKeys after.0 × (after.0 ≡ rules ++ named_rules entries)
unfolding collect_all named_rules
collect_all_from [] rules others after h e =
    let q : (rules, others) ≡ after = ok-injective e in
    subst (λ (x : PolicyRules × TextSet). NodupKeys x.0 × (x.0 ≡ rules ++ [])) q
      (h, sym (append-nil rules))
collect_all_from (annotated info ∷ entries) rules others after h e =
    elim (collect_cases info rules) [
      | inl (short, c) ↦ rw short (collect_all_from entries rules others after h (rw c at e))
      | inr (short, inl (new, c)) ↦ rw short (
          let (nodup, same) =
            collect_all_from entries (insert info.code info rules) others after
              (insert-NodupKeys info.code info rules h) (rw c at e) in
          (
            nodup,
            same
                ∙ ap (λ l. l ++ named_rules entries) (insert_of_new info.code info rules new)
                ∙ append_assoc rules ((info.code, info) ∷ []) (named_rules entries),
          ))
      | inr (short, inr c) ↦ absurd (err-ne-ok (rw c at e))
    ]
collect_all_from (bare code ∷ entries) rules others after h e =
    collect_all_from entries rules _ after h e

-- If all rules can be collected, no two of them that have a short name share a code, and the
-- collected map holds just these, each under its own code, in the order in which they were found.
pub collect_all_lem :
    (entries : List RuleEntry) (rules : PolicyRules) (others : TextSet)
    → collect_all entries [] [] ≡ ok (rules, others)
    → NodupKeys rules × All IsOwnCode rules × (rules ≡ named_rules entries)
collect_all_lem entries rules others h =
    let (nodup, same) = collect_all_from entries [] [] (rules, others) tt h in
    (nodup, subst (All IsOwnCode) (sym same) (named_rules-IsOwnCode entries), same)
