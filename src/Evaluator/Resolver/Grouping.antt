-- ===== src/Evaluator/Resolver/Grouping.antt =====
-- Grouping the rules by package: the groups hold the rules of each package, and a question to all
-- groups is one to all rules.
use ec_cli.Base.{
  ◌≡◌, refl, ◌∙◌, ap, Text, Bool, true, false, List, [], ◌∷◌, ◌++◌, ◌||◌, arith, ◌==◌, text_eq,
  if◌then◌else◌, any, any-append, Dict, insert, lookup, get_or, get_or-insert, get_or_of_some, sym,
  NodupKeys, insert-NodupKeys, All-Found, All, All-map, All-zip, All-insert, is_empty,
  any_congr_All, append-nil, append_assoc,
}
use ec_cli.Evaluator.Info.{Info, PolicyRules}
use ec_cli.Evaluator.Resolver.{package_of, group_into, group_by_package}

-- The rules of one package, in their order.
unfoldable pub package_rules : PolicyRules → Text → List Info
package_rules [] pkg = []
package_rules ((name, info) ∷ rules) pkg =
    let rest = package_rules rules pkg in if package_of name == pkg then info ∷ rest else rest

get_or-group_into :
    (rules : PolicyRules) (g : Dict (List Info)) (pkg : Text)
    → get_or [] pkg (group_into rules g) ≡ get_or [] pkg g ++ package_rules rules pkg
unfolding group_into package_rules
get_or-group_into [] g pkg = rw append-nil
get_or-group_into ((name, info) ∷ rules) g pkg =
    get_or-group_into rules _ pkg
    ∙ ground (
      arith,
      get_or-insert [] pkg (package_of name) (get_or [] (package_of name) g ++ info ∷ []) g,
      append_assoc (get_or [] pkg g) (info ∷ []) (package_rules rules pkg),
    )

group_into-NodupKeys :
    (rules : PolicyRules) (g : Dict (List Info)) → NodupKeys g → NodupKeys (group_into rules g)
unfolding group_into
group_into-NodupKeys [] g h = h
group_into-NodupKeys ((name, info) ∷ rules) g h =
    group_into-NodupKeys rules _ (insert-NodupKeys (package_of name) _ g h)

-- The group of a package holds exactly the package's rules, and no package has two groups.
pub group_by_package_lem :
    (rules : PolicyRules) (pkg : Text)
    → NodupKeys (group_by_package rules)
      × (get_or [] pkg (group_by_package rules) ≡ package_rules rules pkg)
unfolding group_by_package
group_by_package_lem rules pkg =
    (group_into-NodupKeys rules [] tt, get_or-group_into rules [] pkg ∙ unfold lookup in refl)

pub group-entries :
    (rules : PolicyRules)
    → All (λ (pkg, infos). infos ≡ package_rules rules pkg) (group_by_package rules)
group-entries rules =
    All-map
      (λ (pkg, infos) h.
        sym (get_or_of_some [] pkg infos (group_by_package rules) h)
        ∙ (group_by_package_lem rules pkg).1)
      (group_by_package rules)
      (All-Found (group_by_package rules) (group_by_package_lem rules []).0)

module _ (f : Text → Info → Bool) where
  abbrev in_groups : Dict (List Info) → Bool
  in_groups = any (λ (pkg, infos). any (f pkg) infos)

  in_groups-insert :
      (pkg : Text) (info : Info) (g : Dict (List Info))
      → in_groups (insert pkg (get_or [] pkg g ++ info ∷ []) g) ≡ (in_groups g || f pkg info)
  unfolding insert lookup any
  in_groups-insert pkg info [] = ground arith
  in_groups-insert pkg info ((j, infos) ∷ g) =
      ground (arith, in_groups-insert pkg info g, any-append (f j) infos (info ∷ []))

  in_groups-group_into :
      (rules : PolicyRules) (g : Dict (List Info))
      → in_groups (group_into rules g)
        ≡ (in_groups g || any (λ (name, info). f (package_of name) info) rules)
  unfolding group_into any
  in_groups-group_into [] g = ground arith
  in_groups-group_into ((name, info) ∷ rules) g =
      in_groups-group_into rules _ ∙ ground (arith, in_groups-insert (package_of name) info g)

  -- Some rule of some group passes a test exactly if some rule passes it.
  pub any-group_by_package :
      (rules : PolicyRules)
      → any (λ (pkg, infos). any (f pkg) infos) (group_by_package rules)
        ≡ any (λ (name, info). f (package_of name) info) rules
  unfolding group_by_package
  any-group_by_package rules = in_groups-group_into rules [] ∙ unfold any in refl

is_empty-snoc : (infos : List Info) (info : Info) → is_empty (infos ++ info ∷ []) ≡ false
is_empty-snoc [] info = refl
is_empty-snoc _ info = refl

group_into-nonempty :
    (rules : PolicyRules) (g : Dict (List Info))
    → All (λ (pkg, infos). is_empty infos ≡ false) g
    → All (λ (pkg, infos). is_empty infos ≡ false) (group_into rules g)
unfolding group_into
group_into-nonempty [] g h = h
group_into-nonempty ((name, info) ∷ rules) g h = group_into-nonempty rules _ (
    All-insert (λ (pkg, infos). is_empty infos ≡ false) (package_of name) _ g
      (λ _. is_empty-snoc (get_or [] (package_of name) g) info) h)

-- No group is empty.
group-nonempty :
    (rules : PolicyRules) → All (λ (pkg, infos). is_empty infos ≡ false) (group_by_package rules)
unfolding group_by_package
group-nonempty rules = group_into-nonempty rules [] tt

any_const : (b : Bool) (infos : List Info) → is_empty infos ≡ false → b ≡ any (λ _. b) infos
unfolding any
any_const b [] h = cc
any_const true (info ∷ infos) h = refl
any_const false (info ∷ []) h = refl
any_const false (info ∷ next ∷ infos) h = any_const false (next ∷ infos) refl

-- A test of the packages over the groups is one over the rules.
pub any-packages :
    (p : Text → List Info → Bool) (rules : PolicyRules)
    → any (λ (pkg, infos). p pkg infos) (group_by_package rules)
      ≡ any (λ (name, info). p (package_of name) (package_rules rules (package_of name))) rules
any-packages p rules =
    any_congr_All (λ (pkg, infos). p pkg infos)
      (λ (pkg, infos). any (λ _. p pkg (package_rules rules pkg)) infos) (group_by_package rules)
      (All-zip
        (λ (pkg, infos) e n. ap (p pkg) e ∙ any_const (p pkg (package_rules rules pkg)) infos n)
        (group_by_package rules) (group-entries rules) (group-nonempty rules))
    ∙ any-group_by_package (λ pkg _. p pkg (package_rules rules pkg)) rules
