-- ===== src/Support/Choosing.antt =====
-- Which policy file is chosen.
use ec_cli.Base.{
  ◌≡◌, subst, Text, List, [], ◌∷◌, is_empty, Option, some, Bool, true, false, Option-cases, inl,
  inr, arith,
}
use ec_cli.Support.{ConfigTools, read_file, get_policy_config, starts_with_brace, choose_from}

-- The first name that exists, with none that exists before it.
pub data IsFirst (exists : Text → Option Bool) (path_join : Text → Text → Text) (dir : Text)
    (file : Text) : List Text → Type 0 where
  here :
      {name : Text} {names : List Text}
      → exists file ≡ some true
      → path_join dir name ≡ file
      → IsFirst exists path_join dir file (name ∷ names)
  there :
      {name : Text} {names : List Text}
      → exists (path_join dir name) ≡ some false
      → IsFirst exists path_join dir file names
      → IsFirst exists path_join dir file (name ∷ names)

choose_from-IsFirst :
    (exists : Text → Option Bool) (path_join : Text → Text → Text) (dir : Text) (names : List Text)
    (file : Text)
    → choose_from exists path_join dir names ≡ some file
    → IsFirst exists path_join dir file names
unfolding choose_from
choose_from-IsFirst exists path_join dir [] file h = cc
choose_from-IsFirst exists path_join dir (n ∷ names) file h =
    elim (Option-cases (exists (path_join dir n))) [
      | inl e ↦ cc (rw (e, choose_from) at h)
      | inr (true, e) ↦
          let same : path_join dir n ≡ file = cc (rw (e, choose_from) at h) in
          here (subst (λ f. exists f ≡ some true) same e) same
      | inr (false, e) ↦
          there e (choose_from-IsFirst exists path_join dir names file (rw (e, choose_from) at h))
    ]

-- A policy configuration that is read is not empty, unless it was given empty.
get_policy_config-empty :
    (t : ConfigTools) (configuration : Text)
    → get_policy_config t configuration ≡ some []
    → is_empty configuration ≡ true
unfolding get_policy_config read_file starts_with_brace
get_policy_config-empty t configuration h = ground arith
