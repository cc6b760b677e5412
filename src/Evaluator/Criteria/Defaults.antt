-- ===== src/Evaluator/Criteria/Defaults.antt =====
-- Which configuration decides the criteria: a source's own, else the policy's, else everything.
use ec_cli.Base.{
  ℕ, length, ◌≡◌, refl, ap, none, is_empty, Bool, not, ◌&&◌, if◌then◌else◌, any, leb, Dict, sym,
  append-nil, ◌∙◌, Text, lit, some, List, [], ◌∷◌, ◌++◌, arith, text_eq, length-append, ◌+◌, ◌<◌,
  map, Option, append_assoc,
}
use ec_cli.Evaluator.Criteria.{
  SourceConfig, VolatileConfig, VolatileCriteria, collect_volatile_config_items, Criteria, len,
  total_items, add_item, add_array, TimeParser, Source, Configuration, ConfigProvider,
  with_source_config, with_volatile_config, with_policy_config, is_none_given, default_include,
  add_collections, compute_include_exclude,
}

len-default_include : (both : Criteria × Criteria) → 0 < len (default_include both).0
unfolding default_include len add_item
len-default_include (include, exclude) =
    ground (arith, length-append include.default_items (lit "*" ∷ []))

-- There is always an include criterion, whatever the configuration.
len-compute_include_exclude :
    (parse : TimeParser) (src : Source) (p : ConfigProvider)
    → 0 < len (compute_include_exclude parse src p).0
unfolding compute_include_exclude
len-compute_include_exclude parse src p = len-default_include _

-- What the source's own configuration gives.
abbrev pub given_by_source : TimeParser → Source → ConfigProvider → Criteria × Criteria
given_by_source parse src p =
    with_volatile_config parse p.effective_time src.volatile_config (with_source_config src.config)

add_collections_lem :
    (cs : List Text) (c : Criteria)
    → add_collections cs c
      ≡ record c { default_items = c.default_items ++ map (λ name. lit "@" ++ name) cs }
unfolding add_collections add_item
add_collections_lem [] c = λ i. record {
  digest_items = c.digest_items;
  default_items = sym (append-nil c.default_items) i;
}
add_collections_lem (name ∷ cs) c = add_collections_lem cs _ ∙ λ i. record {
  digest_items = c.digest_items;
  default_items =
      append_assoc c.default_items ((lit "@" ++ name) ∷ []) (map (λ name. lit "@" ++ name) cs) i;
}

-- No criterion is given, for any image.
unfoldable pub is_blank : Criteria → Bool
is_blank c = is_empty c.default_items && not (any (λ e. not (is_empty e.1)) c.digest_items)

total_items_lem :
    (d : Dict (List Text)) → leb (total_items d) 0 ≡ not (any (λ e. not (is_empty e.1)) d)
unfolding total_items any
total_items_lem [] = refl
total_items_lem ((k, []) ∷ d) = ground (arith, total_items_lem d)
total_items_lem ((k, x ∷ xs) ∷ d) = ground arith

no_items_lem :
    (xs : List Text) (d : Dict (List Text))
    → leb (length xs + total_items d) 0 ≡ (is_empty xs && not (any (λ e. not (is_empty e.1)) d))
no_items_lem [] d = ground (arith, total_items_lem d)
no_items_lem (x ∷ xs) d = ground arith

is_blank_lem : (c : Criteria) → leb (len c) 0 ≡ is_blank c
unfolding len is_blank
is_blank_lem c = no_items_lem c.default_items c.digest_items

-- The names that a source's configuration gives for every image.
abbrev pub source_names : (SourceConfig → List Text) → Source → List Text
source_names part src = elim src.config [ none ↦ [] | some sc ↦ part sc ]

abbrev pub source_items : (VolatileConfig → List VolatileCriteria) → Source → List VolatileCriteria
source_items part src = elim src.volatile_config [ none ↦ [] | some vc ↦ part vc ]

-- The names and the active volatile items of a source.
abbrev pub own_criteria : TimeParser → ℕ → List Text → List VolatileCriteria → Criteria
own_criteria parse at names items =
    collect_volatile_config_items parse at items
      (record { digest_items = []; default_items = names })

given_by_source_lem :
    (parse : TimeParser) (src : Source) (p : ConfigProvider)
    → given_by_source parse src p ≡ (
      own_criteria parse p.effective_time
          (source_names (λ sc. sc.include) src)
          (source_items (λ vc. vc.include) src),
      own_criteria parse p.effective_time
          (source_names (λ sc. sc.exclude) src)
          (source_items (λ vc. vc.exclude) src),
    )
unfolding with_volatile_config with_source_config collect_volatile_config_items add_array
given_by_source_lem parse src p = ground arith

-- Names behind those for every image.
abbrev pub with_names : List Text → Criteria → Criteria
with_names names c = record c { default_items = c.default_items ++ names }

-- The criteria of a source, and where it has none at all, those of the policy's configuration.
unfoldable pub chosen : Criteria → Criteria → Option Configuration → Criteria × Criteria
chosen include exclude configuration =
    if is_blank include && is_blank exclude
    then elim configuration [
      | none ↦ (include, exclude)
      | some config ↦ (
        with_names (config.include ++ map (λ name. lit "@" ++ name) config.collections) include,
        with_names config.exclude exclude,
      )
    ]
    else (include, exclude)

-- The choice of the code, and its default.
abbrev chosen_by : Option Configuration → Criteria × Criteria → Criteria × Criteria
chosen_by configuration both =
    if is_none_given both then with_policy_config configuration both else both

chosen_lem :
    (include exclude : Criteria) (configuration : Option Configuration)
    → chosen_by configuration (include, exclude) ≡ chosen include exclude configuration
unfolding chosen is_none_given with_policy_config add_array
chosen_lem include exclude none = ground (arith, is_blank_lem include, is_blank_lem exclude)
chosen_lem include exclude (some config) = ground (
  arith,
  is_blank_lem include,
  is_blank_lem exclude,
  add_collections_lem config.collections (add_array [] config.include include),
  append_assoc include.default_items config.include
      (map (λ name. lit "@" ++ name) config.collections),
)

default_include_lem :
    (both : Criteria × Criteria)
    → default_include both
      ≡ (if is_blank both.0 then with_names (lit "*" ∷ []) both.0 else both.0, both.1)
unfolding default_include add_item
default_include_lem (include, exclude) = ground (arith, is_blank_lem include)

-- The criteria of a source are its own names and its volatile items that are active. If it has
-- neither included nor excluded ones, it takes those of the policy configuration, if there is one:
-- its include list with its collections behind, and its exclude list, for every image. If there is
-- still no include criterion, the star is included.
pub compute_include_exclude_lem :
    (parse : TimeParser) (src : Source) (p : ConfigProvider)
    → let both =
        chosen
          (own_criteria parse p.effective_time
            (source_names (λ sc. sc.include) src)
            (source_items (λ vc. vc.include) src))
          (own_criteria parse p.effective_time
            (source_names (λ sc. sc.exclude) src)
            (source_items (λ vc. vc.exclude) src))
          p.configuration in
      compute_include_exclude parse src p
      ≡ (if is_blank both.0 then with_names (lit "*" ∷ []) both.0 else both.0, both.1)
unfolding compute_include_exclude
compute_include_exclude_lem parse src p =
    ap (λ both. default_include (chosen_by p.configuration both)) (given_by_source_lem parse src p)
    ∙ (ap default_include (chosen_lem _ _ p.configuration) ∙ default_include_lem _)
