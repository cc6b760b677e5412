-- ===== src/Evaluator/Criteria.antt =====
-- internal/evaluator/criteria.go: include and exclude lists, for all images and for one image.
-- The reference parser of go-containerregistry and the parser of RFC 3339 times are parameters; a
-- time is a number of nanoseconds.
pub mod Lookups
pub mod Defaults
use ec_cli.Base.{
  ℕ, ◌+◌, Text, lit, List, [], ◌∷◌, ◌++◌, length, is_empty, Option, none, some, Bool, ◌&&◌, not,
  leb, if◌then◌else◌, Dict, get_or, insert,
}

pub record Criteria : Type 0 where
  pub digest_items : Dict (List Text)
  pub default_items : List Text

abbrev pub empty_criteria : Criteria
empty_criteria = record { digest_items = []; default_items = [] }

unfoldable pub total_items : Dict (List Text) → ℕ
total_items [] = 0
total_items ((k, items) ∷ d) = length items + total_items d

unfoldable pub len : Criteria → ℕ
len c = length c.default_items + total_items c.digest_items

unfoldable pub add_array : Text → List Text → Criteria → Criteria
add_array key values c =
    if is_empty key then record c { default_items = c.default_items ++ values } else record c {
      digest_items = insert key (get_or [] key c.digest_items ++ values) c.digest_items;
    }

unfoldable pub add_item : Text → Text → Criteria → Criteria
add_item key value c =
    if is_empty key then record c { default_items = c.default_items ++ value ∷ [] } else record c {
      digest_items = insert key (get_or [] key c.digest_items ++ value ∷ []) c.digest_items;
    }

-- What `name.ParseReference` gives: the repository's name, and the digest of a digest reference.
pub record Reference : Type 0 where
  pub context_name : Text
  pub digest : Option Text

abbrev pub ReferenceParser : Type 0
ReferenceParser = Text → Option Reference

unfoldable pub get_with_key : Text → Criteria → List Text
get_with_key key c = get_or [] key c.digest_items

unfoldable pub lookup_keys : Reference → List Text
lookup_keys ref = elim ref.digest [
  | none ↦ ref.context_name ∷ []
  | some d ↦ ref.context_name ∷ d ∷ []
]

unfoldable pub items_of : List Text → Criteria → List Text
items_of [] c = []
items_of (k ∷ ks) c = get_with_key k c ++ items_of ks c

unfoldable pub get : ReferenceParser → Criteria → Text → List Text
get parse c key = elim (parse key) [
  | none ↦ c.default_items
  | some ref ↦ items_of (lookup_keys ref) c ++ c.default_items
]

pub record VolatileCriteria : Type 0 where
  pub value : Text
  pub effective_on : Text
  pub effective_until : Text
  pub image_ref : Text
  pub image_url : Text
  pub image_digest : Text

pub record VolatileConfig : Type 0 where
  pub include : List VolatileCriteria
  pub exclude : List VolatileCriteria

pub record SourceConfig : Type 0 where
  pub include : List Text
  pub exclude : List Text

-- The `configuration` of the policy's spec, with the old list of collections.
pub record Configuration : Type 0 where
  pub include : List Text
  pub exclude : List Text
  pub collections : List Text

-- The decoded `ruleData` of a source: none given, no JSON object, or the members that are strings,
-- arrays (with `none` for an element that is no string) or anything else.
pub data Datum : Type 0 where
  string : Text → Datum
  array : List (Option Text) → Datum
  other : Datum

pub data RuleData : Type 0 where
  absent malformed : RuleData
  object : Dict Datum → RuleData

pub record Source : Type 0 where
  pub config : Option SourceConfig
  pub volatile_config : Option VolatileConfig
  pub rule_data : RuleData

-- The part of the policy that the evaluator reads.
pub record ConfigProvider : Type 0 where
  pub effective_time : ℕ
  pub configuration : Option Configuration

abbrev pub TimeParser : Type 0
TimeParser = Text → Option ℕ

-- An end of the period that is missing or does not parse is the effective time itself.
unfoldable pub time_or : TimeParser → ℕ → Text → ℕ
time_or parse at s = elim (parse s) [ none ↦ at | some t ↦ t ]

unfoldable pub is_active : TimeParser → ℕ → VolatileCriteria → Bool
is_active parse at c =
    leb at (time_or parse at c.effective_until) && leb (time_or parse at c.effective_on) at

-- `image_ref` and `image_url` are the deprecated spellings, and come first.
unfoldable pub add_volatile : VolatileCriteria → Criteria → Criteria
add_volatile c items =
    if not (is_empty c.image_ref)
    then add_item c.image_ref c.value items
    else if not (is_empty c.image_url)
    then add_item c.image_url c.value items
    else if not (is_empty c.image_digest)
    then add_item c.image_digest c.value items
    else add_item [] c.value items

unfoldable pub collect_volatile_config_items :
    TimeParser → ℕ → List VolatileCriteria → Criteria → Criteria
collect_volatile_config_items parse at [] items = items
collect_volatile_config_items parse at (c ∷ cs) items =
    collect_volatile_config_items parse at cs
      (if is_active parse at c then add_volatile c items else items)

unfoldable pub with_source_config : Option SourceConfig → Criteria × Criteria
with_source_config none = (empty_criteria, empty_criteria)
with_source_config (some sc) =
    if not (is_empty sc.include && is_empty sc.exclude)
    then (add_array [] sc.include empty_criteria, add_array [] sc.exclude empty_criteria)
    else (empty_criteria, empty_criteria)

unfoldable pub with_volatile_config :
    TimeParser → ℕ → Option VolatileConfig → Criteria × Criteria → Criteria × Criteria
with_volatile_config parse at none both = both
with_volatile_config parse at (some vc) (include, exclude) = (
  collect_volatile_config_items parse at vc.include include,
  collect_volatile_config_items parse at vc.exclude exclude,
)

unfoldable pub add_collections : List Text → Criteria → Criteria
add_collections [] c = c
add_collections (collection ∷ rest) c = add_collections rest (add_item [] (lit "@" ++ collection) c)

unfoldable pub with_policy_config : Option Configuration → Criteria × Criteria → Criteria × Criteria
with_policy_config none both = both
with_policy_config (some config) (include, exclude) = (
  add_collections config.collections (add_array [] config.include include),
  add_array [] config.exclude exclude,
)

unfoldable pub is_none_given : Criteria × Criteria → Bool
is_none_given (include, exclude) = leb (len include) 0 && leb (len exclude) 0

unfoldable pub default_include : Criteria × Criteria → Criteria × Criteria
default_include (include, exclude) =
    (if leb (len include) 0 then add_item [] (lit "*") include else include, exclude)

unfoldable pub compute_include_exclude : TimeParser → Source → ConfigProvider → Criteria × Criteria
compute_include_exclude parse src p =
    let given =
      with_volatile_config parse p.effective_time src.volatile_config
        (with_source_config src.config) in
    default_include
      (if is_none_given given then with_policy_config p.configuration given else given)
