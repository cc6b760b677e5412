-- ===== src/Evaluator/Criteria/Lookups.antt =====
-- What `get` finds for an image after items were added, and which volatile items count.
use ec_cli.Base.{
  ℕ, ◌≡◌, refl, Text, Bool, false, none, some, List, [], ◌∷◌, ◌++◌, ◌&&◌, ◌||◌, not, arith, ◌==◌,
  leb, true, text_eq, is_empty, if◌then◌else◌, any, contains, contains-append, inl, inr,
  Option-cases, get_or, get_or-insert,
}
use ec_cli.Evaluator.Criteria.{
  Criteria, ReferenceParser, TimeParser, get, get_with_key, lookup_keys, items_of, add_item,
  VolatileCriteria, is_active, time_or, add_volatile, collect_volatile_config_items,
}

-- The items stored under a key are for the target: under no key for every target, else for the
-- references with that repository or digest.
unfoldable pub applies : ReferenceParser → Text → Text → Bool
applies parse target key = is_empty key || elim (parse target) [
  | none ↦ false
  | some ref ↦ ref.context_name == key || elim ref.digest [ none ↦ false | some d ↦ d == key ]
]

unfoldable is_keyed : ReferenceParser → Text → Text → Bool
is_keyed parse target key =
    is_empty key || elim (parse target) [ none ↦ false | some ref ↦ contains (lookup_keys ref) key ]

applies_lem :
    (parse : ReferenceParser) (target key : Text)
    → is_keyed parse target key ≡ applies parse target key
unfolding applies is_keyed lookup_keys contains
applies_lem parse target key = ground arith

-- The time is within the window of a volatile item: its start and its end belong to the window, and
-- a bound that is missing or cannot be read does not restrict it.
unfoldable pub is_within : TimeParser → ℕ → VolatileCriteria → Bool
is_within times at v =
    elim (times v.effective_on) [ none ↦ true | some start ↦ leb start at ]
    && elim (times v.effective_until) [ none ↦ true | some end ↦ leb at end ]

is_within_lem :
    (times : TimeParser) (at : ℕ) (v : VolatileCriteria)
    → is_active times at v ≡ is_within times at v
unfolding is_active is_within time_or
is_within_lem times at v = ground arith

get_with_key-add_item :
    (k key value : Text) (c : Criteria)
    → is_empty key ≡ false
    → get_with_key k (add_item key value c)
      ≡ (if key == k then get_with_key k c ++ value ∷ [] else get_with_key k c)
unfolding get_with_key add_item
get_with_key-add_item k key value c h =
    ground
      (arith, get_or-insert [] k key (get_or [] key c.digest_items ++ value ∷ []) c.digest_items)

contains-one : (value x : Text) → contains (value ∷ []) x ≡ (value == x)
unfolding contains
contains-one value x = ground arith

contains-get_with_key-add_item :
    (k key value : Text) (c : Criteria) (x : Text)
    → is_empty key ≡ false
    → contains (get_with_key k (add_item key value c)) x
      ≡ (contains (get_with_key k c) x || (k == key && value == x))
contains-get_with_key-add_item k key value c x h = ground (
  arith,
  get_with_key-add_item k key value c,
  contains-append (get_with_key k c) (value ∷ []) x,
  contains-one value x,
)

items_of-add_item :
    (ks : List Text) (key value : Text) (c : Criteria) (x : Text)
    → is_empty key ≡ false
    → contains (items_of ks (add_item key value c)) x
      ≡ (contains (items_of ks c) x || (contains ks key && value == x))
unfolding items_of contains
items_of-add_item [] key value c x h = refl
items_of-add_item (k ∷ ks) key value c x h = ground (
  arith,
  contains-append (get_with_key k (add_item key value c)) (items_of ks (add_item key value c)) x,
  contains-append (get_with_key k c) (items_of ks c) x,
  contains-get_with_key-add_item k key value c x,
  items_of-add_item ks key value c x,
)

-- Adding for all images changes the default items only.
items_of-add_default :
    (ks : List Text) (value : Text) (c : Criteria)
    → items_of ks (add_item [] value c) ≡ items_of ks c
unfolding items_of add_item get_with_key
items_of-add_default [] value c = refl
items_of-add_default (k ∷ ks) value c = ground (arith, items_of-add_default ks value c)

default_items-add_item :
    (key value : Text) (c : Criteria) (x : Text)
    → contains (add_item key value c).default_items x
      ≡ (contains c.default_items x || (is_empty key && value == x))
unfolding add_item
default_items-add_item key value c x =
    ground (arith, contains-append c.default_items (value ∷ []) x, contains-one value x)

-- An item added under a key is found for exactly the images that the key applies to, and nothing
-- else changes.
get-add_item :
    (parse : ReferenceParser) (key value : Text) (c : Criteria) (target x : Text)
    → contains (get parse (add_item key value c) target) x
      ≡ (contains (get parse c target) x || (is_keyed parse target key && value == x))
unfolding get is_keyed
get-add_item parse key value c target x = elim (Option-cases (parse target)) [
  | inl e ↦ rw (e, get) (ground (arith, default_items-add_item key value c x))
  | inr (ref, e) ↦ rw (e, get) (items-add_item (lookup_keys ref) key)
]
  where
    items-add_item :
        (ks : List Text) (key : Text)
        → contains (items_of ks (add_item key value c) ++ (add_item key value c).default_items) x
          ≡ (contains (items_of ks c ++ c.default_items) x
              || ((is_empty key || contains ks key) && value == x))
    items-add_item ks [] = ground (
      arith,
      contains-append (items_of ks (add_item [] value c)) (add_item [] value c).default_items x,
      contains-append (items_of ks c) c.default_items x,
      items_of-add_default ks value c,
      default_items-add_item [] value c x,
    )
    items-add_item ks (b ∷ key) = ground (
      arith,
      contains-append (items_of ks (add_item (b ∷ key) value c))
          (add_item (b ∷ key) value c).default_items x,
      contains-append (items_of ks c) c.default_items x,
      items_of-add_item ks (b ∷ key) value c x,
      default_items-add_item (b ∷ key) value c x,
    )

-- The key under which a volatile item is stored.
abbrev pub volatile_key : VolatileCriteria → Text
volatile_key v =
    if not (is_empty v.image_ref)
    then v.image_ref
    else if not (is_empty v.image_url)
    then v.image_url
    else v.image_digest

add_volatile_lem :
    (v : VolatileCriteria) (c : Criteria) → add_volatile v c ≡ add_item (volatile_key v) v.value c
unfolding add_volatile
add_volatile_lem v c = split v.image_digest refl
  where
    split : (d : Text) → v.image_digest ≡ d → add_volatile v c ≡ add_item (volatile_key v) v.value c
    split [] e = ground arith
    split (b ∷ d) e = ground arith

-- A name counts for an image exactly if it did before, or there is a volatile item with that name
-- whose key applies to the image, by no key at all, by the name of its repository or by its digest,
-- and whose period contains the time: both ends belong to it, and an end that is missing or cannot
-- be read does not restrict it.
pub get-collect_volatile_config_items :
    (parse : ReferenceParser) (times : TimeParser) (at : ℕ) (items : List VolatileCriteria)
    (c : Criteria) (target x : Text)
    → contains (get parse (collect_volatile_config_items times at items c) target) x ≡ (
        contains (get parse c target) x
        || any
            (λ v. is_within times at v && (applies parse target (volatile_key v) && v.value == x))
            items)
unfolding collect_volatile_config_items any
get-collect_volatile_config_items parse times at [] c target x = ground arith
get-collect_volatile_config_items parse times at (v ∷ items) c target x = ground (
  arith,
  get-collect_volatile_config_items parse times at items (add_volatile v c) target x,
  get-collect_volatile_config_items parse times at items c target x,
  add_volatile_lem v c,
  get-add_item parse (volatile_key v) v.value c target x,
  is_within_lem times at v,
  applies_lem parse target (volatile_key v),
)
