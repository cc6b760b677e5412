-- ===== src/Base/Maps.antt =====
-- Go maps with string keys as association lists, in the order in which one `range` visits them,
-- and `map[string]bool` used as a set as the list of its keys.
use mathlib.Core.Path.{◌≡◌, refl}
use mathlib.Core.Bool.{not}
use mathlib.Core.Option.{Option, none, some}
use mathlib.Core.List.{List, [], ◌∷◌, ◌++◌}
use native.Mathlib.Omega.{arith}
use mathlib.Core.Logic.{inl, inr}
use mathlib.Core.Bool.{true, ◌||◌}
use ec_cli.Base.Tests.{Text, ◌==◌, text_eq, if◌then◌else◌, Bool-cases}
use ec_cli.Base.Lists.{All, keep, contains, contains-append}

abbrev pub Dict {ℓ} : Type ℓ → Type ℓ
Dict V = List (Text × V)

module _ {ℓ} {V : Type ℓ} where
  -- `m[k]` with the flag that tells whether the key is there
  unfoldable pub lookup : Text → Dict V → Option V
  lookup k [] = none
  lookup k ((j, v) ∷ d) = if j == k then some v else lookup k d

  -- `m[k] = v`
  unfoldable pub insert : Text → V → Dict V → Dict V
  insert k v [] = (k, v) ∷ []
  insert k v ((j, w) ∷ d) = if j == k then (j, v) ∷ d else (j, w) ∷ insert k v d

  -- `delete(m, k)`
  unfoldable pub erase : Text → Dict V → Dict V
  erase k [] = []
  erase k ((j, w) ∷ d) = let rest = erase k d in if j == k then rest else (j, w) ∷ rest

  unfoldable pub keys : Dict V → List Text
  keys [] = []
  keys ((k, v) ∷ d) = k ∷ keys d

  -- `m[k]`, the zero value where the key is missing
  abbrev pub get_or : V → Text → Dict V → V
  get_or zero_value k d = elim (lookup k d) [ none ↦ zero_value | some v ↦ v ]

module _ {ℓ} {V : Type ℓ} where
  pub lookup-insert :
      (j k : Text) (v : V) (d : Dict V)
      → lookup j (insert k v d) ≡ (if k == j then some v else lookup j d)
  unfolding insert lookup
  lookup-insert j k v [] = refl
  lookup-insert j k v ((i, w) ∷ d) = ground (arith, lookup-insert j k v d)

  pub get_or-insert :
      (z : V) (j k : Text) (v : V) (d : Dict V)
      → get_or z j (insert k v d) ≡ (if k == j then v else get_or z j d)
  get_or-insert z j k v d = ground (arith, lookup-insert j k v d)

  pub get_or_of_some :
      (z : V) (k : Text) (v : V) (d : Dict V) → lookup k d ≡ some v → get_or z k d ≡ v
  get_or_of_some z k v d h = ground arith

-- A `map[string]bool` in which every stored value is true.
abbrev pub TextSet : Type 0
TextSet = List Text

-- `m[k] = true`
unfoldable pub add : Text → TextSet → TextSet
add k s = if contains s k then s else s ++ k ∷ []

-- `delete(m, k)`
unfoldable pub remove : Text → TextSet → TextSet
remove k s = keep (λ j. not (j == k)) s

pub contains-add : (k j : Text) (s : TextSet) → contains (add k s) j ≡ (k == j || contains s j)
unfolding add contains
contains-add k j s = elim (Bool-cases (contains s k)) [
  | inl e ↦ rw e (ground (arith, contains-same s k j e))
  | inr e ↦ rw (e, contains-append s (k ∷ []) j) (ground arith)
]
  where
    contains-same :
        (s : TextSet) (k j : Text) → contains s k ≡ true → contains s j ≡ (k == j || contains s j)
    contains-same s k j h = ground arith

module _ {ℓ} {V : Type ℓ} where
  -- No key stands twice, as in every Go map.
  abbrev pub NodupKeys : Dict V → Type ℓ
  NodupKeys [] = Unit
  NodupKeys ((k, v) ∷ d) = (lookup k d ≡ none) × NodupKeys d

module _ {ℓ} {V : Type ℓ} where
  pub insert-NodupKeys : (k : Text) (v : V) (d : Dict V) → NodupKeys d → NodupKeys (insert k v d)
  unfolding insert
  insert-NodupKeys k v [] h = (unfold lookup in refl, tt)
  insert-NodupKeys k v ((j, w) ∷ d) (fresh, h) = elim (Bool-cases (j == k)) [
    | inl e ↦ rw e (fresh, h)
    | inr e ↦ rw e (rw lookup-insert (ground arith), insert-NodupKeys k v d h)
  ]

  -- Every entry is found under its key.
  abbrev pub Found : Dict V → Text × V → Type ℓ
  Found d (k, v) = lookup k d ≡ some v

  Found-cons :
      (k : Text) (v : V) (d e : Dict V)
      → lookup k d ≡ none
      → All (Found d) e
      → All (Found ((k, v) ∷ d)) e
  unfolding lookup
  Found-cons k v d [] fresh h = tt
  Found-cons k v d ((j, w) ∷ e) fresh (f, h) = (ground arith, Found-cons k v d e fresh h)

  pub All-Found : (d : Dict V) → NodupKeys d → All (Found d) d
  unfolding lookup
  All-Found [] h = tt
  All-Found ((k, v) ∷ d) (fresh, h) = (ground arith, Found-cons k v d d fresh (All-Found d h))

  pub All-insert {κ} :
      (P : Text × V → Type κ) (k : Text) (v : V) (d : Dict V)
      → ((j : Text) → P (j, v))
      → All P d
      → All P (insert k v d)
  unfolding insert
  All-insert P k v [] h hs = (h k, tt)
  All-insert P k v ((j, w) ∷ d) h (g, hs) = elim (Bool-cases (j == k)) [
    | inl e ↦ rw e (h j, hs)
    | inr e ↦ rw e (g, All-insert P k v d h hs)
  ]
