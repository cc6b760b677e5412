-- ===== src/Snapshot/Input/Expansion.antt =====
-- The expansion of image indexes in internal/applicationsnapshot/input.go and expansion_info.go,
-- and the filter of reports in internal/validate/vsa/vsa.go that reads what it leaves behind. The
-- registry and `sort.Slice` are parameters. The workers are run one after the other.
use ec_cli.Base.{
  ℕ, zero, suc, ◌+◌, Text, lit, List, [], ◌∷◌, ◌++◌, is_empty, Option, none, some, Bool, ltb,
  if◌then◌else◌, Dict, insert, lookup, get_or, contains, text_eq, keep,
}
use Prim.Native.Nat.{◌/◌, ◌%◌}
use ec_cli.Snapshot.Input.{SnapshotComponent}

pub record ExpansionInfo : Type 0 where
  pub children_by_index : Dict (List Text)
  pub parent_by_child : Dict Text
  pub index_aliases : Dict Text

abbrev pub new_expansion_info : ExpansionInfo
new_expansion_info = record { children_by_index = []; parent_by_child = []; index_aliases = [] }

-- `name.Reference`: its name, and the name of its repository.
pub record Reference : Type 0 where
  pub name : Text
  pub repository : Text

pub record Manifest : Type 0 where
  pub digest : Text
  pub architecture : Option Text

-- `client.Head` gives a digest and whether the image is an index, `client.Index` an index.
pub record Registry : Type 0 where
  pub parse_reference : Text → Option Reference
  pub head : Reference → Option (Text × Bool)
  pub index : Reference → Option ℕ
  pub index_manifest : ℕ → Option (List Manifest)

-- `%d`; the fuel is more than the number of digits.
unfoldable pub decimal : ℕ → ℕ → Text
decimal zero n = []
decimal (suc fuel) n =
    let front = decimal fuel (n / 10) in
    if ltb n 10 then (48 + n) ∷ [] else front ++ ((48 + n % 10) ∷ [])

unfoldable pub arch_of : ℕ → Manifest → Text
arch_of i m =
    let noarch = lit "noarch-" ++ decimal (suc i) i in
    elim m.architecture [ none ↦ noarch | some arch ↦ if is_empty arch then noarch else arch ]

unfoldable pub arch_component : SnapshotComponent → Reference → ℕ → Manifest → SnapshotComponent
arch_component c ref i m = record c {
  name = c.name ++ (lit "-" ++ (m.digest ++ (lit "-" ++ arch_of i m)));
  container_image = ref.repository ++ (lit "@" ++ m.digest);
}

-- The parent and the child, added to the information.
unfoldable pub add_child : Text → Text → ExpansionInfo → ExpansionInfo
add_child idx child exp = record exp {
  children_by_index =
      insert idx (get_or [] idx exp.children_by_index ++ (child ∷ [])) exp.children_by_index;
  parent_by_child = insert child idx exp.parent_by_child;
}

-- The loop over the manifests of an index, from the `i`th on.
unfoldable pub add_manifests :
    SnapshotComponent
    → Reference
    → Text
    → ℕ
    → List Manifest
    → ExpansionInfo
    → List SnapshotComponent × ExpansionInfo
add_manifests c ref idx i [] exp = ([], exp)
add_manifests c ref idx i (m ∷ ms) exp =
    let child = arch_component c ref i m in
    let (rest, exp') =
      add_manifests c ref idx (i + 1) ms (add_child idx child.container_image exp) in
    (child ∷ rest, exp')

module _ (g : Registry) where
  -- The manifests of the index that a component refers to, with its reference and its digest.
  unfoldable pub manifests_of : SnapshotComponent → Option (Reference × Text × List Manifest)
  manifests_of c = elim (g.parse_reference c.container_image) [
    | none ↦ none
    | some ref ↦ elim (g.head ref) [
      | none ↦ none
      | some (digest, is_index) ↦
          let listed : Option (Reference × Text × List Manifest) = elim (g.index ref) [
            | none ↦ none
            | some index ↦ elim (g.index_manifest index) [
              | none ↦ none
              | some manifests ↦ some (ref, digest, manifests)
            ]
          ] in
          if is_index then listed else none
    ]
  ]

  unfoldable pub image_index_worker :
      SnapshotComponent → ExpansionInfo → List SnapshotComponent × ExpansionInfo
  image_index_worker c exp = elim (manifests_of c) [
    | none ↦ (c ∷ [], exp)
    | some (ref, digest, manifests) ↦
        let idx = ref.repository ++ (lit "@" ++ digest) in
        let (children, exp') =
          add_manifests c ref idx 0 manifests
            (record exp { index_aliases = insert ref.name idx exp.index_aliases }) in
        (c ∷ children, exp')
  ]

  unfoldable pub expand_each :
      List SnapshotComponent → ExpansionInfo → List SnapshotComponent × ExpansionInfo
  expand_each [] exp = ([], exp)
  expand_each (c ∷ cs) exp =
      let (components, exp') = image_index_worker c exp in
      let (rest, exp'') = expand_each cs exp' in (components ++ rest, exp'')

  -- `expandImageIndex`, with the sort by image
  unfoldable pub expand_image_index :
      (List SnapshotComponent → List SnapshotComponent)
      → List SnapshotComponent
      → List SnapshotComponent × ExpansionInfo
  expand_image_index sort cs =
      let (components, exp) = expand_each cs new_expansion_info in (sort components, exp)

-- `normalizeIndexRef`
unfoldable pub normalize_index_ref : Text → Option ExpansionInfo → Text
normalize_index_ref ref none = ref
normalize_index_ref ref (some exp) = get_or ref ref exp.index_aliases

-- The set `include` of `FilterReportForTargetRef`
unfoldable pub include_for : Text → Option ExpansionInfo → List Text
include_for target none = target ∷ []
include_for target (some exp) = elim (lookup target exp.children_by_index) [
  | none ↦ target ∷ []
  | some images ↦ target ∷ images
]

-- The components that `FilterReportForTargetRef` keeps.
unfoldable pub filter_components :
    Text → Option ExpansionInfo → List SnapshotComponent → List SnapshotComponent
filter_components target exp cs =
    let include = include_for (normalize_index_ref target exp) exp in
    keep (λ c. contains include c.container_image) cs
