-- ===== src/Snapshot/Input/Families.antt =====
-- An image index and its images, from the expansion to the filter of reports.
use ec_cli.Base.{
  ℕ, ◌+◌, ◌≡◌, refl, sym, ◌∙◌, ap, subst, Text, List, [], ◌∷◌, ◌++◌, some, Bool, true, ◌==◌, ◌||◌,
  text_eq, lookup, get_or, lookup-insert, get_or-insert, get_or_of_some, contains, contains-append,
  keep, arith, map, append_assoc, All, All-map, append-nil,
}
use ec_cli.Snapshot.Input.{SnapshotComponent}
use ec_cli.Snapshot.Input.Expansion.{
  ExpansionInfo, Reference, Manifest, Registry, arch_component, add_child, add_manifests,
  manifests_of, image_index_worker, normalize_index_ref, include_for, filter_components,
}

abbrev image_of : SnapshotComponent → Text
image_of c = c.container_image

keep_of_All {ℓ} :
    {A : Type ℓ} (p : A → Bool) (xs : List A) → All (λ x. p x ≡ true) xs → keep p xs ≡ xs
unfolding keep
keep_of_All p [] h = refl
keep_of_All p (x ∷ xs) (h, hs) = rw h (ap (λ r. x ∷ r) (keep_of_All p xs hs))

module _ (c : SnapshotComponent) (ref : Reference) (idx : Text) where
  aliases-add_manifests :
      (i : ℕ) (ms : List Manifest) (exp : ExpansionInfo)
      → (add_manifests c ref idx i ms exp).1.index_aliases ≡ exp.index_aliases
  unfolding add_manifests add_child
  aliases-add_manifests i [] exp = refl
  aliases-add_manifests i (m ∷ ms) exp = aliases-add_manifests (i + 1) ms (add_child idx _ exp)

  children-add_manifests :
      (i : ℕ) (ms : List Manifest) (exp : ExpansionInfo)
      → let (children, exp') = add_manifests c ref idx i ms exp in
        get_or [] idx exp'.children_by_index
        ≡ get_or [] idx exp.children_by_index ++ map image_of children
  unfolding add_manifests
  children-add_manifests i [] exp = sym (append-nil _)
  children-add_manifests i (m ∷ ms) exp =
      let child = arch_component c ref i m in
      let added : get_or [] idx (add_child idx child.container_image exp).children_by_index
          ≡ get_or [] idx exp.children_by_index ++ (child.container_image ∷ []) =
        unfold add_child in
        ground (
          arith,
          get_or-insert [] idx idx
              (get_or [] idx exp.children_by_index ++ (child.container_image ∷ []))
              exp.children_by_index,
        ) in
      children-add_manifests (i + 1) ms (add_child idx child.container_image exp)
      ∙ (ap
            (λ l.
              l
              ++ map image_of
                  (add_manifests c ref idx (i + 1) ms (add_child idx child.container_image exp)).0)
            added
          ∙ append_assoc (get_or [] idx exp.children_by_index) (child.container_image ∷ []) _)

All-contains-image :
    (prefix : List Text) (cs : List SnapshotComponent)
    → All (λ c. contains (prefix ++ map image_of cs) c.container_image ≡ true) cs
unfolding contains
All-contains-image prefix [] = tt
All-contains-image prefix (c ∷ cs) = (
  contains-append prefix (c.container_image ∷ map image_of cs) c.container_image ∙ ground arith,
  All-map
      (λ x e.
        ap (λ l. contains l x.container_image)
          (sym (append_assoc prefix (c.container_image ∷ []) (map image_of cs)))
        ∙ e)
      cs (All-contains-image (prefix ++ (c.container_image ∷ [])) cs),
)

contains-include_for :
    (t : Text) (exp : ExpansionInfo) (x : Text)
    → contains (include_for t (some exp)) x
      ≡ ((t == x) || contains (get_or [] t exp.children_by_index) x)
unfolding include_for contains
contains-include_for t exp x = ground arith

-- What a filter for the reference of an index keeps of its images.
filter_components-add_manifests :
    (c : SnapshotComponent) (ref : Reference) (idx : Text) (ms : List Manifest)
    (exp : ExpansionInfo)
    → lookup ref.name exp.index_aliases ≡ some idx
    → let (children, exp') = add_manifests c ref idx 0 ms exp in
      filter_components ref.name (some exp') children ≡ children
unfolding filter_components
filter_components-add_manifests c ref idx ms exp h =
    let (children, exp') = add_manifests c ref idx 0 ms exp in
    let aliased = ap (λ d. lookup ref.name d) (aliases-add_manifests c ref idx 0 ms exp) ∙ h in
    let listed = children-add_manifests c ref idx 0 ms exp in
    let normal : normalize_index_ref ref.name (some exp') ≡ idx =
      unfold normalize_index_ref in
      get_or_of_some ref.name ref.name idx exp'.index_aliases aliased in
    ap (λ n. keep (λ x. contains (include_for n (some exp')) x.container_image) children) normal
    ∙ keep_of_All _ children (
        All-map
          (λ x e.
            contains-include_for idx exp' x.container_image
            ∙ (ap (λ l. (idx == x.container_image) || contains l x.container_image) listed
                ∙ ground (arith, e)))
          children (All-contains-image (get_or [] idx exp.children_by_index) children))

abbrev after_first : List SnapshotComponent → List SnapshotComponent
after_first [] = []
after_first (c ∷ cs) = cs

module _ (g : Registry) where
  -- All images that the expansion of an image index adds are kept when a report is filtered for the
  -- reference of the index.
  pub filter_components-image_index_worker :
      (c : SnapshotComponent) (exp : ExpansionInfo) (ref : Reference) (digest : Text)
      (manifests : List Manifest) (children : List SnapshotComponent) (exp' : ExpansionInfo)
      → manifests_of g c ≡ some (ref, digest, manifests)
      → image_index_worker g c exp ≡ (c ∷ children, exp')
      → filter_components ref.name (some exp') children ≡ children
  unfolding image_index_worker filter_components normalize_index_ref
  filter_components-image_index_worker c exp ref digest manifests children exp' m h =
      subst
        (λ made. filter_components ref.name (some made.1) (after_first made.0) ≡ after_first made.0)
        (rw (m, image_index_worker) at h)
        (filter_components-add_manifests c ref _ manifests _
          (lookup-insert ref.name ref.name _ exp.index_aliases ∙ ground arith))
