-- ===== src/Snapshot/Input/Merging.antt =====
-- What `merge` makes of two snapshots.
use ec_cli.Base.{
  ℕ, ◌≡◌, refl, sym, ◌∙◌, ap, Text, List, [], ◌∷◌, ◌++◌, is_empty, none, some, Bool, true, false,
  ◌==◌, ◌||◌, text_eq, if◌then◌else◌, Dict, insert, lookup, lookup-insert, any, any-append,
  count_if, arith, Bool-cases, Option-cases, inl, inr,
}
use ec_cli.Output.Counting.{count_if-append}
use ec_cli.Snapshot.Input.{
  SnapshotComponent, SnapshotSpec, names_of, rename, merge_components, merge, unnamed,
}

abbrev pub is_of : Text → SnapshotComponent → Bool
is_of image c = c.container_image == image

is_known : Text → Dict Text → Bool
is_known image images = elim (lookup image images) [ none ↦ false | some name ↦ true ]

is_known-insert :
    (i k name : Text) (images : Dict Text)
    → is_known i (insert k name images) ≡ ((k == i) || is_known i images)
unfolding is_known
is_known-insert i k name images = ground (arith, lookup-insert i k name images)

is_known-names_of :
    (i : Text) (cs : List SnapshotComponent) (images : Dict Text)
    → is_known i (names_of cs images) ≡ (any (is_of i) cs || is_known i images)
unfolding names_of any
is_known-names_of i [] images = refl
is_known-names_of i (c ∷ cs) images = ground (
  arith,
  is_known-names_of i cs (insert c.container_image c.name images),
  is_known-insert i c.container_image c.name images,
)

count_if-rename :
    (i image name : Text) (cs : List SnapshotComponent)
    → count_if (is_of i) (rename image name cs) ≡ count_if (is_of i) cs
unfolding count_if rename
count_if-rename i image name [] = refl
count_if-rename i image name (c ∷ cs) = elim (Bool-cases (c.container_image == image)) [
  | inl e ↦ rw e refl
  | inr e ↦ rw e (omega (arith, count_if-rename i image name cs))
]

any-rename :
    (i image name : Text) (cs : List SnapshotComponent)
    → any (is_of i) (rename image name cs) ≡ any (is_of i) cs
unfolding any rename
any-rename i image name [] = refl
any-rename i image name (c ∷ cs) = elim (Bool-cases (c.container_image == image)) [
  | inl e ↦ rw e refl
  | inr e ↦ rw e (ap (λ b. is_of i c || b) (any-rename i image name cs))
]

count_of_none : {A : Type 0} (p : A → Bool) (xs : List A) → any p xs ≡ false → count_if p xs ≡ 0
unfolding any count_if
count_of_none p [] h = refl
count_of_none p (x ∷ xs) h = ground (arith, count_of_none p xs)

-- How often an image stands in a merge.
abbrev merged_count : Text → List SnapshotComponent → List SnapshotComponent → ℕ
merged_count i merged cs =
    if any (is_of i) merged then count_if (is_of i) merged else if any (is_of i) cs then 1 else 0

abbrev Knows : Dict Text → List SnapshotComponent → Type 0
Knows images merged = (k : Text) → is_known k images ≡ any (is_of k) merged

-- An image of a merge that is of no component so far is counted once it is added.
merged_count_added :
    (i : Text) (merged : List SnapshotComponent) (c : SnapshotComponent)
    (cs : List SnapshotComponent)
    → any (is_of c.container_image) merged ≡ false
    → merged_count i (merged ++ (c ∷ [])) cs ≡ merged_count i merged (c ∷ cs)
unfolding any count_if
merged_count_added i merged c cs h = ground (
  arith,
  any-append (is_of i) merged (c ∷ []),
  count_if-append (is_of i) merged (c ∷ []),
  count_of_none (is_of i) merged,
)

merged_count_kept :
    (i : Text) (merged : List SnapshotComponent) (c : SnapshotComponent)
    (cs : List SnapshotComponent)
    → any (is_of c.container_image) merged ≡ true
    → merged_count i merged cs ≡ merged_count i merged (c ∷ cs)
unfolding any
merged_count_kept i merged c cs h = ground arith

merged_count_renamed :
    (i : Text) (merged : List SnapshotComponent) (c : SnapshotComponent)
    (cs : List SnapshotComponent)
    → merged_count i (rename c.container_image c.name merged) cs ≡ merged_count i merged cs
merged_count_renamed i merged c cs =
    rw
      (
        any-rename i c.container_image c.name merged,
        count_if-rename i c.container_image c.name merged,
      )
      refl

Knows-added :
    (images : Dict Text) (merged : List SnapshotComponent) (c : SnapshotComponent)
    → Knows images merged
    → Knows (insert c.container_image c.name images) (merged ++ (c ∷ []))
unfolding any
Knows-added images merged c k i = ground (
  arith,
  is_known-insert i c.container_image c.name images,
  any-append (is_of i) merged (c ∷ []),
  k i,
)

Knows-renamed :
    (images : Dict Text) (merged : List SnapshotComponent) (c : SnapshotComponent)
    → any (is_of c.container_image) merged ≡ true
    → Knows images merged
    → Knows (insert c.container_image c.name images) (rename c.container_image c.name merged)
Knows-renamed images merged c h k i = ground (
  arith,
  is_known-insert i c.container_image c.name images,
  any-rename i c.container_image c.name merged,
  k i,
)

count_if-merge_components :
    (i : Text) (images : Dict Text) (merged cs : List SnapshotComponent)
    → Knows images merged
    → count_if (is_of i) (merge_components images merged cs) ≡ merged_count i merged cs
unfolding merge_components is_known
count_if-merge_components i images merged [] k =
    unfold any in ground (arith, count_of_none (is_of i) merged)
count_if-merge_components i images merged (c ∷ cs) k =
    elim (Option-cases (lookup c.container_image images)) [
      | inl e ↦
          let fresh = sym (k c.container_image) ∙ rw (e, is_known) refl in
          rw (e, merge_components)
            (count_if-merge_components i (insert c.container_image c.name images)
                (merged ++ (c ∷ [])) cs (Knows-added images merged c k)
              ∙ merged_count_added i merged c cs fresh)
      | inr (name, e) ↦
          let here : any (is_of c.container_image) merged ≡ true =
            sym (k c.container_image) ∙ rw (e, is_known) refl in
          elim (Bool-cases (is_empty name || name == unnamed)) [
            | inr f ↦
                rw (e, merge_components, f)
                  (count_if-merge_components i images merged cs k
                    ∙ merged_count_kept i merged c cs here)
            | inl f ↦
                rw (e, merge_components, f)
                  (count_if-merge_components i (insert c.container_image c.name images)
                      (rename c.container_image c.name merged) cs
                      (Knows-renamed images merged c here k)
                    ∙ (merged_count_renamed i merged c cs ∙ merged_count_kept i merged c cs here))
          ]
    ]

-- After a merge an image stands in a snapshot as often as before if it was in it, and otherwise
-- once if the other snapshot has it.
pub components-merge :
    (i : Text) (s snap : SnapshotSpec)
    → count_if (is_of i) (merge s snap).components ≡ (
        if any (is_of i) s.components
        then count_if (is_of i) s.components
        else if any (is_of i) snap.components
        then 1
        else 0)
unfolding merge is_known lookup
components-merge i s snap =
    count_if-merge_components i (names_of s.components []) s.components snap.components
      (λ k. is_known-names_of k s.components [] ∙ ground arith)
