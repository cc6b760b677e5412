-- ===== src/Snapshot/Input.antt =====
-- internal/applicationsnapshot/input.go: the snapshot that is made of the inputs. The files, the
-- cluster and the parser of YAML are parameters. A component's other fields are opaque.
pub mod Expansion
pub mod Merging
pub mod Families
use ec_cli.Base.{
  ℕ, Text, lit, List, [], ◌∷◌, ◌++◌, is_empty, Option, none, some, Bool, true, false, ◌==◌, ◌&&◌,
  ◌||◌, not, text_eq, if◌then◌else◌, Dict, insert, lookup,
}

pub record SnapshotComponent : Type 0 where
  pub name : Text
  pub container_image : Text
  pub source : ℕ

pub record SnapshotSpec : Type 0 where
  pub application : Text
  pub display_name : Text
  pub display_description : Text
  pub components : List SnapshotComponent

abbrev pub empty_snapshot : SnapshotSpec
empty_snapshot = record {
  application = [];
  display_name = [];
  display_description = [];
  components = [];
}

abbrev pub unnamed : Text
unnamed = lit "Unnamed"

-- The names of the images that are known: a later component of the same image counts.
unfoldable pub names_of : List SnapshotComponent → Dict Text → Dict Text
names_of [] images = images
names_of (c ∷ cs) images = names_of cs (insert c.container_image c.name images)

-- The first component of an image is given a name.
unfoldable pub rename : Text → Text → List SnapshotComponent → List SnapshotComponent
rename image name [] = []
rename image name (c ∷ cs) =
    let rest = rename image name cs in
    if c.container_image == image then record c { name = name } ∷ cs else c ∷ rest

-- The loop over the components of the other snapshot.
unfoldable pub merge_components :
    Dict Text → List SnapshotComponent → List SnapshotComponent → List SnapshotComponent
merge_components images merged [] = merged
merge_components images merged (c ∷ cs) =
    let images' = insert c.container_image c.name images in
    let kept = merge_components images merged cs in
    let renamed = merge_components images' (rename c.container_image c.name merged) cs in
    let added = merge_components images' (merged ++ (c ∷ [])) cs in
    elim (lookup c.container_image images) [
      | none ↦ added
      | some name ↦ if is_empty name || name == unnamed then renamed else kept
    ]

unfoldable pub or_else : Text → Text → Text
or_else a b = if is_empty a then b else a

unfoldable pub merge : SnapshotSpec → SnapshotSpec → SnapshotSpec
merge s snap = record {
  application = or_else s.application snap.application;
  display_name = or_else s.display_name snap.display_name;
  display_description = or_else s.display_description snap.display_description;
  components = merge_components (names_of s.components []) s.components snap.components;
}

pub record Input : Type 0 where
  pub file : Text
  pub json : Text
  pub image : Text
  pub snapshot : Text
  pub images : Text

-- `afero.ReadFile`, `yaml.Unmarshal`, and `FetchSnapshot` where there is a client
pub record Sources : Type 0 where
  pub read_file : Text → Option Text
  pub read_snapshot_source : Text → Option SnapshotSpec
  pub fetch_snapshot : Text → Option SnapshotSpec

pub data InputError : Type 0 where
  unreadable unparsable not_in_cluster nothing_provided : InputError

pub data Read {ℓ} (A : Type ℓ) : Type ℓ where
  ok : A → Read A
  err : InputError → Read A

infixl 5 ◌>>=◌
abbrev pub ◌>>=◌ {ℓ κ} : {A : Type ℓ} {B : Type κ} → Read A → (A → Read B) → Read B
ok a >>= f = f a
err e >>= f = err e

abbrev pub expect {ℓ} : {A : Type ℓ} → InputError → Option A → Read A
expect e none = err e
expect e (some a) = ok a

-- The snapshot that stands for one image.
abbrev pub image_snapshot : Text → SnapshotSpec
image_snapshot image = record empty_snapshot {
  components = record { name = unnamed; container_image = image; source = 0 } ∷ [];
}

module _ (s : Sources) where
  -- Each of the five inputs: the snapshot that it stands for.
  unfoldable pub read_images : Text → Read SnapshotSpec
  read_images images = expect unparsable (
      s.read_snapshot_source (elim (s.read_file images) [ none ↦ images | some content ↦ content ]))

  unfoldable pub read_snapshot_file : Text → Read SnapshotSpec
  read_snapshot_file file = do
    content ← expect unreadable (s.read_file file)
    expect unparsable (s.read_snapshot_source content)

  -- One `if input.… != ""`: the snapshot so far, and whether one was provided.
  unfoldable pub provide :
      Text → (Text → Read SnapshotSpec) → SnapshotSpec × Bool → Read (SnapshotSpec × Bool)
  provide value read state =
      if is_empty value then ok state else (do given ← read value; ok (merge (state.0) given, true))

  -- Up to the expansion of image indexes.
  unfoldable pub determine_input_spec : Input → Read SnapshotSpec
  determine_input_spec input = do
    a ← provide input.images read_images (empty_snapshot, false)
    b ← provide input.file read_snapshot_file a
    c ← provide input.json (λ json. expect unparsable (s.read_snapshot_source json)) b
    d ← provide input.image (λ image. ok (image_snapshot image)) c
    (spec, provided) ← provide input.snapshot (λ n. expect not_in_cluster (s.fetch_snapshot n)) d
    if provided then ok spec else err nothing_provided
