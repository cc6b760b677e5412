-- ===== src/Tracker.antt =====
-- internal/tracker/tracker.go: the file of trusted Tekton tasks. The decoding and encoding of YAML,
-- the registry and the git client are parameters; a time is a number of nanoseconds.
pub mod Records
pub mod Groups
use ec_cli.Base.{
  ℕ, suc, ◌+◌, ◌*◌, ◌≤◌, Text, lit, List, [], ◌∷◌, ◌++◌, is_empty, Option, none, some, Bool, true,
  false, not, ◌&&◌, ◌==◌, text_eq, nat_eq, ltb, leb, if◌then◌else◌, Dict, insert, lookup, get_or,
  keys, TextSet, add, keep, has_prefix, trim_prefix, cut,
}

abbrev pub oci_prefix : Text
oci_prefix = lit "oci://"

pub record TaskRecord : Type 0 where
  pub ref : Text
  pub expires_on : Option ℕ
  pub tag : Text
  pub repository : Text

-- `TrustedTasks`; a nil map has been replaced by an empty one.
abbrev pub Tracker : Type 0
Tracker = Dict (List TaskRecord)

pub record ImageReference : Type 0 where
  pub digest : Text
  pub tag : Text
  pub repository : Text

-- The input is missing, is no YAML of a tracker, or is one, perhaps without a map.
pub data Input : Type 0 where
  missing invalid : Input
  given : Option Tracker → Input

pub data TrackError : Type 0 where
  invalid_input resolve_failed registry_failed no_path no_revision git_failed : TrackError

pub data Tracked {ℓ} (A : Type ℓ) : Type ℓ where
  ok : A → Tracked A
  err : TrackError → Tracked A

infixl 5 ◌>>=◌
abbrev pub ◌>>=◌ {ℓ κ} : {A : Type ℓ} {B : Type κ} → Tracked A → (A → Tracked B) → Tracked B
ok a >>= f = f a
err e >>= f = err e

-- An error in place of a missing value.
abbrev pub require {ℓ} : {A : Type ℓ} → TrackError → Option A → Tracked A
require e none = err e
require e (some a) = ok a

unfoldable pub new_tracker : Input → Tracked Tracker
new_tracker missing = ok []
new_tracker invalid = err invalid_input
new_tracker (given none) = ok []
new_tracker (given (some t)) = ok t

unfoldable pub group_of : Text → TaskRecord → Text
group_of prefix r =
    if is_empty r.tag
    then prefix ++ r.repository
    else prefix ++ (r.repository ++ (lit ":" ++ r.tag))

unfoldable pub add_trusted_task_record : Text → TaskRecord → Tracker → Tracker
add_trusted_task_record prefix r t =
    let group = group_of prefix r in
    elim (lookup group t) [
      | none ↦ insert group (r ∷ []) t
      | some records ↦ insert group (r ∷ records) t
    ]

-- The image references and the git references, in their order.
unfoldable pub group_urls : List Text → List Text × List Text
group_urls [] = ([], [])
group_urls (u ∷ urls) =
    let (imgs, gits) = group_urls urls in
    if has_prefix u (lit "git+") then (imgs, u ∷ gits) else (u ∷ imgs, gits)

unfoldable pub oci_ref_from_group : Text → Text
oci_ref_from_group group =
    if not (has_prefix group oci_prefix) then [] else trim_prefix group oci_prefix

unfoldable pub unique_tag_refs : List Text → TextSet → TextSet
unique_tag_refs [] refs = refs
unique_tag_refs (group ∷ groups) refs =
    let tag_ref = oci_ref_from_group group in
    unique_tag_refs groups (if is_empty tag_ref then refs else add tag_ref refs)

unfoldable pub is_slashes : ℕ → ℕ → Bool
is_slashes c d = c == b'/' && d == b'/'

-- `strings.Index(u, "//")`
unfoldable pub index_slashes : Text → Option ℕ
index_slashes [] = none
index_slashes (c ∷ []) = none
index_slashes (c ∷ d ∷ s) =
    let rest : Option ℕ = elim (index_slashes (d ∷ s)) [ none ↦ none | some n ↦ some (suc n) ] in
    if is_slashes c d then some 0 else rest

-- `strings.LastIndex(u, "//")`
unfoldable pub last_index_slashes : Text → Option ℕ
last_index_slashes [] = none
last_index_slashes (c ∷ []) = none
last_index_slashes (c ∷ d ∷ s) = elim (last_index_slashes (d ∷ s)) [
  | some n ↦ some (suc n)
  | none ↦ if is_slashes c d then some 0 else none
]

unfoldable pub take : ℕ → Text → Text
take ℕ.zero s = []
take (suc n) [] = []
take (suc n) (c ∷ s) = c ∷ take n s

unfoldable pub drop : ℕ → Text → Text
drop ℕ.zero s = s
drop (suc n) [] = []
drop (suc n) (c ∷ s) = drop n s

-- The position of the separator of repository and path, if there is one behind the scheme's.
unfoldable pub path_separator : Text → Option ℕ
path_separator u = elim (last_index_slashes u) [
  | none ↦ none
  | some path_sep ↦ elim (index_slashes u) [
    | none ↦ some path_sep
    | some scheme_sep ↦ if leb path_sep scheme_sep then none else some path_sep
  ]
]

-- The git client gives the latest revision of a path in a repository.
module _ (git_resolve : Text → Text → Option Text) (freshen : Bool) where
  unfoldable pub path_and_revision : Text → Text → Tracked (Text × Text)
  path_and_revision repository rest =
      let (path, rev, found) = cut b'@' rest in
      if found
      then ok (path, rev)
      else if not freshen
      then err no_revision
      else (do rev' ← require git_failed (git_resolve repository rest); ok (rest, rev'))

  -- One round of the loop of `trackGitReferences`.
  unfoldable pub track_git_reference : Text → Tracker → Tracked Tracker
  track_git_reference u t = do
    path_sep ← require no_path (path_separator u)
    let repository = take path_sep u
    (path, rev) ← path_and_revision repository (drop (path_sep + 2) u)
    ok (
        add_trusted_task_record []
          (record {
            ref = rev;
            expires_on = none;
            tag = [];
            repository = repository ++ (lit "//" ++ path);
          })
          t)

  unfoldable pub track_git_urls : List Text → Tracker → Tracked Tracker
  track_git_urls [] t = ok t
  track_git_urls (u ∷ urls) t = do t' ← track_git_reference u t; track_git_urls urls t'

  unfoldable pub track_git_references : List Text → Tracker → Tracked Tracker
  track_git_references urls t =
      track_git_urls
        (if freshen then urls ++ keep (λ u. has_prefix u (lit "git+")) (keys t) else urls) t

-- The registry resolves references, and tells whether a bundle has a task.
module _ (parse_and_resolve_all : List Text → Option (List ImageReference))
    (contains_task : ImageReference → Option Bool) (freshen : Bool) where
  unfoldable pub add_images : List ImageReference → Tracker → Tracked Tracker
  add_images [] t = ok t
  add_images (i ∷ refs) t = do
    has_task ← require registry_failed (contains_task i)
    add_images refs (
        if has_task
        then add_trusted_task_record oci_prefix
            (record { ref = i.digest; expires_on = none; tag = i.tag; repository = i.repository }) t
        else t)

  unfoldable pub track_image_references : List Text → Tracker → Tracked Tracker
  track_image_references urls t = do
    refs ← require resolve_failed (parse_and_resolve_all urls)
    input ←
        (if freshen
          then require resolve_failed (parse_and_resolve_all (unique_tag_refs (keys t) []))
          else ok [])
    add_images (refs ++ input) t

-- The loop from the oldest record to the newest: the last reference seen, and the records kept.
unfoldable pub unique_from : List TaskRecord → Text × List TaskRecord
unique_from [] = ([], [])
unique_from (r ∷ records) =
    let (last_ref, unique) = unique_from records in
    if last_ref == r.ref then (last_ref, unique) else (r.ref, r ∷ unique)

unfoldable pub is_relevant : ℕ → TaskRecord → Bool
is_relevant now r = elim r.expires_on [ none ↦ true | some at ↦ ltb now at ]

unfoldable pub filter_records : ℕ → Bool → List TaskRecord → List TaskRecord
filter_records now prune records =
    let unique = (unique_from records).1 in if prune then keep (is_relevant now) unique else unique

unfoldable pub filter_bundles : ℕ → Bool → Tracker → Tracker
filter_bundles now prune [] = []
filter_bundles now prune ((group, records) ∷ t) =
    (group, filter_records now prune records) ∷ filter_bundles now prune t

unfoldable pub expire_one : ℕ → TaskRecord → TaskRecord
expire_one expires_on r = elim r.expires_on [
  | none ↦ record r { expires_on = some expires_on }
  | some at ↦ r
]

-- The records behind the first one.
unfoldable pub expire_rest : ℕ → List TaskRecord → List TaskRecord
expire_rest expires_on [] = []
expire_rest expires_on (r ∷ records) = expire_one expires_on r ∷ expire_rest expires_on records

unfoldable pub expire_records : ℕ → List TaskRecord → List TaskRecord
expire_records expires_on [] = []
expire_records expires_on (r ∷ records) =
    record r { expires_on = none } ∷ expire_rest expires_on records

-- `oneDay` in nanoseconds
abbrev pub one_day : ℕ
one_day = 86_400_000_000_000

-- `today` is the current time, rounded to a day.
unfoldable pub set_expiration : ℕ → ℕ → Tracker → Tracker
set_expiration today in_effect_days [] = []
set_expiration today in_effect_days ((group, records) ∷ t) =
    (group, expire_records (today + in_effect_days * one_day) records)
    ∷ set_expiration today in_effect_days t

-- `Track`, up to the encoding of its result.
unfoldable pub track :
    (List Text → Option (List ImageReference))
    → (ImageReference → Option Bool)
    → (Text → Text → Option Text)
    → ℕ
    → ℕ
    → List Text
    → Input
    → Bool
    → Bool
    → ℕ
    → Tracked Tracker
track resolve contains_task git_resolve now today urls input prune freshen in_effect_days = do
  t ← new_tracker input
  let (image_urls, git_urls) = group_urls urls
  t' ← track_image_references resolve contains_task freshen image_urls t
  t'' ← track_git_references git_resolve freshen git_urls t'
  ok (set_expiration today in_effect_days (filter_bundles now prune t''))
