-- ===== src/Image.antt =====
-- internal/image/process.go: references to images and their digests. The parsers of references of
-- the library go-containerregistry and the registry are parameters.
use ec_cli.Base.{
  ℕ, Text, lit, List, [], ◌∷◌, ◌++◌, is_empty, Option, none, some, Bool, true, false, if◌then◌else◌,
  split, join,
}

-- `ref` stands for the reference of the library.
pub record ImageReference : Type 0 where
  pub repository : Text
  pub digest : Text
  pub tag : Text
  pub ref : ℕ

-- `name.ParseReference`, `name.NewTag` and `name.NewDigest`, the latter two with the repository's
-- name, and the digest that `remote.Head` gives.
pub record Registry : Type 0 where
  pub parse_reference : Text → Option ℕ
  pub new_tag : Text → Option (Text × Text)
  pub new_digest : Text → Option (Text × Text)
  pub remote_head : ℕ → Option Text

-- `String`
unfoldable pub to_string : ImageReference → Text
to_string i =
    let tag_parts = if is_empty i.tag then [] else lit ":" ∷ i.tag ∷ [] in
    let digest_parts = if is_empty i.digest then [] else lit "@" ∷ i.digest ∷ [] in
    join [] (i.repository ∷ (tag_parts ++ digest_parts))

-- `strings.Split(url, "@")[0]`
unfoldable pub before_digest : Text → Text
before_digest url = elim (split b'@' url) [ [] ↦ [] | part ∷ _ ↦ part ]

unfoldable pub with_tag : Option (Text × Text) → ImageReference → ImageReference
with_tag none i = i
with_tag (some (tag, repository)) i = record i { tag = tag; repository = repository }

unfoldable pub with_digest : Option (Text × Text) → ImageReference → ImageReference
with_digest none i = i
with_digest (some (digest, repository)) i = record i { digest = digest; repository = repository }

module _ (g : Registry) where
  unfoldable pub new_image_reference : Text → Option ImageReference
  new_image_reference url = elim (g.parse_reference url) [
    | none ↦ none
    | some ref ↦ some (
        with_digest (g.new_digest url) (
          with_tag (g.new_tag (before_digest url))
            (record { repository = []; digest = []; tag = []; ref = ref })))
  ]

  unfoldable pub resolve_digest : ImageReference → Option ImageReference
  resolve_digest i = elim (g.remote_head i.ref) [
    | none ↦ none
    | some digest ↦
        if is_empty digest
        then none
        else new_image_reference (i.repository ++ (lit ":" ++ (i.tag ++ (lit "@" ++ digest))))
  ]

  unfoldable pub parse_and_resolve : Text → Option ImageReference
  parse_and_resolve url = elim (new_image_reference url) [
    | none ↦ none
    | some i ↦ if is_empty i.digest then resolve_digest i else some i
  ]

  -- The loop of `ParseAndResolveAll`: the references, and whether one failed.
  unfoldable pub resolve_each : List Text → List ImageReference × Bool
  resolve_each [] = ([], false)
  resolve_each (url ∷ urls) =
      let (refs, failed) = resolve_each urls in
      elim (parse_and_resolve url) [ none ↦ (refs, true) | some ref ↦ (ref ∷ refs, failed) ]

  unfoldable pub parse_and_resolve_all : List Text → Option (List ImageReference)
  parse_and_resolve_all urls =
      let (refs, failed) = resolve_each urls in if failed then none else some refs
