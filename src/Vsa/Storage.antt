-- ===== src/Vsa/Storage.antt =====
-- internal/validate/vsa/storage.go: the flag that names a storage, and the uploads to the storages.
-- `url.Parse`, the two backends and the files are parameters.
pub mod Uploads
use ec_cli.Base.{
  ℕ, Text, lit, List, [], ◌∷◌, ◌++◌, is_empty, Option, none, some, Bool, true, false, ◌==◌, ◌&&◌,
  ◌||◌, not, text_eq, if◌then◌else◌, Dict, insert, contains, contains_byte, cut, has_prefix,
  to_lower,
}

pub record StorageConfig : Type 0 where
  pub backend : Text
  pub base_url : Text
  pub parameters : Dict Text

-- `url.URL`; the query is in the order in which `range` visits it.
pub record ParsedUrl : Type 0 where
  pub scheme : Text
  pub host : Text
  pub path : Text
  pub query : Dict (List Text)

pub data StorageError : Type 0 where
  empty_flag empty_backend unsupported_backend invalid_format not_created : StorageError

pub data Stored {ℓ} (A : Type ℓ) : Type ℓ where
  ok : A → Stored A
  err : StorageError → Stored A

-- The backend, and the rest of the flag.
unfoldable pub split_flag : Text → Text × Text
split_flag flag =
    let (before, after, found) = cut b'@' flag in
    let (name, query, has_query) = cut b'?' flag in
    if found then (before, after) else if has_query then (name, lit "?" ++ query) else (flag, [])

unfoldable pub is_supported : Text → Bool
is_supported backend = contains (lit "rekor" ∷ lit "local" ∷ []) (to_lower backend)

-- What is passed to `url.Parse`
unfoldable pub url_to_parse : Text → Text
url_to_parse config_part =
    if not (has_prefix config_part (lit "http")) && not (has_prefix config_part (lit "?"))
    then lit "dummy://" ++ config_part
    else if has_prefix config_part (lit "?")
    then lit "dummy://dummy" ++ config_part
    else config_part

unfoldable pub base_url_of : ParsedUrl → Text
base_url_of u =
    if not (u.scheme == lit "dummy")
    then u.scheme ++ (lit "://" ++ (u.host ++ u.path))
    else if not (u.host == lit "dummy")
    then u.host ++ u.path
    else []

unfoldable pub parameters_of : Dict (List Text) → Dict Text → Dict Text
parameters_of [] parameters = parameters
parameters_of ((key, []) ∷ query) parameters = parameters_of query parameters
parameters_of ((key, value ∷ _) ∷ query) parameters =
    parameters_of query (insert key value parameters)

unfoldable pub parse_storage_flag : (Text → Option ParsedUrl) → Text → Stored StorageConfig
parse_storage_flag parse_url flag =
    let (backend, config_part) = split_flag flag in
    if is_empty flag
    then err empty_flag
    else if is_empty backend
    then err empty_backend
    else if not (is_supported backend)
    then err unsupported_backend
    else if is_empty config_part
    then ok (record { backend = backend; base_url = []; parameters = [] })
    else elim (parse_url (url_to_parse config_part)) [
      | none ↦ err invalid_format
      | some u ↦ ok (record {
        backend = backend;
        base_url = base_url_of u;
        parameters = parameters_of u.query [];
      })
    ]

-- A backend: whether it is a `SignerAwareUploader`, and whether its two uploads succeed.
pub record Backend : Type 0 where
  pub is_signer_aware : Bool
  pub upload : Text → Bool
  pub upload_with_signer : Text → ℕ → Bool

-- One upload: which backend was called, if any, and whether a warning is logged. The error of
-- an upload with a signer is that of an inner variable, which the warning does not read.
pub record Attempt : Type 0 where
  pub called : Option StorageConfig
  pub with_signer : Bool
  pub is_uploaded : Bool
  pub is_warned : Bool

unfoldable pub upload_to : Text → Option ℕ → StorageConfig → Backend → Attempt
upload_to content signer config b =
    let plain : Attempt = record {
      called = some config;
      with_signer = false;
      is_uploaded = b.upload content;
      is_warned = not (b.upload content);
    } in
    elim signer [
      | none ↦ plain
      | some key ↦
          if b.is_signer_aware
          then record {
            called = some config;
            with_signer = true;
            is_uploaded = b.upload_with_signer content key;
            is_warned = false;
          }
          else plain
    ]

abbrev pub no_upload : Attempt
no_upload = record { called = none; with_signer = false; is_uploaded = false; is_warned = true }

module _ (new_rekor new_local : StorageConfig → Option Backend) where
  unfoldable pub created : Option Backend → Stored Backend
  created none = err not_created
  created (some b) = ok b

  unfoldable pub create_storage_backend : StorageConfig → Stored Backend
  create_storage_backend config =
      if to_lower config.backend == lit "rekor"
      then created (new_rekor config)
      else if to_lower config.backend == lit "local"
      then created (new_local config)
      else err unsupported_backend

  module _ (parse_url : Text → Option ParsedUrl) (content : Text) (signer : Option ℕ) where
    unfoldable pub attempt : Text → Attempt
    attempt flag = elim (parse_storage_flag parse_url flag) [
      | err e ↦ no_upload
      | ok config ↦ elim (create_storage_backend config) [
        | err e ↦ no_upload
        | ok b ↦ upload_to content signer config b
      ]
    ]

    unfoldable pub upload_attempts : List Text → List Attempt
    upload_attempts [] = []
    upload_attempts (flag ∷ flags) = attempt flag ∷ upload_attempts flags

  -- The attempts, unless the envelope cannot be read.
  unfoldable pub upload_vsa_envelope :
      (Text → Option ParsedUrl) → Option Text → Option ℕ → List Text → Option (List Attempt)
  upload_vsa_envelope parse_url content signer flags =
      if is_empty flags
      then some []
      else elim content [ none ↦ none | some c ↦ some (upload_attempts parse_url c signer flags) ]
