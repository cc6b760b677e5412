-- ===== src/Vsa/Storage/Uploads.antt =====
-- The errors of flags and uploads.
use ec_cli.Base.{ℕ, ◌≡◌, ◌≢◌, Text, Option, true, ◌&&◌, not, text_eq, nat_eq, contains, arith}
use ec_cli.Vsa.Storage.{
  StorageConfig, ParsedUrl, ok, err, unsupported_backend, Backend, is_supported, parse_storage_flag,
  created, create_storage_backend, upload_to, attempt,
}

is_supported-parse_storage_flag :
    (parse_url : Text → Option ParsedUrl) (flag : Text) (config : StorageConfig)
    → parse_storage_flag parse_url flag ≡ ok config
    → is_supported config.backend ≡ true
unfolding parse_storage_flag
is_supported-parse_storage_flag parse_url flag config h = ground arith

module _ (new_rekor new_local : StorageConfig → Option Backend) where
  create_storage_backend-parse_storage_flag :
      (parse_url : Text → Option ParsedUrl) (flag : Text) (config : StorageConfig)
      → parse_storage_flag parse_url flag ≡ ok config
      → create_storage_backend new_rekor new_local config ≢ err unsupported_backend
  unfolding create_storage_backend created is_supported contains
  create_storage_backend-parse_storage_flag parse_url flag config h k =
      ground (arith, is_supported-parse_storage_flag parse_url flag config h)

  -- A warning is logged for an upload to a storage exactly if it did not succeed and was not made
  -- with a signer.
  pub is_warned-attempt :
      (parse_url : Text → Option ParsedUrl) (content : Text) (signer : Option ℕ) (flag : Text)
      → let a = attempt new_rekor new_local parse_url content signer flag in
        a.is_warned ≡ (not a.is_uploaded && not a.with_signer)
  unfolding attempt upload_to
  is_warned-attempt parse_url content signer flag = ground arith
