-- ===== src/Vsa/Backends.antt =====
-- The two storages of internal/validate/vsa: storage_rekor.go and storage_local.go. The parsers of
-- durations, numbers, JSON and base64, the hash, the files and the client of Rekor are parameters.
-- A number of retries is a natural number: the code takes a negative one for 0.
pub mod Preparing
use ec_cli.Base.{
  ℕ, Text, lit, List, [], ◌∷◌, ◌++◌, is_empty, Option, none, some, Bool, true, false, ◌==◌, ◌||◌,
  text_eq, if◌then◌else◌, Dict,
}
use ec_cli.Vsa.Storage.{StorageConfig}

pub record RekorBackend : Type 0 where
  pub server_url : Text
  pub timeout : ℕ
  pub retries : ℕ

-- `time.ParseDuration` and `strconv.Atoi`
pub record Parsers : Type 0 where
  pub parse_duration : Text → Option ℕ
  pub atoi : Text → Option ℕ

module _ (p : Parsers) where
  -- The loop over the parameters.
  unfoldable pub with_parameters : Dict Text → RekorBackend → Option RekorBackend
  with_parameters [] b = some b
  with_parameters ((key, value) ∷ parameters) b =
      let ignored = with_parameters parameters b in
      let served = with_parameters parameters (record b { server_url = value }) in
      if key == lit "server" || key == lit "url"
      then served
      else if key == lit "timeout"
      then elim (p.parse_duration value) [
        | none ↦ none
        | some t ↦ with_parameters parameters (record b { timeout = t })
      ]
      else if key == lit "retries"
      then elim (p.atoi value) [
        | none ↦ none
        | some n ↦ with_parameters parameters (record b { retries = n })
      ]
      else ignored

  unfoldable pub new_rekor_backend : StorageConfig → Option RekorBackend
  new_rekor_backend config = with_parameters config.parameters (record {
    server_url =
        if is_empty config.base_url then lit "https://rekor.sigstore.dev" else config.base_url;
    timeout = 30000000000;
    retries = 3;
  })

-- The path that the parameters leave.
unfoldable pub base_path_of : Dict Text → Text → Text
base_path_of [] path = path
base_path_of ((key, value) ∷ parameters) path =
    let replaced = base_path_of parameters value in
    let kept = base_path_of parameters path in
    if key == lit "path" || (key == lit "dir" || key == lit "directory") then replaced else kept

-- `NewLocalBackend`: the path, if the directory can be made.
unfoldable pub new_local_backend : (Text → Bool) → StorageConfig → Option Text
new_local_backend make_directory config =
    let path =
      base_path_of config.parameters
        (if is_empty config.base_url then lit "./vsa-upload" else config.base_url) in
    if make_directory path then some path else none

pub record DsseSig : Type 0 where
  pub key_id : Text
  pub sig : Text
  pub public_key : Option Text

pub record DsseEnvelope : Type 0 where
  pub payload : Text
  pub payload_type : Text
  pub signatures : List DsseSig

-- The three decoders of base64, and `sha256.Sum256` in hexadecimal digits.
pub record Codecs : Type 0 where
  pub raw_url : Text → Option Text
  pub raw_std : Text → Option Text
  pub std : Text → Option Text
  pub sha256_hex : Text → Text
  pub unmarshal : Text → Option DsseEnvelope
  pub marshal : DsseEnvelope → Option Text

unfoldable pub first_of : Option Text → Option Text → Option Text
first_of none b = b
first_of (some t) b = some t

unfoldable pub decode_b64 : Codecs → Text → Option Text
decode_b64 c s = first_of (c.raw_url s) (first_of (c.raw_std s) (c.std s))

unfoldable pub with_key : Text → DsseSig → DsseSig
with_key pub_key s = record s {
  public_key = elim s.public_key [
    | none ↦ some pub_key
    | some key ↦ if is_empty key then some pub_key else some key
  ];
}

unfoldable pub with_keys : Text → List DsseSig → List DsseSig
with_keys pub_key [] = []
with_keys pub_key (s ∷ ss) = with_key pub_key s ∷ with_keys pub_key ss

unfoldable pub is_complete_envelope : DsseEnvelope → Bool
is_complete_envelope e =
    if is_empty e.payload || (is_empty e.payload_type || is_empty e.signatures) then false else true

-- The envelope with the keys, in JSON, and the hash of its payload.
unfoldable pub prepare_dsse_for_rekor : Codecs → Text → Text → Option (Text × Text)
prepare_dsse_for_rekor c content pub_key = elim (c.unmarshal content) [
  | none ↦ none
  | some e ↦ elim (decode_b64 c e.payload) [
    | none ↦ none
    | some payload ↦ elim (c.marshal (record e { signatures = with_keys pub_key e.signatures })) [
      | none ↦ none
      | some json ↦ if is_complete_envelope e then some (json, c.sha256_hex payload) else none
    ]
  ]
]
