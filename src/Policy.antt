-- ===== src/Policy.antt =====
-- internal/policy/policy.go: the policy that images are checked against, its effective time and the
-- options of the signature checks. The clock, the parsers of times and of YAML, the schema, the
-- cluster, and the keys and clients of cosign, Fulcio and Rekor are parameters; keys, certificates
-- and clients are opaque numbers, and a time is a number of nanoseconds.
pub mod Times
pub mod Making
pub mod Laws
pub mod Sources
pub mod Pinning
use ec_cli.Base.{
  ℕ, Text, lit, List, [], ◌∷◌, is_empty, Option, none, some, Bool, true, false, ◌==◌, ◌&&◌, ◌||◌,
  not, text_eq, if◌then◌else◌, contains_byte, contains_text, equal_fold,
}
use ec_cli.Base.Json.{Json, JsonFields, object, get_field, as_fields}
use ec_cli.Evaluator.Criteria.{SourceConfig, VolatileConfig, TimeParser}

-- `cosign.Identity`
pub record Identity : Type 0 where
  pub issuer : Text
  pub subject : Text
  pub issuer_reg_exp : Text
  pub subject_reg_exp : Text

abbrev pub no_identity : Identity
no_identity = record { issuer = []; subject = []; issuer_reg_exp = []; subject_reg_exp = [] }

-- A group of sources; the rule data is the text of a JSON value.
pub record SourceGroup : Type 0 where
  pub name : Text
  pub policy : List Text
  pub data_urls : List Text
  pub rule_data : Option Text
  pub config : Option SourceConfig
  pub volatile_config : Option VolatileConfig

pub record Spec : Type 0 where
  pub public_key : Text
  pub rekor_url : Text
  pub identity : Option Identity
  pub sources : List SourceGroup

abbrev pub empty_spec : Spec
empty_spec = record { public_key = []; rekor_url = []; identity = none; sources = [] }

-- `cosign.CheckOpts`, as far as it is set.
pub record CheckOpts : Type 0 where
  pub sig_verifier : Option ℕ
  pub identities : List Identity
  pub root_certs : Option ℕ
  pub intermediate_certs : Option ℕ
  pub ct_log_pub_keys : Option ℕ
  pub ignore_tlog : Bool
  pub rekor_client : Option ℕ
  pub rekor_pub_keys : Option ℕ

abbrev pub no_check_opts : CheckOpts
no_check_opts = record {
  sig_verifier = none;
  identities = [];
  root_certs = none;
  intermediate_certs = none;
  ct_log_pub_keys = none;
  ignore_tlog = false;
  rekor_client = none;
  rekor_pub_keys = none;
}

pub record Policy : Type 0 where
  pub spec : Spec
  pub check_opts : Option CheckOpts
  pub choosen_time : Text
  pub effective_time : Option ℕ
  pub attestation_time : Option ℕ
  pub identity : Identity
  pub ignore_rekor : Bool

abbrev pub empty_policy : Policy
empty_policy = record {
  spec = empty_spec;
  check_opts = none;
  choosen_time = [];
  effective_time = none;
  attestation_time = none;
  identity = no_identity;
  ignore_rekor = false;
}

pub data PolicyError : Type 0 where
  unparsable not_conformant no_cluster not_fetched : PolicyError
  invalid_identity : Bool → Bool → PolicyError
  invalid_time no_key no_certificates no_log_keys no_rekor_client no_rekor_keys : PolicyError
  no_verifier work_dir_failed download_failed : PolicyError

pub data Checked {ℓ} (A : Type ℓ) : Type ℓ where
  ok : A → Checked A
  err : PolicyError → Checked A

infixl 5 ◌>>=◌
abbrev pub ◌>>=◌ {ℓ κ} : {A : Type ℓ} {B : Type κ} → Checked A → (A → Checked B) → Checked B
ok a >>= f = f a
err e >>= f = err e

-- An error in place of a missing value.
abbrev pub require {ℓ} : {A : Type ℓ} → PolicyError → Option A → Checked A
require e none = err e
require e (some a) = ok a

abbrev pub guard : Bool → PolicyError → Checked (Unit {0})
guard true e = ok tt
guard false e = err e

-- What the code takes from its environment and from libraries.
pub record Services : Type 0 where
  -- `time.Now`
  pub now : ℕ
  -- `time.Parse` with the layouts of RFC 3339 and of dates
  pub parse_rfc3339 : TimeParser
  pub parse_date : TimeParser
  -- `yaml.Unmarshal` into a resource, with its `apiVersion`, into a spec, and into a map
  pub unmarshal_resource : Text → Option (Text × Spec)
  pub unmarshal_spec : Text → Option Spec
  pub unmarshal_map : Text → Option JsonFields
  -- the compiled schema, if it compiles
  pub schema : Option (JsonFields → Bool)
  -- the cluster, if there is one, and the policy resources that it holds
  pub cluster : Option (Text → Option Spec)
  pub load_public_key_raw : Text → Option ℕ
  pub public_key_from_key_ref : Text → Option ℕ
  pub get_roots : Option ℕ
  pub get_intermediates : Option ℕ
  pub get_ct_log_pubs : Option ℕ
  pub new_rekor_client : Text → Option ℕ
  pub get_rekor_pubs : Option ℕ
  -- `SigVerifier.PublicKey` in PEM
  pub public_key_pem : ℕ → Option Text

-- `Keyless`
unfoldable pub keyless : Policy → Bool
keyless p = is_empty p.spec.public_key

-- `validateIdentity`: which of the two errors are joined.
unfoldable pub validate_identity : Identity → Checked (Unit {0})
validate_identity i =
    let no_issuer = is_empty i.issuer && is_empty i.issuer_reg_exp in
    let no_subject = is_empty i.subject && is_empty i.subject_reg_exp in
    guard (not (no_issuer || no_subject)) (invalid_identity no_issuer no_subject)

abbrev pub now_word : Text
now_word = lit "now"

abbrev pub at_attestation : Text
at_attestation = lit "attestation"

-- The map to check: what stands under `spec`, or all of it.
unfoldable pub spec_of_map : JsonFields → Option JsonFields
spec_of_map v = elim (get_field (lit "spec") v) [
  | none ↦ some v
  | some spec ↦ as_fields (some spec)
]

module _ (s : Services) where
  unfoldable pub parse_effective_time : Text → Checked (Option ℕ)
  parse_effective_time choosen_time =
      if equal_fold choosen_time now_word
      then ok (some s.now)
      else if equal_fold choosen_time at_attestation
      then ok none
      else elim (s.parse_rfc3339 choosen_time) [
        | some when ↦ ok (some when)
        | none ↦ elim (s.parse_date choosen_time) [
          | some when ↦ ok (some when)
          | none ↦ err invalid_time
        ]
      ]

  unfoldable pub validate_policy_config : Text → Checked (Unit {0})
  validate_policy_config policy_config = do
    policy_schema ← require not_conformant s.schema
    v ← require not_conformant (s.unmarshal_map policy_config)
    spec ← require not_conformant (spec_of_map v)
    guard (policy_schema spec) not_conformant

  -- A resource with a version, or else a spec.
  unfoldable pub parse_spec : Text → Checked Spec
  parse_spec policy_ref =
      let bare = require unparsable (s.unmarshal_spec policy_ref) in
      elim (s.unmarshal_resource policy_ref) [
        | none ↦ bare
        | some (api_version, spec) ↦ if is_empty api_version then bare else ok spec
      ]

  unfoldable pub load_policy : Text → Spec → Checked Spec
  load_policy policy_ref spec =
      if is_empty policy_ref
      then ok spec
      else if contains_byte b':' policy_ref
      then (do parsed ← parse_spec policy_ref; _ ← validate_policy_config policy_ref; ok parsed)
      else (do fetch ← require no_cluster s.cluster; require not_fetched (fetch policy_ref))

  unfoldable pub signature_verifier : Text → Checked ℕ
  signature_verifier public_key =
      if contains_text public_key (lit "-----BEGIN PUBLIC KEY-----")
      then require no_key (s.load_public_key_raw public_key)
      else require no_key (s.public_key_from_key_ref public_key)

  -- The options of the workflow with a key, and of the keyless one.
  unfoldable pub workflow_opts : Policy → Checked CheckOpts
  workflow_opts p =
      if not (is_empty p.spec.public_key)
      then (do
        verifier ← signature_verifier p.spec.public_key
        ok (record no_check_opts { sig_verifier = some verifier }))
      else (do
        roots ← require no_certificates s.get_roots
        intermediates ← require no_certificates s.get_intermediates
        log_keys ← require no_log_keys s.get_ct_log_pubs
        ok (record no_check_opts {
          identities = p.identity ∷ [];
          root_certs = some roots;
          intermediate_certs = some intermediates;
          ct_log_pub_keys = some log_keys;
        }))

  unfoldable pub rekor_client_for : Text → Checked (Option ℕ)
  rekor_client_for rekor_url =
      if is_empty rekor_url
      then ok none
      else (do client ← require no_rekor_client (s.new_rekor_client rekor_url); ok (some client))

  unfoldable pub check_opts : Policy → Checked CheckOpts
  check_opts p = do
    opts ← workflow_opts p
    let o : CheckOpts = record opts { ignore_tlog = p.ignore_rekor }
    if p.ignore_rekor then ok o else (do
      client ← rekor_client_for p.spec.rekor_url
      keys ← require no_rekor_keys s.get_rekor_pubs
      ok (record o { rekor_client = client; rekor_pub_keys = some keys }))

  unfoldable pub new_offline_policy : Text → Checked Policy
  new_offline_policy effective_time = do
    time ← parse_effective_time effective_time
    ok (record empty_policy {
      effective_time = time;
      choosen_time = effective_time;
      check_opts = some no_check_opts;
    })

  unfoldable pub new_inert_policy : Text → Checked Policy
  new_inert_policy policy_ref = do
    spec ← load_policy policy_ref empty_spec
    ok (record empty_policy { spec = spec })

  unfoldable pub new_input_policy : Text → Text → Checked Policy
  new_input_policy policy_ref effective_time = do
    time ← parse_effective_time effective_time
    spec ← load_policy policy_ref empty_spec
    ok (record empty_policy {
      spec = spec;
      choosen_time = effective_time;
      check_opts = some no_check_opts;
      effective_time = time;
    })
