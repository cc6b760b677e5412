-- ===== src/Policy/Making.antt =====
-- `NewPolicy` and the methods of `policy` in internal/policy/policy.go.
use ec_cli.Base.{
  ℕ, Text, [], is_empty, Option, none, some, Bool, ◌==◌, ◌&&◌, not, text_eq, if◌then◌else◌,
}
use ec_cli.Policy.{
  Identity, no_identity, Spec, Policy, empty_policy, empty_spec, Checked, ok, ◌>>=◌, require,
  Services, keyless, validate_identity, at_attestation, parse_effective_time, load_policy,
  check_opts, no_verifier,
}

-- `policy.Options`
pub record Options : Type 0 where
  pub effective_time : Text
  pub identity : Identity
  pub ignore_rekor : Bool
  pub policy_ref : Text
  pub public_key : Text
  pub rekor_url : Text

-- `value != "" && value != old`
unfoldable pub override : Text → Text → Text
override value old = if not (is_empty value) && not (value == old) then value else old

-- `identity != (cosign.Identity{})`
unfoldable pub is_given : Identity → Bool
is_given i = not (
    is_empty i.issuer
    && is_empty i.subject
    && is_empty i.issuer_reg_exp
    && is_empty i.subject_reg_exp)

-- The identity of the keyless workflow: of the options, or else of the spec.
unfoldable pub choose_identity : Identity → Option Identity → Identity
choose_identity given in_spec =
    if is_given given then given else elim in_spec [ none ↦ no_identity | some i ↦ i ]

-- The identity is chosen and checked where no key is given.
unfoldable pub identity_for : Options → Spec → Checked Identity
identity_for o spec =
    if is_empty spec.public_key
    then (do let i = choose_identity o.identity spec.identity; _ ← validate_identity i; ok i)
    else ok no_identity

-- The spec with the key and the Rekor URL of the options.
unfoldable pub with_options : Options → Spec → Spec
with_options o spec = record spec {
  rekor_url = override o.rekor_url spec.rekor_url;
  public_key = override o.public_key spec.public_key;
}

unfoldable pub new_policy : Services → Options → Checked Policy
new_policy s o = do
  loaded ← load_policy s o.policy_ref empty_spec
  let spec = with_options o loaded
  identity ← identity_for o spec
  time ← parse_effective_time s o.effective_time
  let p : Policy = record empty_policy {
    spec = spec;
    choosen_time = o.effective_time;
    effective_time = time;
    identity = identity;
    ignore_rekor = o.ignore_rekor;
  }
  opts ← check_opts s p
  ok (record p { check_opts = some opts })

unfoldable pub with_spec : Spec → Policy → Policy
with_spec spec p = record p { spec = spec }

-- `AttestationTime`
unfoldable pub set_attestation_time : ℕ → Policy → Policy
set_attestation_time at p = record p {
  attestation_time = some at;
  effective_time = if p.choosen_time == at_attestation then some at else p.effective_time;
}

-- `EffectiveTime`, at the current time `now`
unfoldable pub effective_time_at : ℕ → Policy → ℕ
effective_time_at now p = elim p.effective_time [ none ↦ now | some at ↦ at ]

unfoldable pub verifier_of : Policy → Option ℕ
verifier_of p = elim p.check_opts [ none ↦ none | some o ↦ o.sig_verifier ]

-- `PublicKeyPEM`
unfoldable pub public_key_pem : Services → Policy → Checked Text
public_key_pem s p = if keyless p then ok [] else (do
  verifier ← require no_verifier (verifier_of p)
  require no_verifier (s.public_key_pem verifier))

pub record SigstoreOpts : Type 0 where
  pub certificate_identity : Text
  pub certificate_identity_reg_exp : Text
  pub certificate_oidc_issuer : Text
  pub certificate_oidc_issuer_reg_exp : Text
  pub ignore_rekor : Bool
  pub public_key : Text
  pub rekor_url : Text

unfoldable pub sigstore_opts : Services → Policy → Checked SigstoreOpts
sigstore_opts s p = do
  pk ← public_key_pem s p
  ok (record {
    certificate_identity = p.identity.subject;
    certificate_identity_reg_exp = p.identity.subject_reg_exp;
    certificate_oidc_issuer = p.identity.issuer;
    certificate_oidc_issuer_reg_exp = p.identity.issuer_reg_exp;
    ignore_rekor = p.ignore_rekor;
    public_key = pk;
    rekor_url = p.spec.rekor_url;
  })
