-- ===== src/Policy/Laws.antt =====
-- What `NewPolicy` of internal/policy/policy.go gives, in the keyless workflow and with a key.
use ec_cli.Base.{
  ℕ, ◌≡◌, refl, sym, subst, Text, [], ◌∷◌, is_empty, Option, none, some, Bool, true, false,
  Bool-cases, inl, inr, not, ◌&&◌, if◌then◌else◌, arith,
}
use ec_cli.Policy.{
  Identity, Spec, CheckOpts, Policy, empty_policy, empty_spec, PolicyError, Checked, ok, err, ◌>>=◌,
  require, Services, keyless, validate_identity, parse_effective_time, load_policy, check_opts,
  workflow_opts, rekor_client_for, signature_verifier,
}
use ec_cli.Policy.Making.{Options, new_policy, with_options, identity_for, choose_identity}

pub >>=-ok {ℓ κ} :
    {A : Type ℓ} {B : Type κ} (m : Checked A) (f : A → Checked B) {b : B}
    → (m >>= f) ≡ ok b
    → (a : A) × (m ≡ ok a) × (f a ≡ ok b)
>>=-ok (ok a) f h = (a, refl, h)
>>=-ok (err e) f h = cc

pub require-ok {ℓ} :
    {A : Type ℓ} (e : PolicyError) (o : Option A) {a : A} → require e o ≡ ok a → o ≡ some a
require-ok e none h = cc
require-ok e (some x) h = cc

-- The policy before the options of the checks are made.
unfoldable pub unchecked : Options → Spec → Option ℕ → Identity → Policy
unchecked o loaded time identity = record empty_policy {
  spec = with_options o loaded;
  choosen_time = o.effective_time;
  effective_time = time;
  identity = identity;
  ignore_rekor = o.ignore_rekor;
}

pub record IsMade (s : Services) (o : Options) (p : Policy) : Type 0 where
  pub loaded : Spec
  pub time : Option ℕ
  pub opts : CheckOpts
  pub is_loaded : load_policy s o.policy_ref empty_spec ≡ ok loaded
  pub is_identity : identity_for o p.spec ≡ ok p.identity
  pub is_time : parse_effective_time s o.effective_time ≡ ok time
  pub is_checked : check_opts s (unchecked o loaded time p.identity) ≡ ok opts
  pub made : p ≡ record (unchecked o loaded time p.identity) { check_opts = some opts }

pub ok_same {ℓ} : {A : Type ℓ} {a b : A} → ok a ≡ ok b → a ≡ b
ok_same h = cc

pub new_policy-IsMade :
    (s : Services) (o : Options) (p : Policy) → new_policy s o ≡ ok p → IsMade s o p
unfolding new_policy unchecked
new_policy-IsMade s o p h =
    let (loaded, l, h1) = >>=-ok (load_policy s o.policy_ref empty_spec) _ h in
    let (identity, i, h2) = >>=-ok (identity_for o (with_options o loaded)) _ h1 in
    let (time, t, h3) = >>=-ok (parse_effective_time s o.effective_time) _ h2 in
    let (opts, c, h4) = >>=-ok (check_opts s (unchecked o loaded time identity)) _ h3 in
    let e = ok_same h4 in
    subst (λ q. IsMade s o q) e
      (record {
        loaded = loaded;
        time = time;
        opts = opts;
        is_loaded = l;
        is_identity = i;
        is_time = t;
        is_checked = c;
        made = refl;
      })

abbrev pub is_set {ℓ} : {A : Type ℓ} → Option A → Bool
is_set none = false
is_set (some a) = true

-- What the workflow fixes, and what it leaves to the transparency log.
record IsOfWorkflow (p : Policy) (o : CheckOpts) : Type 0 where
  pub by_key : is_set o.sig_verifier ≡ not (keyless p)
  pub by_identity : o.identities ≡ (if keyless p then p.identity ∷ [] else [])
  pub by_certificates : is_set o.root_certs ≡ keyless p
  pub no_client : o.rekor_client ≡ none
  pub no_keys : o.rekor_pub_keys ≡ none

workflow_opts-IsOfWorkflow :
    (s : Services) (p : Policy) (o : CheckOpts) → workflow_opts s p ≡ ok o → IsOfWorkflow p o
unfolding workflow_opts keyless
workflow_opts-IsOfWorkflow s p o h = elim (Bool-cases (is_empty p.spec.public_key)) [
  | inr e ↦
      let (verifier, v, h1) = >>=-ok (signature_verifier s p.spec.public_key) _ (rw e at h) in
      let made = ok_same h1 in ground (arith, e, made)
  | inl e ↦
      let (roots, r, h1) = >>=-ok (require _ s.get_roots) _ (rw e at h) in
      let (intermediates, i, h2) = >>=-ok (require _ s.get_intermediates) _ h1 in
      let (log_keys, l, h3) = >>=-ok (require _ s.get_ct_log_pubs) _ h2 in
      let made = ok_same h3 in ground (arith, e, made)
]

-- The options of the signature checks agree with the policy.
pub record IsChecking (p : Policy) (o : CheckOpts) : Type 0 where
  pub by_key : is_set o.sig_verifier ≡ not (keyless p)
  pub by_identity : o.identities ≡ (if keyless p then p.identity ∷ [] else [])
  pub by_certificates : is_set o.root_certs ≡ keyless p
  pub no_log : o.ignore_tlog ≡ p.ignore_rekor
  pub by_log : is_set o.rekor_pub_keys ≡ not p.ignore_rekor
  pub by_client : is_set o.rekor_client ≡ (not p.ignore_rekor && not (is_empty p.spec.rekor_url))

rekor_client_for_lem :
    (s : Services) (url : Text) (client : Option ℕ)
    → rekor_client_for s url ≡ ok client
    → is_set client ≡ not (is_empty url)
unfolding rekor_client_for
rekor_client_for_lem s url client h = elim (Bool-cases (is_empty url)) [
  | inl e ↦ let made = ok_same (rw e at h) in ground (arith, e, made)
  | inr e ↦
      let (c, r, h1) = >>=-ok (require _ (s.new_rekor_client url)) _ (rw e at h) in
      let made = ok_same h1 in ground (arith, e, made)
]

check_opts-IsChecking :
    (s : Services) (p : Policy) (o : CheckOpts) → check_opts s p ≡ ok o → IsChecking p o
unfolding check_opts
check_opts-IsChecking s p o h =
    let (opts, w, h1) = >>=-ok (workflow_opts s p) _ h in
    let f = workflow_opts-IsOfWorkflow s p opts w in
    elim (Bool-cases p.ignore_rekor) [
      | inl e ↦ let made = ok_same (rw e at h1) in ground (arith, e, made)
      | inr e ↦
          let (client, c, h2) = >>=-ok (rekor_client_for s p.spec.rekor_url) _ (rw e at h1) in
          let (keys, k, h3) = >>=-ok (require _ s.get_rekor_pubs) _ h2 in
          let made = ok_same h3 in
          let g = rekor_client_for_lem s p.spec.rekor_url client c in ground (arith, e, made, g)
    ]

-- A new policy has options of signature checks that agree with it: a verifier exactly if it has a
-- key, and otherwise its identity and root certificates; the log is ignored exactly if the policy
-- says so, and only otherwise are there keys of the log, and a client of it where the policy names
-- its URL.
pub new_policy-IsChecking :
    (s : Services) (o : Options) (p : Policy)
    → new_policy s o ≡ ok p
    → (opts : CheckOpts) × (p.check_opts ≡ some opts) × IsChecking p opts
unfolding unchecked keyless
new_policy-IsChecking s o p h =
    let m = new_policy-IsMade s o p h in
    let c = check_opts-IsChecking s _ m.opts m.is_checked in
    subst (λ q. (opts : CheckOpts) × (q.check_opts ≡ some opts) × IsChecking q opts) (sym m.made)
      (
        m.opts,
        refl,
        record {
          by_key = c.by_key;
          by_identity = c.by_identity;
          by_certificates = c.by_certificates;
          no_log = c.no_log;
          by_log = c.by_log;
          by_client = c.by_client;
        },
      )

-- An identity that says who issued the certificate and to whom.
unfoldable pub is_complete : Identity → Bool
is_complete i =
    not (is_empty i.issuer && is_empty i.issuer_reg_exp)
    && not (is_empty i.subject && is_empty i.subject_reg_exp)

identity_for-is_complete :
    (o : Options) (spec : Spec) (i : Identity)
    → identity_for o spec ≡ ok i
    → (is_empty spec.public_key && not (is_complete i)) ≡ false
unfolding identity_for is_complete validate_identity
identity_for-is_complete o spec i h = elim (Bool-cases (is_empty spec.public_key)) [
  | inr e ↦ rw e
  | inl e ↦
      let chosen = choose_identity o.identity spec.identity in
      let (u, v, h1) = >>=-ok (validate_identity chosen) _ (rw e at h) in
      let same = ok_same h1 in ground (arith, e, v, same)
]

-- A new policy without a key has an identity that gives an issuer and a subject, each as a text or
-- as an expression.
pub is_complete-new_policy :
    (s : Services) (o : Options) (p : Policy)
    → new_policy s o ≡ ok p
    → keyless p ≡ true
    → is_complete p.identity ≡ true
unfolding unchecked keyless
is_complete-new_policy s o p h k =
    let m = new_policy-IsMade s o p h in
    let c = identity_for-is_complete o p.spec p.identity m.is_identity in ground (arith, c, k)
