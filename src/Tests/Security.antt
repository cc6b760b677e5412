-- ===== src/Tests/Security.antt =====
-- Policies and the validation of images.
use ec_cli.Base.{
  ◌+◌, ◌≡◌, refl, Text, lit, List, [], ◌∷◌, Option, none, some, true, false, text_eq, nat_eq, any,
  ◌==◌, ltb, has_prefix, contains_byte, equal_fold, fold, lower_byte, count_if, ℕ, zero, suc, ◌++◌,
}
use ec_cli.Base.Json.{text, no_fields}
use ec_cli.Policy.{
  Identity, no_identity, SourceGroup, Spec, empty_spec, CheckOpts, Policy, empty_policy, Services,
  Checked, ok, err, at_attestation, load_policy, parse_effective_time, check_opts, workflow_opts,
  rekor_client_for, validate_identity, keyless,
}
use ec_cli.Policy.Making.{
  Options, new_policy, with_options, override, identity_for, choose_identity, is_given,
  set_attestation_time, effective_time_at, with_spec,
}
use ec_cli.Policy.Sources.{
  Download, pre_process_policy, process_groups, process_group, fetch_sources, policy_sources_from,
  url_sources, inline_sources, policy_url, get_policy, cache_new, urls, same_kind, kind_of,
}
use ec_cli.Policy.Times.{effective_time_at-new_policy, promised_time}
use ec_cli.Policy.Laws.{new_policy-IsChecking, IsChecking, is_complete-new_policy, is_complete}
use ec_cli.Policy.Pinning.{pre_process_policy-ArePinned, ArePinned}
use ec_cli.Evaluator.Result.{Outcome}
use ec_cli.Output.{
  Output, Sorter, violations, sort_results, gather, add_to_violations, status, message_of,
  set_image_accessible_check_from_error, set_image_signature_check_from_error,
  set_attestation_signature_check_from_error, set_attestation_syntax_check_from_error,
  set_policy_check, checked_outcome, checked_outcomes, new_output,
}
use ec_cli.Output.Counting.{count_if-violations, count_status, count_in}
use ec_cli.Image.{
  Registry, parse_and_resolve, new_image_reference, with_digest, with_tag, to_string,
}
use ec_cli.Validation.{
  SnapshotImage, Evaluator, Clockwork, validate_image, check_access, check_signatures,
  check_attestations, evaluate_image, attested_policy, determine_attestation_time, finish_times,
  finish_time, run_evaluators, resolve_and_set_image_url,
}
use ec_cli.Validation.Verdict.{validate_image-IsAccepted, IsAccepted}
use ec_cli.Tests.Sorting.{sort_times, sort_times-SortsTimes}
use ec_cli.Validation.AttestationTime.{determine_attestation_time_lem}

abbrev identity : Identity
identity = record no_identity { issuer = lit "https://issuer"; subject = lit "builder" }

abbrev group : SourceGroup
group = record {
  name = lit "default";
  policy = lit "git::policy" ∷ [];
  data_urls = lit "data:text" ∷ [];
  rule_data = none;
  config = none;
  volatile_config = none;
}

abbrev cluster_spec : Spec
cluster_spec = record empty_spec { identity = some identity; sources = group ∷ [] }

abbrev services : Services
services = record {
  now = 100;
  parse_rfc3339 = λ t. none;
  parse_date = λ t. none;
  unmarshal_resource = λ t. none;
  unmarshal_spec = λ t. none;
  unmarshal_map = λ t. none;
  schema = none;
  cluster = some (λ name. some cluster_spec);
  load_public_key_raw = λ t. none;
  public_key_from_key_ref = λ t. none;
  get_roots = some 1;
  get_intermediates = some 2;
  get_ct_log_pubs = some 3;
  new_rekor_client = λ t. some 4;
  get_rekor_pubs = some 5;
  public_key_pem = λ n. none;
}

abbrev options : Options
options = record {
  effective_time = at_attestation;
  identity = no_identity;
  ignore_rekor = false;
  policy_ref = lit "default/policy";
  public_key = [];
  rekor_url = lit "https://rekor";
}

abbrev policy_or : Checked Policy → Policy
policy_or (ok p) = p
policy_or (err e) = empty_policy

abbrev pub made_policy : Policy
made_policy = policy_or (new_policy services options)

made_policy_lem : new_policy services options ≡ ok made_policy
unfolding new_policy load_policy contains_byte identity_for with_options override choose_identity
    is_given validate_identity parse_effective_time equal_fold fold lower_byte check_opts
    workflow_opts rekor_client_for text_eq nat_eq
made_policy_lem = refl

new_policy-IsChecking_example :
    (opts : CheckOpts) × (made_policy.check_opts ≡ some opts) × IsChecking made_policy opts
new_policy-IsChecking_example = new_policy-IsChecking services options made_policy made_policy_lem

effective_time_at-new_policy_example :
    some (effective_time_at 900 (set_attestation_time 50 made_policy))
    ≡ promised_time services at_attestation 50 900
effective_time_at-new_policy_example =
    effective_time_at-new_policy services options made_policy 50 900 made_policy_lem

is_complete-new_policy_example : is_complete made_policy.identity ≡ true
unfolding new_policy load_policy contains_byte identity_for with_options override choose_identity
    is_given validate_identity parse_effective_time equal_fold fold lower_byte check_opts
    workflow_opts rekor_client_for text_eq nat_eq keyless
is_complete-new_policy_example =
    is_complete-new_policy services options made_policy made_policy_lem refl

abbrev download : Download
download dir url = some (dir, lit "pinned")

abbrev spec_or : Checked (Policy × List (Text × Text)) → Policy × List (Text × Text)
spec_or (ok p) = p
spec_or (err e) = (empty_policy, [])

-- A directory for each group.
abbrev work_dirs : ℕ → Option Text
work_dirs zero = some (lit "work")
work_dirs (suc n) = some (lit "work" ++ b'-' ∷ n ∷ [])

abbrev pinned : Policy × List (Text × Text)
pinned = spec_or (pre_process_policy (λ t. t) download work_dirs services options [])

pre_process_policy-ArePinned_example :
    ArePinned (λ t. t) download work_dirs 0 made_policy.spec.sources pinned.0.spec.sources
unfolding pre_process_policy process_groups process_group fetch_sources policy_sources_from
    url_sources inline_sources policy_url get_policy cache_new urls same_kind kind_of has_prefix
    new_policy load_policy contains_byte identity_for with_options override choose_identity is_given
    validate_identity parse_effective_time equal_fold fold lower_byte check_opts workflow_opts
    rekor_client_for text_eq nat_eq with_spec
pre_process_policy-ArePinned_example =
    pre_process_policy-ArePinned (λ t. t) download work_dirs services options [] pinned.1
      made_policy pinned.0 made_policy_lem refl

abbrev outcome : Outcome
outcome = record {
  file_name = lit "-";
  namespace = lit "main";
  successes = [];
  skipped = [];
  warnings = [];
  failures = record { message = lit "failed"; metadata = none; outputs = [] } ∷ [];
  exceptions = [];
}

abbrev pub output : Output
output = record (new_output (lit "quay.io/app") true none) { policy_check = outcome ∷ [] }

-- A slice that is sorted already.
abbrev pub as_is : Sorter
as_is less rs = rs

count_if-violations_example :
    count_if (λ r. true) (violations as_is output)
    ≡ count_status (λ r. true) true output.image_signature_check
      + count_status (λ r. true) true output.image_accessible_check
      + count_status (λ r. true) true output.attestation_signature_check
      + count_status (λ r. true) true output.attestation_syntax_check
      + count_in (λ r. true) (λ r. r.failures) output.policy_check
count_if-violations_example = count_if-violations as_is (λ p rs. refl) (λ r. true) output

abbrev pub image_registry : Registry
image_registry = record {
  parse_reference = λ t. some 7;
  new_tag = λ t. some (lit "latest", lit "quay.io/app");
  new_digest = λ t. some (lit "sha256:ab", lit "quay.io/app");
  remote_head = λ n. none;
}

abbrev image : SnapshotImage
image = record {
  validate_image_access = λ url. none;
  set_image_url = λ url. true;
  validate_image_signature = λ url. none;
  validate_attestation_signature = λ url. none;
  attested = λ url. record { signatures = 1 ∷ []; attestations = lit "{}" ∷ [] };
  validate_attestation_syntax = λ url. none;
  write_input_file = λ url. some (lit "input.json", lit "{}");
  image_reference = λ url. url;
}

-- Every attestation was built at the same time.
abbrev pub clockwork : Clockwork
clockwork = record {
  unmarshal = λ t. some no_fields;
  build_finished_on = λ fields. some (text (lit "2024"));
  parse_time = λ t. some 2024;
  sort_times = λ less ts. ts;
}

abbrev pub passing : Evaluator
passing p path target = some (record outcome { failures = [] } ∷ [])

abbrev pub checked_or : Option (Output × Policy) → Output × Policy
checked_or none = (output, empty_policy)
checked_or (some made) = made

abbrev checked : Output × Policy
checked = checked_or (
    validate_image clockwork image_registry (λ url p. some image) (passing ∷ [])
      (lit "quay.io/app@sha256:ab") made_policy true)

validate_image-IsAccepted_example :
    (a : SnapshotImage) × (some image ≡ some a)
    × IsAccepted clockwork a (lit "quay.io/app@sha256:ab") made_policy checked
unfolding validate_image check_access check_signatures check_attestations evaluate_image
    attested_policy determine_attestation_time finish_times finish_time run_evaluators
    resolve_and_set_image_url parse_and_resolve new_image_reference with_digest with_tag to_string
    status message_of set_image_accessible_check_from_error set_image_signature_check_from_error
    set_attestation_signature_check_from_error set_attestation_syntax_check_from_error
    set_policy_check checked_outcomes checked_outcome violations sort_results gather
    add_to_violations
validate_image-IsAccepted_example =
    validate_image-IsAccepted clockwork image_registry (λ url p. some image) (passing ∷ []) as_is
      (λ p rs. refl) (lit "quay.io/app@sha256:ab") made_policy true checked refl refl

abbrev dated : Clockwork
dated = record clockwork { sort_times = sort_times }

determine_attestation_time_lem_example :
    (any (λ t. t == 2024) (finish_times dated (lit "{}" ∷ [])) ≡ true)
    × (any (λ t. ltb 2024 t) (finish_times dated (lit "{}" ∷ [])) ≡ false)
unfolding determine_attestation_time finish_times finish_time sort_times
determine_attestation_time_lem_example =
    determine_attestation_time_lem dated (lit "{}" ∷ []) 2024 sort_times-SortsTimes refl
