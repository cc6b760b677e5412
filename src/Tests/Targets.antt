-- ===== src/Tests/Targets.antt =====
-- The validation of an image whose attestations are read from their signatures.
use ec_cli.Base.{refl, lit, [], ◌∷◌, some, true, text_eq, nat_eq}
use ec_cli.Base.Json.{Json}
use ec_cli.Policy.{Policy, empty_policy, no_check_opts}
use ec_cli.Output.{
  Output, violations, sort_results, gather, add_to_violations, status, message_of,
  set_image_accessible_check_from_error, set_image_signature_check_from_error,
  set_attestation_signature_check_from_error, set_attestation_syntax_check_from_error,
  set_policy_check, checked_outcome, checked_outcomes,
}
use ec_cli.Image.{parse_and_resolve, new_image_reference, with_digest, with_tag, to_string}
use ec_cli.Validation.{
  validate_image, check_access, check_signatures, check_attestations, evaluate_image,
  attested_policy, determine_attestation_time, finish_times, finish_time, run_evaluators,
  resolve_and_set_image_url,
}
use ec_cli.Validation.Target.{
  Attestation, TargetServices, got, conforms, slsa_provenance, statements, new_snapshot_image,
  snapshot_image, new_application_snapshot_image, set_image_url, validate_image_access,
  validate_image_signature, add_signatures, validate_attestation_signature, add_attestations,
  attestation_of, validate_attestation_syntax, check_statements, at_url, signed_at, attested_at,
}
use ec_cli.Validation.Target.Layers.{IsAttested, validate_image-IsAttested}
use ec_cli.Tests.Security.{image_registry, clockwork, passing, as_is, checked_or}

abbrev provenance : Attestation
provenance = record { predicate_type = slsa_provenance; statement = lit "{}" }

abbrev target_services : TargetServices
target_services = record {
  parse_reference = λ t. some 7;
  reference_text = λ n. lit "quay.io/app@sha256:ab";
  head = λ n. got true;
  verify_image_signatures = λ n opts. got (1 ∷ []);
  new_entity_signature = λ n. some n;
  verify_image_attestations = λ n opts. got (2 ∷ []);
  provenance_from_signature = λ n. some provenance;
  slsa_provenance_from_signature = λ n. some (lit "{}");
  unmarshal = λ t. some Json.null;
  validate_slsa = λ j. conforms;
  write_input_file = λ a. some (lit "input.json", lit "{}");
}

abbrev policy : Policy
policy = record empty_policy { check_opts = some no_check_opts }

abbrev validated : Output × Policy
validated = checked_or (
    validate_image clockwork image_registry (new_snapshot_image target_services) (passing ∷ [])
      (lit "quay.io/app@sha256:ab") policy true)

validate_image-IsAttested_example : IsAttested target_services policy validated.0
unfolding validate_image check_access check_signatures check_attestations evaluate_image
    attested_policy determine_attestation_time finish_times finish_time run_evaluators
    resolve_and_set_image_url parse_and_resolve new_image_reference with_digest with_tag to_string
    status message_of set_image_accessible_check_from_error set_image_signature_check_from_error
    set_attestation_signature_check_from_error set_attestation_syntax_check_from_error
    set_policy_check checked_outcomes checked_outcome violations sort_results gather
    add_to_violations new_snapshot_image snapshot_image new_application_snapshot_image set_image_url
    validate_image_access validate_image_signature add_signatures validate_attestation_signature
    add_attestations attestation_of validate_attestation_syntax check_statements at_url signed_at
    attested_at statements text_eq nat_eq
validate_image-IsAttested_example =
    validate_image-IsAttested target_services clockwork image_registry (passing ∷ []) as_is
      (λ p rs. refl) (lit "quay.io/app@sha256:ab") policy true validated refl refl
