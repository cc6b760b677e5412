-- ===== src/Output.antt =====
-- internal/output/output.go: the checks of an image, its violations, warnings and successes.
-- `sort.Slice` is a parameter, given the order that the code passes it. Signatures are opaque, an
-- attestation is its statement, and the printing in JSON is left out.
pub mod Counting
use ec_cli.Base.{
  ℕ, Text, lit, List, [], ◌∷◌, ◌++◌, is_empty, Option, none, some, Bool, true, false, ◌==◌, ◌&&◌,
  ◌||◌, not, text_eq, nat_eq, ltb, if◌then◌else◌, keep,
}
use ec_cli.Evaluator.Result.{
  Result, Outcome, Metadata, Value, string, metadata_code, metadata_effective_on, metadata_term,
  metadata_title, metadata_description, extract_string_from_metadata,
}
use ec_cli.Policy.{Policy, keyless}

-- An error of a check: the two of cosign that the code tells apart, and the others.
pub data CheckError : Type 0 where
  no_matching_signatures no_matching_attestations other_error : Text → CheckError

unfoldable pub error_text : CheckError → Text
error_text (no_matching_signatures t) = t
error_text (no_matching_attestations t) = t
error_text (other_error t) = t

pub record VerificationStatus : Type 0 where
  pub passed : Bool
  pub result : Option Result

unfoldable pub result_of_status : VerificationStatus → List Result
result_of_status v = elim v.result [ none ↦ [] | some r ↦ r ∷ [] ]

unfoldable pub add_to_violations : VerificationStatus → List Result → List Result
add_to_violations v violations = if v.passed then violations else violations ++ result_of_status v

unfoldable pub add_to_successes : VerificationStatus → List Result → List Result
add_to_successes v successes = if not v.passed then successes else successes ++ result_of_status v

pub record Output : Type 0 where
  pub image_accessible_check : VerificationStatus
  pub image_signature_check : VerificationStatus
  pub attestation_signature_check : VerificationStatus
  pub attestation_syntax_check : VerificationStatus
  pub policy_check : List Outcome
  pub exit_code : ℕ
  pub signatures : List ℕ
  pub attestations : List Text
  pub image_url : Text
  pub detailed : Bool
  pub policy : Option Policy
  pub policy_input : Text

abbrev pub no_status : VerificationStatus
no_status = record { passed = false; result = none }

-- `&output.Output{ImageURL: …, Detailed: …, Policy: …}`
abbrev pub new_output : Text → Bool → Option Policy → Output
new_output url detailed policy = record {
  image_accessible_check = no_status;
  image_signature_check = no_status;
  attestation_signature_check = no_status;
  attestation_syntax_check = no_status;
  policy_check = [];
  exit_code = 0;
  signatures = [];
  attestations = [];
  image_url = url;
  detailed = detailed;
  policy = policy;
  policy_input = [];
}

unfoldable pub is_kept_key : Text → Bool
is_kept_key key = key == metadata_code || (key == metadata_effective_on || key == metadata_term)

unfoldable pub keep_some_metadata_single : Result → Result
keep_some_metadata_single r = record r {
  metadata = elim r.metadata [ none ↦ none | some m ↦ some (keep (λ e. is_kept_key e.0) m) ];
}

unfoldable pub keep_some_metadata : List Result → List Result
keep_some_metadata [] = []
keep_some_metadata (r ∷ rs) = keep_some_metadata_single r ∷ keep_some_metadata rs

-- `wrapCosignErrorMessage`
unfoldable pub wrap_cosign_error_message : CheckError → Text → Option Policy → Text
wrap_cosign_error_message e check_type p =
    let plain = lit "Image " ++ (check_type ++ (lit " check failed: " ++ error_text e)) in
    let with_key : Bool = elim p [ none ↦ true | some q ↦ not (keyless q) ] in
    if with_key
    then elim e [
      | no_matching_signatures t ↦
          lit
            "No image signatures found matching the given public key. Verify the correct public key was provided, and a signature was created. Error: "
          ++ t
      | no_matching_attestations t ↦
          lit
            "No image attestations found matching the given public key. Verify the correct public key was provided, and one or more attestations were created. Error: "
          ++ t
      | other_error t ↦ plain
    ]
    else plain

-- What the four setters share: the status of a check, with an error or none.
unfoldable pub status : Bool → Text → Text → Text → Option Text → VerificationStatus
status detailed code title description failure =
    let result : Result = record {
      message = elim failure [ none ↦ lit "Pass" | some m ↦ m ];
      metadata = some (
          (metadata_code, string code)
          ∷ (metadata_title, string title)
          ∷ (metadata_description, string description)
          ∷ []);
      outputs = [];
    } in
    record {
      passed = elim failure [ none ↦ true | some m ↦ false ];
      result = some (if detailed then result else keep_some_metadata_single result);
    }

unfoldable pub message_of : (CheckError → Text) → Option CheckError → Option Text
message_of f none = none
message_of f (some e) = some (f e)

unfoldable pub set_image_accessible_check_from_error : Option CheckError → Output → Output
set_image_accessible_check_from_error e o = record o {
  image_accessible_check =
      status o.detailed (lit "builtin.image.accessible") (lit "Image URL is accessible")
        (lit "The image URL is available and accessible.")
        (message_of (λ err. lit "Image URL is not accessible: " ++ error_text err) e);
}

unfoldable pub set_image_signature_check_from_error : Option CheckError → Output → Output
set_image_signature_check_from_error e o = record o {
  image_signature_check =
      status o.detailed (lit "builtin.image.signature_check") (lit "Image signature check passed")
        (lit "The image signature matches available signing materials.")
        (message_of (λ err. wrap_cosign_error_message err (lit "signature") o.policy) e);
}

unfoldable pub set_attestation_signature_check_from_error : Option CheckError → Output → Output
set_attestation_signature_check_from_error e o = record o {
  attestation_signature_check =
      status o.detailed (lit "builtin.attestation.signature_check")
        (lit "Attestation signature check passed")
        (lit "The attestation signature matches available signing materials.")
        (message_of (λ err. wrap_cosign_error_message err (lit "attestation") o.policy) e);
}

unfoldable pub set_attestation_syntax_check_from_error : Option CheckError → Output → Output
set_attestation_syntax_check_from_error e o = record o {
  attestation_syntax_check =
      status o.detailed (lit "builtin.attestation.syntax_check")
        (lit "Attestation syntax check passed") (lit "The attestation has correct syntax.")
        (message_of (λ err. lit "Attestation syntax check failed: " ++ error_text err) e);
}

-- One round of the loop in `SetPolicyCheck`, but for the exit code.
unfoldable pub checked_outcome : Bool → Outcome → Outcome
checked_outcome detailed r =
    let named : Outcome = record r {
      file_name = if r.file_name == lit "-" then [] else r.file_name;
    } in
    if detailed then named else record named {
      exceptions = keep_some_metadata r.exceptions;
      failures = keep_some_metadata r.failures;
      successes = keep_some_metadata r.successes;
      skipped = keep_some_metadata r.skipped;
      warnings = keep_some_metadata r.warnings;
    }

unfoldable pub checked_outcomes : Bool → List Outcome → List Outcome
checked_outcomes detailed [] = []
checked_outcomes detailed (r ∷ rs) = checked_outcome detailed r ∷ checked_outcomes detailed rs

unfoldable pub exit_code_of : List Outcome → ℕ → ℕ
exit_code_of [] code = code
exit_code_of (r ∷ rs) code =
    let failed = exit_code_of rs 1 in
    let rest = exit_code_of rs code in if not (is_empty r.failures) then failed else rest

unfoldable pub set_policy_check : List Outcome → Output → Output
set_policy_check results o = record o {
  policy_check = checked_outcomes o.detailed results;
  exit_code = exit_code_of results o.exit_code;
}

-- The order of the strings of Go, byte by byte.
unfoldable pub text_less : Text → Text → Bool
text_less a [] = false
text_less [] (d ∷ ds) = true
text_less (c ∷ cs) (d ∷ ds) = if c == d then text_less cs ds else ltb c d

-- The order that `sortResults` passes to `sort.Slice`
unfoldable pub result_less : Result → Result → Bool
result_less a b =
    let a_code = extract_string_from_metadata a metadata_code in
    let b_code = extract_string_from_metadata b metadata_code in
    let a_term = extract_string_from_metadata a metadata_term in
    let b_term = extract_string_from_metadata b metadata_term in
    if a_code == b_code
    then if a_term == b_term then text_less a.message b.message else text_less a_term b_term
    else text_less a_code b_code

-- The results of one kind in all outcomes, appended.
unfoldable pub gather : (Outcome → List Result) → List Outcome → List Result → List Result
gather f [] results = results
gather f (r ∷ rs) results = gather f rs (results ++ f r)

abbrev pub Sorter : Type 0
Sorter = (Result → Result → Bool) → List Result → List Result

module _ (sort : Sorter) where
  unfoldable pub sort_results : List Result → List Result
  sort_results results = sort result_less results

  unfoldable pub violations : Output → List Result
  violations o =
      let v1 = add_to_violations o.image_signature_check [] in
      let v2 = add_to_violations o.image_accessible_check v1 in
      let v3 = add_to_violations o.attestation_signature_check v2 in
      let v4 = add_to_violations o.attestation_syntax_check v3 in
      sort_results (gather (λ r. r.failures) o.policy_check v4)

  unfoldable pub warnings : Output → List Result
  warnings o = sort_results (gather (λ r. r.warnings) o.policy_check [])

  unfoldable pub successes : Output → List Result
  successes o =
      let s = gather (λ r. r.successes) o.policy_check [] in
      let s1 = add_to_successes o.image_signature_check s in
      let s2 = add_to_successes o.attestation_signature_check s1 in
      sort_results (add_to_successes o.attestation_syntax_check s2)
