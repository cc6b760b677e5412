-- ===== src/Validation.antt =====
-- internal/image/validate.go: `ValidateImage`, which composes the checks of one image with its
-- policy and the evaluators. The operations of an application snapshot image, the evaluators, the
-- parsers of JSON and times, the JSON pointer and `sort.Slice` are parameters. Fetching the image's
-- configuration and files, whose errors are only logged, is left out.
pub mod Verdict
pub mod AttestationTime
pub mod Target
use ec_cli.Base.{
  ℕ, Text, lit, List, [], ◌∷◌, ◌++◌, is_empty, Option, none, some, Bool, true, false, not,
  if◌then◌else◌, ltb,
}
use ec_cli.Base.Json.{Json, JsonFields, as_text}
use ec_cli.Evaluator.Criteria.{TimeParser}
use ec_cli.Evaluator.Result.{Result, Outcome}
use ec_cli.Policy.{Policy}
use ec_cli.Policy.Making.{set_attestation_time}
use ec_cli.Output.{
  CheckError, Output, new_output, set_image_accessible_check_from_error,
  set_image_signature_check_from_error, set_attestation_signature_check_from_error,
  set_attestation_syntax_check_from_error, set_policy_check,
}
use ec_cli.Image.{ImageReference, Registry, to_string, parse_and_resolve}

-- What `ValidateAttestationSignature` leaves behind where it succeeds.
pub record Attested : Type 0 where
  pub signatures : List ℕ
  pub attestations : List Text

-- The operations of the snapshot image, at the URL that is set; the error of a check, if it fails.
pub record SnapshotImage : Type 0 where
  pub validate_image_access : Text → Option CheckError
  pub set_image_url : Text → Bool
  pub validate_image_signature : Text → Option CheckError
  pub validate_attestation_signature : Text → Option CheckError
  pub attested : Text → Attested
  pub validate_attestation_syntax : Text → Option CheckError
  -- the path and the bytes of the input
  pub write_input_file : Text → Option (Text × Text)
  pub image_reference : Text → Text

-- An evaluator sees the policy as it is when it is called.
abbrev pub Evaluator : Type 0
Evaluator = Policy → Text → Text → Option (List Outcome)

-- `json.Unmarshal` into a map, the pointer to `buildFinishedOn`, `time.Parse` and `sort.Slice`
pub record Clockwork : Type 0 where
  pub unmarshal : Text → Option JsonFields
  pub build_finished_on : JsonFields → Option Json
  pub parse_time : TimeParser
  pub sort_times : (ℕ → ℕ → Bool) → List ℕ → List ℕ

-- One round of the loop over the attestations.
unfoldable pub finish_time : Clockwork → Text → Option ℕ
finish_time c statement = elim (c.unmarshal statement) [
  | none ↦ none
  | some obj ↦ elim (as_text (c.build_finished_on obj)) [ none ↦ none | some t ↦ c.parse_time t ]
]

unfoldable pub finish_times : Clockwork → List Text → List ℕ
finish_times c [] = []
finish_times c (a ∷ attestations) =
    let rest = finish_times c attestations in
    elim (finish_time c a) [ none ↦ rest | some at ↦ at ∷ rest ]

-- `times[i].After(times[j])`
unfoldable pub is_after : ℕ → ℕ → Bool
is_after i j = ltb j i

unfoldable pub determine_attestation_time : Clockwork → List Text → Option ℕ
determine_attestation_time c attestations =
    elim (c.sort_times is_after (finish_times c attestations)) [ [] ↦ none | at ∷ _ ↦ some at ]

-- `resolveAndSetImageUrl`
unfoldable pub resolve_and_set_image_url : Registry → SnapshotImage → Text → Option Text
resolve_and_set_image_url g a url = elim (parse_and_resolve g url) [
  | none ↦ none
  | some ref ↦
      let resolved = to_string (record ref { tag = [] }) in
      if a.set_image_url resolved then some resolved else none
]

-- The outcomes of all evaluators, unless one fails.
unfoldable pub run_evaluators : List Evaluator → Policy → Text → Text → Option (List Outcome)
run_evaluators [] p path target = some []
run_evaluators (e ∷ es) p path target =
    let rest = run_evaluators es p path target in
    elim (e p path target) [
      | none ↦ none
      | some results ↦ elim rest [ none ↦ none | some more ↦ some (results ++ more) ]
    ]

abbrev pub no_attestations : Outcome
no_attestations = record {
  file_name = [];
  namespace = [];
  successes = [];
  skipped = [];
  warnings = [];
  failures =
      (record {
        message = lit "No attestations contain a subject that match the given image.";
        metadata = none;
        outputs = [];
      })
      ∷ [];
  exceptions = [];
}

-- The policy once the attestations are known.
unfoldable pub attested_policy : Clockwork → List Text → Policy → Policy
attested_policy c attestations p = elim (determine_attestation_time c attestations) [
  | none ↦ p
  | some at ↦ set_attestation_time at p
]

module _ (c : Clockwork) (g : Registry) (a : SnapshotImage) (evaluators : List Evaluator) where
  -- From the evaluation of the policy on.
  unfoldable pub evaluate_image : Text → Policy → Output → Option (Output × Policy)
  evaluate_image url p out = elim (a.write_input_file url) [
    | none ↦ none
    | some (path, input) ↦ elim (run_evaluators evaluators p path (a.image_reference url)) [
      | none ↦ none
      | some results ↦ some (set_policy_check results (record out { policy_input = input }), p)
    ]
  ]

  -- From the attestations on.
  unfoldable pub check_attestations : Text → Policy → Output → Option (Output × Policy)
  check_attestations url p out =
      let found = a.attested url in
      let p' = attested_policy c found.attestations p in
      let out' : Output =
        record (set_attestation_syntax_check_from_error (a.validate_attestation_syntax url)
          (record out { signatures = found.signatures; attestations = found.attestations })) {
            policy = some p';
          } in
      if is_empty found.attestations
      then some (set_policy_check (no_attestations ∷ []) out', p')
      else evaluate_image url p' out'

  -- From the resolved image on.
  unfoldable pub check_signatures : Text → Policy → Output → Option (Output × Policy)
  check_signatures url p out =
      let signed = set_image_signature_check_from_error (a.validate_image_signature url) out in
      let out' =
        set_attestation_signature_check_from_error (a.validate_attestation_signature url) signed in
      if out'.attestation_signature_check.passed
      then check_attestations url p out'
      else some (out', p)

  -- From the access to the image on.
  unfoldable pub check_access : Text → Policy → Bool → Option (Output × Policy)
  check_access container_image p detailed =
      let out =
        set_image_accessible_check_from_error (a.validate_image_access container_image)
          (new_output container_image detailed (some p)) in
      if not out.image_accessible_check.passed
      then some (out, p)
      else elim (resolve_and_set_image_url g a container_image) [
        | none ↦ none
        | some resolved ↦ check_signatures resolved p (record out { image_url = resolved })
      ]

module _ (c : Clockwork) (g : Registry) (new_image : Text → Policy → Option SnapshotImage)
    (evaluators : List Evaluator) where
  -- The output with the policy as it is left: the two share it.
  unfoldable pub validate_image : Text → Policy → Bool → Option (Output × Policy)
  validate_image container_image p detailed = elim (new_image container_image p) [
    | none ↦ none
    | some a ↦ check_access c g a evaluators container_image p detailed
  ]
