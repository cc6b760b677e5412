-- ===== src/Validation/Verdict.antt =====
-- What it takes for `ValidateImage` to report no violation.
use ec_cli.Base.{
  ◌≡◌, refl, sym, ◌∙◌, ap, subst, Text, List, [], ◌∷◌, is_empty, Option, none, some, Bool, true,
  false, not, Bool-cases, Option-cases, inl, inr, count_if, arith, All,
}
use ec_cli.Evaluator.Result.{Result, Outcome}
use ec_cli.Policy.{Policy}
use ec_cli.Policy.Laws.{is_set}
use ec_cli.Output.{
  VerificationStatus, Output, Sorter, violations, result_of_status, status, message_of, new_output,
  set_image_accessible_check_from_error, set_image_signature_check_from_error,
  set_attestation_signature_check_from_error, set_attestation_syntax_check_from_error,
  set_policy_check, CheckError, checked_outcome, checked_outcomes, keep_some_metadata,
}
use ec_cli.Output.Counting.{KeepsElements, count_status, count_in, count_if-violations}
use ec_cli.Image.{Registry, parse_and_resolve, to_string}
use ec_cli.Policy.Making.{set_attestation_time}
use ec_cli.Validation.{
  SnapshotImage, Evaluator, Clockwork, validate_image, check_access, check_signatures,
  check_attestations, evaluate_image, attested_policy, no_attestations, resolve_and_set_image_url,
  run_evaluators, determine_attestation_time,
}

abbrev any_result : Result → Bool
any_result r = true

-- A check with a result that counts for no violation has passed.
abbrev HasPassed : VerificationStatus → Type 0
HasPassed v = is_set v.result ≡ true → v.passed ≡ true

passed_by_count :
    (b : Bool) (r : Option Result)
    → count_status any_result (not b) (record { passed = b; result = r }) ≡ 0
    → is_set r ≡ true
    → b ≡ true
unfolding count_status count_if result_of_status
passed_by_count true r h s = refl
passed_by_count false none h s = cc
passed_by_count false (some r) h s = absurd (omega (arith, h))

passed_of_count :
    (v : VerificationStatus) → count_status any_result (not v.passed) v ≡ 0 → HasPassed v
passed_of_count v h s = passed_by_count v.passed v.result h s

abbrev pub HasNoFailures : List Outcome → Type 0
HasNoFailures rs = All (λ r. is_empty r.failures ≡ true) rs

empty_of_count : (rs : List Result) → count_if any_result rs ≡ 0 → is_empty rs ≡ true
unfolding count_if
empty_of_count [] h = refl
empty_of_count (r ∷ rs) h = absurd (omega (arith, h))

no_failures_of_count :
    (rs : List Outcome) → count_in any_result (λ r. r.failures) rs ≡ 0 → HasNoFailures rs
unfolding count_in
no_failures_of_count [] h = tt
no_failures_of_count (r ∷ rs) h =
    (empty_of_count r.failures (omega (arith, h)), no_failures_of_count rs (omega (arith, h)))

record IsClean (o : Output) : Type 0 where
  pub signed : HasPassed o.image_signature_check
  pub accessible : HasPassed o.image_accessible_check
  pub attested : HasPassed o.attestation_signature_check
  pub syntax : HasPassed o.attestation_syntax_check
  pub no_failures : HasNoFailures o.policy_check

violations-IsClean :
    (sort : Sorter) → KeepsElements sort → (o : Output) → violations sort o ≡ [] → IsClean o
unfolding count_if
violations-IsClean sort keeps o h =
    let counts = count_if-violations sort keeps any_result o in
    let none_left : count_if any_result (violations sort o) ≡ 0 = ap (count_if any_result) h in
    record {
      signed = passed_of_count _ (omega (arith, counts, none_left));
      accessible = passed_of_count _ (omega (arith, counts, none_left));
      attested = passed_of_count _ (omega (arith, counts, none_left));
      syntax = passed_of_count _ (omega (arith, counts, none_left));
      no_failures = no_failures_of_count _ (omega (arith, counts, none_left));
    }

pub some_same {ℓ} : {A : Type ℓ} {a b : A} → some a ≡ some b → a ≡ b
some_same h = cc

no_attestations_fail :
    {b : Bool} (detailed : Bool)
    → is_empty (checked_outcome detailed no_attestations).failures ≡ true
    → b ≡ false
unfolding checked_outcome keep_some_metadata
no_attestations_fail true h = cc
no_attestations_fail false h = cc

passed_of_error :
    (f : CheckError → Text) (e : Option CheckError)
    → elim (message_of f e) as (λ x. Bool) [ none ↦ true | some m ↦ false ] ≡ not (is_set e)
unfolding message_of
passed_of_error f none = refl
passed_of_error f (some e) = refl

no_error : (e : Option CheckError) → not (is_set e) ≡ true → e ≡ none
no_error none h = refl
no_error (some e) h = cc

-- Every check of the image passes at its resolved URL, which was set and is the output's, and the
-- policy is told the time of its attestations.
pub record IsAccepted (c : Clockwork) (a : SnapshotImage) (url : Text) (p : Policy)
    (made : Output × Policy) : Type 0 where
  pub resolved : Text
  pub located : made.0.image_url ≡ resolved
  pub set : a.set_image_url resolved ≡ true
  pub accessible : a.validate_image_access url ≡ none
  pub signed : a.validate_image_signature resolved ≡ none
  pub attested : a.validate_attestation_signature resolved ≡ none
  pub syntax : a.validate_attestation_syntax resolved ≡ none
  pub listed : made.0.attestations ≡ (a.attested resolved).attestations
  pub found : is_empty made.0.attestations ≡ false
  pub no_failures : HasNoFailures made.0.policy_check
  pub timed : made.1 ≡ (elim (determine_attestation_time c made.0.attestations) [
    | none ↦ p
    | some at ↦ set_attestation_time at p
  ])

module _ (c : Clockwork) (g : Registry) (a : SnapshotImage) (evaluators : List Evaluator) where
  -- What the checks after the signatures add to an output.
  record IsConcluded (url : Text) (out : Output) (p : Policy) (made : Output × Policy)
      : Type 0 where
    pub located : made.0.image_url ≡ out.image_url
    pub signed : made.0.image_signature_check ≡ out.image_signature_check
    pub accessible : made.0.image_accessible_check ≡ out.image_accessible_check
    pub attested : made.0.attestation_signature_check ≡ out.attestation_signature_check
    pub syntax : is_set made.0.attestation_syntax_check.result ≡ true
    pub checked :
        made.0.attestation_syntax_check.passed ≡ not (is_set (a.validate_attestation_syntax url))
    pub listed : made.0.attestations ≡ (a.attested url).attestations
    pub found : HasNoFailures made.0.policy_check → is_empty made.0.attestations ≡ false
    pub timed : made.1 ≡ attested_policy c made.0.attestations p

  evaluate_image_lem :
      (url : Text) (p : Policy) (out : Output) (made : Output × Policy)
      → evaluate_image c g a evaluators url p out ≡ some made
      → (input : Text) × (results : List Outcome) × (made
          ≡ (set_policy_check results (record out { policy_input = input }), p))
  unfolding evaluate_image
  evaluate_image_lem url p out made h = elim (Option-cases (a.write_input_file url)) [
    | inl e ↦ cc (rw (e, evaluate_image) at h)
    | inr ((path, input), e) ↦
        let h1 = rw (e, evaluate_image) at h in
        elim (Option-cases (run_evaluators evaluators p path (a.image_reference url))) [
          | inl f ↦ cc (rw f at h1)
          | inr (results, f) ↦ (input, results, sym (some_same (rw f at h1)))
        ]
  ]

  check_attestations-IsConcluded :
      (url : Text) (p : Policy) (out : Output) (made : Output × Policy)
      → check_attestations c g a evaluators url p out ≡ some made
      → IsConcluded url out p made
  unfolding check_attestations set_policy_check checked_outcomes status
      set_attestation_syntax_check_from_error
  check_attestations-IsConcluded url p out made h =
      elim (Bool-cases (is_empty (a.attested url).attestations)) [
        | inl e ↦ subst (IsConcluded url out p) (some_same (rw e at h)) (record {
          located = refl;
          signed = refl;
          accessible = refl;
          attested = refl;
          syntax = refl;
          checked = passed_of_error _ (a.validate_attestation_syntax url);
          listed = refl;
          found = λ n. no_attestations_fail out.detailed n.0;
          timed = refl;
        })
        | inr e ↦
            let (input, results, same) = evaluate_image_lem url _ _ made (rw e at h) in
            subst (IsConcluded url out p) (sym same) (record {
              located = refl;
              signed = refl;
              accessible = refl;
              attested = refl;
              syntax = refl;
              checked = passed_of_error _ (a.validate_attestation_syntax url);
              listed = refl;
              found = λ n. e;
              timed = refl;
            })
      ]

  true_or_false : ¬ (false ≡ true)
  true_or_false h = cc

  attested_policy_lem :
      (attestations : List Text) (p : Policy)
      → attested_policy c attestations p ≡ (elim (determine_attestation_time c attestations) [
        | none ↦ p
        | some at ↦ set_attestation_time at p
      ])
  unfolding attested_policy
  attested_policy_lem attestations p = refl

  set_of_resolved :
      (url resolved : Text)
      → resolve_and_set_image_url g a url ≡ some resolved
      → a.set_image_url resolved ≡ true
  unfolding resolve_and_set_image_url
  set_of_resolved url resolved h = elim (Option-cases (parse_and_resolve g url)) [
    | inl e ↦ cc (rw (e, resolve_and_set_image_url) at h)
    | inr (ref, e) ↦
        let k = rw (e, resolve_and_set_image_url) at h in
        elim (Bool-cases (a.set_image_url (to_string (record ref { tag = [] })))) [
          | inr f ↦ cc (rw f at k)
          | inl f ↦ subst (λ t. a.set_image_url t ≡ true) (some_same (rw f at k)) f
        ]
  ]

  check_signatures-IsAccepted :
      (url : Text) (p : Policy) (out : Output) (made : Output × Policy) (outer : Text)
      → a.validate_image_access outer ≡ none
      → a.set_image_url url ≡ true
      → out.image_url ≡ url
      → check_signatures c g a evaluators url p out ≡ some made
      → IsClean made.0
      → IsAccepted c a outer p made
  unfolding check_signatures set_image_signature_check_from_error
      set_attestation_signature_check_from_error status message_of
  check_signatures-IsAccepted url p out made outer ok set at h clean =
      elim (Option-cases (a.validate_attestation_signature url)) [
        | inr (e, f) ↦
            let same = some_same (rw f at h) in
            absurd (true_or_false ((subst (λ m. IsClean m.0) (sym same) clean).attested refl))
        | inl f ↦
            let k = check_attestations-IsConcluded url p _ made (rw f at h) in
            record {
              resolved = url;
              located = k.located ∙ at;
              set = set;
              accessible = ok;
              signed = no_error (a.validate_image_signature url) (
                  sym (passed_of_error _ (a.validate_image_signature url))
                  ∙ (sym (ap (λ v. v.passed) k.signed)
                      ∙ clean.signed (ap (λ v. is_set v.result) k.signed)));
              attested = f;
              syntax =
                  no_error (a.validate_attestation_syntax url)
                    (sym k.checked ∙ clean.syntax k.syntax);
              listed = k.listed;
              found = k.found clean.no_failures;
              no_failures = clean.no_failures;
              timed = k.timed ∙ attested_policy_lem made.0.attestations p;
            }
      ]

  check_access-IsAccepted :
      (url : Text) (p : Policy) (detailed : Bool) (made : Output × Policy)
      → check_access c g a evaluators url p detailed ≡ some made
      → IsClean made.0
      → IsAccepted c a url p made
  unfolding check_access set_image_accessible_check_from_error status message_of
  check_access-IsAccepted url p detailed made h clean =
      elim (Option-cases (a.validate_image_access url)) [
        | inr (x, f) ↦
            let same = some_same (rw f at h) in
            absurd (true_or_false ((subst (λ m. IsClean m.0) (sym same) clean).accessible refl))
        | inl f ↦ elim (Option-cases (resolve_and_set_image_url g a url)) [
          | inl r ↦ cc (rw (f, r) at h)
          | inr (resolved, r) ↦
              check_signatures-IsAccepted resolved p
                (record (set_image_accessible_check_from_error (a.validate_image_access url)
                  (new_output url detailed (some p))) { image_url = resolved })
                made url f (set_of_resolved url resolved r) refl (rw (f, r) at h) clean
        ]
      ]

-- Where an output of the validation has no violation, the image was created, the check of its
-- access gave no error, and at its resolved URL, which was set and is that of the output, neither
-- did the checks of its signatures, of its attestation signatures and of their syntax; the output
-- lists the attestations that were found, at least one; no outcome of an evaluator has a failure;
-- and the policy was told the time of the attestations, if they have one. The sort keeps the
-- elements of a slice.
pub validate_image-IsAccepted :
    (c : Clockwork) (g : Registry) (new_image : Text → Policy → Option SnapshotImage)
    (evaluators : List Evaluator) (sort : Sorter)
    → KeepsElements sort
    → (url : Text) (p : Policy) (detailed : Bool) (made : Output × Policy)
    → validate_image c g new_image evaluators url p detailed ≡ some made
    → violations sort made.0 ≡ []
    → (a : SnapshotImage) × (new_image url p ≡ some a) × IsAccepted c a url p made
unfolding validate_image
validate_image-IsAccepted c g new_image evaluators sort keeps url p detailed made h clear =
    elim (Option-cases (new_image url p)) [
      | inl e ↦ cc (rw (e, validate_image) at h)
      | inr (a, e) ↦ (
        a,
        e,
        check_access-IsAccepted c g a evaluators url p detailed made (rw (e, validate_image) at h)
            (violations-IsClean sort keeps made.0 clear),
      )
    ]
