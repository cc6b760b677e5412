-- ===== src/Validation/Target/Syntax.antt =====
-- What the check of the attestations' syntax accepts.
use ec_cli.Base.{
  ◌≡◌, List, [], ◌∷◌, is_empty, none, some, Bool, true, false, ◌==◌, ◌&&◌, not, text_eq, nat_eq,
  if◌then◌else◌, arith,
}
use ec_cli.Validation.Target.{
  Attestation, ApplicationSnapshotImage, TargetServices, conforms, slsa_provenance, failure,
  check_statements, validate_attestation_syntax,
}

module _ (s : TargetServices) where
  -- The statement of an SLSA provenance decodes and conforms to the schema.
  unfoldable pub is_sound : Attestation → Bool
  is_sound a =
      if a.predicate_type == slsa_provenance
      then elim (s.unmarshal a.statement) [
        | none ↦ false
        | some statement ↦ elim (s.validate_slsa statement) [ conforms ↦ true | _ ↦ false ]
      ]
      else true

  unfoldable pub all_sound : List Attestation → Bool
  all_sound [] = true
  all_sound (a ∷ atts) = is_sound a && all_sound atts

  check_statements_lem :
      (atts : List Attestation) (violated : Bool)
      → check_statements s atts violated
        ≡ (if not violated && all_sound atts then none else some failure)
  unfolding check_statements is_sound all_sound
  check_statements_lem [] violated = ground arith
  check_statements_lem (a ∷ atts) violated =
      ground (arith, check_statements_lem atts violated, check_statements_lem atts true)

  validate_attestation_syntax_lem :
      (a : ApplicationSnapshotImage)
      → validate_attestation_syntax s a
        ≡ (if not (is_empty a.attestations) && all_sound a.attestations then none else some failure)
  unfolding validate_attestation_syntax
  validate_attestation_syntax_lem a = ground (arith, check_statements_lem a.attestations false)

  pub all_sound_of_none :
      (a : ApplicationSnapshotImage)
      → validate_attestation_syntax s a ≡ none
      → all_sound a.attestations ≡ true
  all_sound_of_none a h = ground (arith, validate_attestation_syntax_lem a, h)
