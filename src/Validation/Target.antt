-- ===== src/Validation/Target.antt =====
-- internal/evaluation_target/application_snapshot_image/application_snapshot_image.go: the image
-- that is validated, with its signatures and attestations. The registry, cosign, the parsers of
-- signatures, JSON and the schema are parameters; the configuration and the files of the image,
-- and what else goes into the input, are opaque.
pub mod Syntax
pub mod Layers
use ec_cli.Base.{
  ℕ, Text, lit, List, [], ◌∷◌, ◌++◌, is_empty, Option, none, some, Bool, true, false, ◌==◌, text_eq,
  if◌then◌else◌,
}
use ec_cli.Base.Json.{Json}
use ec_cli.Policy.{CheckOpts, Policy}
use ec_cli.Output.{CheckError, other_error}
use ec_cli.Validation.{SnapshotImage}

pub record Attestation : Type 0 where
  pub predicate_type : Text
  pub statement : Text

pub record ApplicationSnapshotImage : Type 0 where
  pub reference : ℕ
  pub check_opts : CheckOpts
  pub signatures : List ℕ
  pub attestations : List Attestation

-- A result of the registry or of cosign.
pub data Reply {ℓ} (A : Type ℓ) : Type ℓ where
  got : A → Reply A
  refused : CheckError → Reply A

-- What `schema.Validate` returns: nothing, a `ValidationError`, or another error.
pub data SchemaReply : Type 0 where
  conforms violates not_validated : SchemaReply

pub record TargetServices : Type 0 where
  pub parse_reference : Text → Option ℕ
  pub reference_text : ℕ → Text
  -- a response can be missing
  pub head : ℕ → Reply Bool
  pub verify_image_signatures : ℕ → CheckOpts → Reply (List ℕ)
  pub new_entity_signature : ℕ → Option ℕ
  pub verify_image_attestations : ℕ → CheckOpts → Reply (List ℕ)
  pub provenance_from_signature : ℕ → Option Attestation
  -- the statement, since the predicate type is fixed
  pub slsa_provenance_from_signature : ℕ → Option Text
  pub unmarshal : Text → Option Json
  pub validate_slsa : Json → SchemaReply
  pub write_input_file : ApplicationSnapshotImage → Option (Text × Text)

abbrev pub slsa_provenance : Text
slsa_provenance = lit "https://slsa.dev/provenance/v0.2"

-- What the errors of this file say is left out.
abbrev pub failure : CheckError
failure = other_error []

module _ (s : TargetServices) where
  unfoldable pub set_image_url : Text → ApplicationSnapshotImage → Option ApplicationSnapshotImage
  set_image_url url a = elim (s.parse_reference url) [
    | none ↦ none
    | some ref ↦ some (record a { reference = ref; attestations = []; signatures = [] })
  ]

  unfoldable pub new_application_snapshot_image : Text → Policy → Option ApplicationSnapshotImage
  new_application_snapshot_image url p = elim p.check_opts [
    | none ↦ none
    | some opts ↦
        set_image_url url
          (record { reference = 0; check_opts = opts; signatures = []; attestations = [] })
  ]

  unfoldable pub validate_image_access : ApplicationSnapshotImage → Option CheckError
  validate_image_access a = elim (s.head a.reference) [
    | refused e ↦ some e
    | got is_there ↦ if is_there then none else some failure
  ]

  -- The loop over the signatures: those that were added, and whether one failed.
  unfoldable pub add_signatures : List ℕ → List ℕ × Bool
  add_signatures [] = ([], false)
  add_signatures (raw ∷ raws) =
      let (rest, failed) = add_signatures raws in
      elim (s.new_entity_signature raw) [ none ↦ ([], true) | some es ↦ (es ∷ rest, failed) ]

  -- The image as it is left, and the error.
  unfoldable pub validate_image_signature :
      ApplicationSnapshotImage → ApplicationSnapshotImage × Option CheckError
  validate_image_signature a = elim (s.verify_image_signatures a.reference a.check_opts) [
    | refused e ↦ (a, some e)
    | got raws ↦
        let (added, failed) = add_signatures raws in
        (record a { signatures = a.signatures ++ added }, if failed then some failure else none)
  ]

  -- What one layer is parsed as.
  unfoldable pub attestation_of : ℕ → Option Attestation
  attestation_of layer = elim (s.provenance_from_signature layer) [
    | none ↦ none
    | some att ↦
        if att.predicate_type == slsa_provenance
        then elim (s.slsa_provenance_from_signature layer) [
          | none ↦ none
          | some statement ↦
              some (record { predicate_type = slsa_provenance; statement = statement })
        ]
        else some att
  ]

  unfoldable pub add_attestations : List ℕ → List Attestation × Bool
  add_attestations [] = ([], false)
  add_attestations (layer ∷ layers) =
      let (rest, failed) = add_attestations layers in
      elim (attestation_of layer) [ none ↦ ([], true) | some att ↦ (att ∷ rest, failed) ]

  unfoldable pub validate_attestation_signature :
      ApplicationSnapshotImage → ApplicationSnapshotImage × Option CheckError
  validate_attestation_signature a = elim (s.verify_image_attestations a.reference a.check_opts) [
    | refused e ↦ (a, some e)
    | got layers ↦
        let (added, failed) = add_attestations layers in
        (record a { attestations = a.attestations ++ added }, if failed then some failure else none)
  ]

  -- The loop over the attestations, with whether one violates the schema so far.
  unfoldable pub check_statements : List Attestation → Bool → Option CheckError
  check_statements [] violated = if violated then some failure else none
  check_statements (sp ∷ atts) violated =
      let rest = check_statements atts violated in
      let worse = check_statements atts true in
      let checked : Option CheckError = elim (s.unmarshal sp.statement) [
        | none ↦ some failure
        | some statement ↦ elim (s.validate_slsa statement) [
          | conforms ↦ rest
          | violates ↦ worse
          | not_validated ↦ some failure
        ]
      ] in
      if sp.predicate_type == slsa_provenance then checked else rest

  unfoldable pub validate_attestation_syntax : ApplicationSnapshotImage → Option CheckError
  validate_attestation_syntax a =
      if is_empty a.attestations then some failure else check_statements a.attestations false

unfoldable pub statements : List Attestation → List Text
statements [] = []
statements (a ∷ atts) = a.statement ∷ statements atts

module _ (s : TargetServices) (a : ApplicationSnapshotImage) where
  -- The image once a URL is set, and once its signatures and its attestations are checked.
  unfoldable pub at_url : Text → ApplicationSnapshotImage
  at_url url = elim (set_image_url s url a) [ none ↦ a | some set ↦ set ]

  unfoldable pub signed_at : Text → ApplicationSnapshotImage
  signed_at url = (validate_image_signature s (at_url url)).0

  unfoldable pub attested_at : Text → ApplicationSnapshotImage
  attested_at url = (validate_attestation_signature s (signed_at url)).0

  -- The operations of the image in the order in which `ValidateImage` calls them.
  unfoldable pub snapshot_image : SnapshotImage
  snapshot_image = record {
    validate_image_access = λ url. validate_image_access s (at_url url);
    set_image_url = λ url. elim (set_image_url s url a) [ none ↦ false | some set ↦ true ];
    validate_image_signature = λ url. (validate_image_signature s (at_url url)).1;
    validate_attestation_signature = λ url. (validate_attestation_signature s (signed_at url)).1;
    attested = λ url. record {
      signatures = (attested_at url).signatures;
      attestations = statements (attested_at url).attestations;
    };
    validate_attestation_syntax = λ url. validate_attestation_syntax s (attested_at url);
    write_input_file = λ url. s.write_input_file (attested_at url);
    image_reference = λ url. s.reference_text (attested_at url).reference;
  }

unfoldable pub new_snapshot_image : TargetServices → Text → Policy → Option SnapshotImage
new_snapshot_image s url p = elim (new_application_snapshot_image s url p) [
  | none ↦ none
  | some a ↦ some (snapshot_image s a)
]
