-- ===== src/Validation/Target/Layers.antt =====
-- Where the attestations of an accepted image come from.
use ec_cli.Base.{
  ℕ, ◌≡◌, ◌⊎◌, refl, sym, ◌∙◌, ap, ap₂, subst, Text, lit, List, [], ◌∷◌, ◌++◌, none, some, Bool,
  true, false, ◌==◌, ◌&&◌, text_eq, nat_eq, if◌then◌else◌, arith, Option-cases, Bool-cases, inl,
  inr,
}
use ec_cli.Base.Json.{Json}
use ec_cli.Output.{Output, Sorter, violations, CheckError}
use ec_cli.Output.Counting.{KeepsElements}
use ec_cli.Policy.{Policy, CheckOpts}
use ec_cli.Image.{Registry}
use ec_cli.Validation.{Evaluator, Clockwork, validate_image}
use ec_cli.Validation.Verdict.{validate_image-IsAccepted, IsAccepted, some_same}
use ec_cli.Validation.Target.{
  Attestation, ApplicationSnapshotImage, TargetServices, Reply, got, refused, SchemaReply, conforms,
  violates, not_validated, slsa_provenance, failure, statements, attested_at, signed_at, at_url,
  snapshot_image, set_image_url, attestation_of, add_attestations, validate_image_signature,
  validate_attestation_signature, new_snapshot_image, new_application_snapshot_image,
}
use ec_cli.Validation.Target.Syntax.{is_sound, all_sound, all_sound_of_none}

Reply-cases {ℓ} :
    {A : Type ℓ} (r : Reply A) → ((e : CheckError) × (r ≡ refused e)) ⊎ ((a : A) × (r ≡ got a))
Reply-cases (refused e) = inl (e, refl)
Reply-cases (got a) = inr (a, refl)

and_left : (a b : Bool) → (a && b) ≡ true → a ≡ true
and_left a b h = ground (arith, h)

and_right : (a b : Bool) → (a && b) ≡ true → b ≡ true
and_right a b h = ground (arith, h)

module _ (s : TargetServices) where
  -- What a layer is read as: the statement of its SLSA provenance, which decodes and conforms to the
  -- schema, or the statement of any other attestation.
  pub data IsRead (layer : ℕ) (statement : Text) : Type 0 where
    provenance :
        (att : Attestation) (decoded : Json)
        → s.provenance_from_signature layer ≡ some att
        → (att.predicate_type == lit "https://slsa.dev/provenance/v0.2") ≡ true
        → s.slsa_provenance_from_signature layer ≡ some statement
        → s.unmarshal statement ≡ some decoded
        → s.validate_slsa decoded ≡ conforms
        → IsRead layer statement
    other :
        (att : Attestation)
        → s.provenance_from_signature layer ≡ some att
        → (att.predicate_type == lit "https://slsa.dev/provenance/v0.2") ≡ false
        → att.statement ≡ statement
        → IsRead layer statement

  -- The layers are read one by one.
  unfoldable pub AreRead : List ℕ → List Text → Type 0
  AreRead [] [] = Unit
  AreRead (layer ∷ layers) (t ∷ texts) = IsRead layer t × AreRead layers texts
  AreRead _ _ = ⊥

  -- The attestations of an output are those that cosign gives for its image and the policy.
  pub record IsAttested (p : Policy) (o : Output) : Type 0 where
    pub opts : CheckOpts
    pub checked : p.check_opts ≡ some opts
    pub image : ℕ
    pub parsed : s.parse_reference o.image_url ≡ some image
    pub layers : List ℕ
    pub verified : s.verify_image_attestations image opts ≡ got layers
    pub read : AreRead layers o.attestations

  conforming :
      (statement : Text)
      → is_sound s (record { predicate_type = slsa_provenance; statement = statement }) ≡ true
      → (decoded : Json) × (s.unmarshal statement ≡ some decoded)
        × (s.validate_slsa decoded ≡ conforms)
  unfolding is_sound text_eq nat_eq
  conforming statement h = elim (Option-cases (s.unmarshal statement)) [
    | inl e ↦ cc (rw e at h)
    | inr (decoded, e) ↦ (decoded, e, conforms_of _ (rw e at h))
  ]
    where
      conforms_of :
          (r : SchemaReply)
          → elim r as (λ x. Bool) [ conforms ↦ true | _ ↦ false ] ≡ true
          → r ≡ conforms
      conforms_of conforms h = refl
      conforms_of violates h = cc
      conforms_of not_validated h = cc

  attestation_of-IsRead :
      (layer : ℕ) (read : Attestation)
      → attestation_of s layer ≡ some read
      → is_sound s read ≡ true
      → IsRead layer read.statement
  unfolding attestation_of
  attestation_of-IsRead layer read h sound =
      elim (Option-cases (s.provenance_from_signature layer)) [
        | inl e ↦ cc (rw (e, attestation_of) at h)
        | inr (att, e) ↦
            let k = rw (e, attestation_of) at h in
            elim (Bool-cases (att.predicate_type == slsa_provenance)) [
              | inr f ↦
                  subst (λ a. IsRead layer a.statement) (some_same (rw f at k)) (other att e f refl)
              | inl f ↦ elim (Option-cases (s.slsa_provenance_from_signature layer)) [
                | inl g ↦ cc (rw (f, g) at k)
                | inr (t, g) ↦
                    let same = some_same (rw (f, g) at k) in
                    let (decoded, u, v) =
                      conforming t (subst (λ a. is_sound s a ≡ true) (sym same) sound) in
                    subst (λ a. IsRead layer a.statement) same (provenance att decoded e f g u v)
              ]
            ]
      ]

  add_attestations-AreRead :
      (layers : List ℕ)
      → (add_attestations s layers).1 ≡ false
      → all_sound s (add_attestations s layers).0 ≡ true
      → AreRead layers (statements (add_attestations s layers).0)
  unfolding add_attestations all_sound statements AreRead
  add_attestations-AreRead [] h sound = tt
  add_attestations-AreRead (layer ∷ layers) h sound = elim (Option-cases (attestation_of s layer)) [
    | inl e ↦ cc (rw (e, add_attestations) at h)
    | inr (att, e) ↦
        let both = rw (e, add_attestations, all_sound) at sound in
        let k = rw (e, add_attestations) at h in
        rw (e, add_attestations, statements)
          (
            attestation_of-IsRead layer att e (and_left _ _ both),
            add_attestations-AreRead layers k (and_right _ _ both),
          )
  ]

  none_failed : (b : Bool) → (if b then some failure else none) ≡ none → b ≡ false
  none_failed false h = refl
  none_failed true h = cc

  -- What the check of the signatures leaves of an image.
  validate_image_signature_lem :
      (a : ApplicationSnapshotImage)
      → let checked = (validate_image_signature s a).0 in
        (checked.reference ≡ a.reference)
        × (checked.check_opts ≡ a.check_opts)
        × (checked.attestations ≡ a.attestations)
  unfolding validate_image_signature
  validate_image_signature_lem a =
      elim (Reply-cases (s.verify_image_signatures a.reference a.check_opts)) [
        | inl (x, e) ↦ rw (e, validate_image_signature) (refl, refl, refl)
        | inr (raws, e) ↦ rw (e, validate_image_signature) (refl, refl, refl)
      ]

  -- What the check of the attestations adds.
  validate_attestation_signature_lem :
      (a : ApplicationSnapshotImage)
      → (validate_attestation_signature s a).1 ≡ none
      → (layers : List ℕ) × (s.verify_image_attestations a.reference a.check_opts ≡ got layers)
        × ((add_attestations s layers).1 ≡ false)
        × ((validate_attestation_signature s a).0.attestations
            ≡ a.attestations ++ (add_attestations s layers).0)
  unfolding validate_attestation_signature
  validate_attestation_signature_lem a h =
      elim (Reply-cases (s.verify_image_attestations a.reference a.check_opts)) [
        | inl (x, e) ↦ cc (rw (e, validate_attestation_signature) at h)
        | inr (layers, e) ↦ (
          layers,
          e,
          none_failed (add_attestations s layers).1 (rw (e, validate_attestation_signature) at h),
          rw (e, validate_attestation_signature) refl,
        )
      ]

  check_opts_of_new :
      (url : Text) (p : Policy) (a : ApplicationSnapshotImage)
      → new_application_snapshot_image s url p ≡ some a
      → p.check_opts ≡ some a.check_opts
  unfolding new_application_snapshot_image set_image_url
  check_opts_of_new url p a h = elim (Option-cases p.check_opts) [
    | inl e ↦ cc (rw (e, new_application_snapshot_image) at h)
    | inr (opts, e) ↦ elim (Option-cases (s.parse_reference url)) [
      | inl f ↦ cc (rw (e, new_application_snapshot_image, f, set_image_url) at h)
      | inr (ref, f) ↦
          e
          ∙ ap (λ x. some x.check_opts)
              (some_same (rw (e, new_application_snapshot_image, f, set_image_url) at h))
    ]
  ]

  at_url_lem :
      (a : ApplicationSnapshotImage) (url : Text) (ref : ℕ)
      → s.parse_reference url ≡ some ref
      → at_url s a url ≡ record a { reference = ref; attestations = []; signatures = [] }
  unfolding at_url set_image_url
  at_url_lem a url ref e = rw (at_url, set_image_url, e) refl

  accepted-IsAttested :
      (c : Clockwork) (a : ApplicationSnapshotImage) (url : Text) (p q : Policy)
      (made : Output × Policy)
      → q.check_opts ≡ some a.check_opts
      → IsAccepted c (snapshot_image s a) url p made
      → IsAttested q made.0
  unfolding snapshot_image attested_at signed_at set_image_url
  accepted-IsAttested c a url p q made opts acc =
      elim (Option-cases (s.parse_reference acc.resolved)) [
        | inl e ↦ cc (rw (snapshot_image, set_image_url, e) at acc.set)
        | inr (ref, e) ↦
            let (r, o, n) = validate_image_signature_lem (at_url s a acc.resolved) in
            let (layers, v, f, added) =
              validate_attestation_signature_lem (signed_at s a acc.resolved) acc.attested in
            let at = at_url_lem a acc.resolved ref e in
            let all : (attested_at s a acc.resolved).attestations ≡ (add_attestations s layers).0 =
              added
              ∙ ap (λ l. l ++ (add_attestations s layers).0) (n ∙ ap (λ x. x.attestations) at) in
            record {
              opts = a.check_opts;
              checked = opts;
              image = ref;
              parsed = ap s.parse_reference acc.located ∙ e;
              layers = layers;
              verified =
                  sym (
                    ap₂ s.verify_image_attestations (r ∙ ap (λ x. x.reference) at)
                      (o ∙ ap (λ x. x.check_opts) at))
                  ∙ v;
              read = subst (AreRead layers) (sym (acc.listed ∙ ap statements all)) (
                  add_attestations-AreRead layers f (
                    subst (λ l. all_sound s l ≡ true) all
                      (all_sound_of_none s (attested_at s a acc.resolved) acc.syntax)));
            }
      ]

  -- Where an output of the validation of an image, made of what cosign and the registry give, has
  -- no violation, its attestations stand one by one, in order, for the layers that cosign verifies
  -- for the image of the output with the check options of the policy: for a layer with an SLSA
  -- provenance its statement, which decodes and conforms to the schema, and for any other layer the
  -- statement of its attestation. The sort keeps the elements of a slice.
  pub validate_image-IsAttested :
      (c : Clockwork) (g : Registry) (evaluators : List Evaluator) (sort : Sorter)
      → KeepsElements sort
      → (url : Text) (p : Policy) (detailed : Bool) (made : Output × Policy)
      → validate_image c g (new_snapshot_image s) evaluators url p detailed ≡ some made
      → violations sort made.0 ≡ []
      → IsAttested p made.0
  unfolding new_snapshot_image
  validate_image-IsAttested c g evaluators sort keeps url p detailed made h clear =
      let (a, e, acc) =
        validate_image-IsAccepted c g (new_snapshot_image s) evaluators sort keeps url p detailed
          made h clear in
      elim (Option-cases (new_application_snapshot_image s url p)) [
        | inl n ↦ cc (rw (n, new_snapshot_image) at e)
        | inr (b, n) ↦
            let same : snapshot_image s b ≡ a = cc (rw (n, new_snapshot_image) at e) in
            accepted-IsAttested c b url p p made (check_opts_of_new url p b n)
              (subst (λ x. IsAccepted c x url p made) (sym same) acc)
      ]
