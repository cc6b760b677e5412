-- ===== src/Vsa/Rekor/Envelopes.antt =====
-- What `buildDSSEEnvelopeFromIntotoV002` reads from an entry.
use ec_cli.Base.{
  ◌≡◌, refl, Text, lit, List, [], ◌∷◌, is_empty, Option, some, false, nat_eq, text_eq, length, suc,
  ap, subst, Bool-cases, inl, inr, sym, ◌∙◌, arith, to_lower, lower_byte,
}
use ec_cli.Base.Json.{
  Json, JsonItems, JsonFields, text, array, object, no_items, item, no_fields, field, items,
  get_field, as_fields, as_text, as_items,
}
use ec_cli.Vsa.Rekor.{
  LogEntry, Signature, Envelope, found, need, intoto_v002, signature_of, signatures_of, payload_of,
  decode_body_json, build_dsse_envelope, classify_entry_kind, kind_of_body, intoto_kind, bad_body,
  no_spec, no_content, no_envelope, no_payload_type, no_payload, no_signatures,
}
use ec_cli.Vsa.Rekor.Latest.{>>=-found}

-- The entry that is uploaded for an envelope: of the kind "intoto" and the version 0.0.2.
unfoldable pub signature_fields : Signature → Json
signature_fields s =
    object (field (lit "sig") (text s.sig) (field (lit "keyid") (text s.key_id) no_fields))

unfoldable pub signature_items : List Signature → JsonItems
signature_items [] = no_items
signature_items (s ∷ ss) = item (signature_fields s) (signature_items ss)

unfoldable pub envelope_fields : Envelope → JsonFields
envelope_fields e = field (lit "payloadType") (text e.payload_type) (
    field (lit "payload") (text e.payload)
      (field (lit "signatures") (array (signature_items e.signatures)) no_fields))

unfoldable pub body_of : Envelope → JsonFields
body_of e = field (lit "apiVersion") (text (lit "0.0.2")) (
    field (lit "kind") (text (lit "intoto")) (
      field (lit "spec")
        (object (
          field (lit "content")
            (object (field (lit "envelope") (object (envelope_fields e)) no_fields)) no_fields))
        no_fields))

signatures_of-items : (ss : List Signature) → signatures_of (items (signature_items ss)) ≡ found ss
unfolding signatures_of signature_items signature_fields signature_of items get_field text_eq nat_eq
signatures_of-items [] = refl
signatures_of-items (s ∷ ss) = rw (signatures_of-items ss) refl

items_not_empty : (ss : List Signature) → is_empty (items (signature_items ss)) ≡ is_empty ss
unfolding items signature_items
items_not_empty [] = refl
items_not_empty (s ∷ ss) = refl

payload_of-fields :
    (e : Envelope) (entry : LogEntry)
    → is_empty e.payload ≡ false
    → payload_of (envelope_fields e) entry ≡ some e.payload
unfolding payload_of envelope_fields get_field text_eq nat_eq
payload_of-fields e entry h = rw h refl

found_same {ℓ} : {A : Type ℓ} {a b : A} → found a ≡ found b → a ≡ b
found_same h = cc

same_emptiness {ℓ κ} :
    {A : Type ℓ} {B : Type κ} (xs : List A) (ys : List B)
    → length xs ≡ length ys
    → is_empty xs ≡ is_empty ys
same_emptiness [] [] h = refl
same_emptiness [] (y ∷ ys) h = absurd (omega (arith, h))
same_emptiness (x ∷ xs) [] h = absurd (omega (arith, h))
same_emptiness (x ∷ xs) (y ∷ ys) h = refl

module _ (decode_base64 : Text → Option Text) (unmarshal : Text → Option JsonFields) where
  -- From an entry whose body is the in-toto 0.0.2 form of an envelope, that envelope is built
  -- again, and the entry is classified as in-toto 0.0.2. The envelope has a payload and at least
  -- one signature.
  pub build_dsse_envelope-body_of :
      (e : Envelope) (entry : LogEntry)
      → decode_body_json decode_base64 unmarshal entry ≡ some (body_of e)
      → is_empty e.payload ≡ false
      → is_empty e.signatures ≡ false
      → (build_dsse_envelope decode_base64 unmarshal entry ≡ found e)
        × (classify_entry_kind decode_base64 unmarshal entry ≡ intoto_v002)
  unfolding build_dsse_envelope envelope_fields classify_entry_kind body_of get_field kind_of_body
      intoto_kind to_lower lower_byte text_eq nat_eq
  build_dsse_envelope-body_of e entry d p s = (
    rw
        (
          d,
          payload_of-fields e entry p,
          items_not_empty e.signatures,
          s,
          signatures_of-items e.signatures,
        )
        refl,
    rw (d, classify_entry_kind) refl,
  )

  length-signatures_of :
      (vs : List Json) (ss : List Signature) → signatures_of vs ≡ found ss → length ss ≡ length vs
  unfolding signatures_of
  length-signatures_of [] ss h = ap length (sym (found_same h))
  length-signatures_of (v ∷ vs) ss h =
      let (s, f, h1) = >>=-found (signature_of v) _ h in
      let (rest, g, h2) = >>=-found (signatures_of vs) _ h1 in
      ap length (sym (found_same h2)) ∙ ap suc (length-signatures_of vs rest g)

  signatures-build_dsse_envelope :
      (e : Envelope) (entry : LogEntry)
      → build_dsse_envelope decode_base64 unmarshal entry ≡ found e
      → is_empty e.signatures ≡ false
  unfolding build_dsse_envelope
  signatures-build_dsse_envelope e entry h =
      let (body, b, h1) =
        >>=-found (need bad_body (decode_body_json decode_base64 unmarshal entry)) _ h in
      let (spec, s, h2) = >>=-found (need no_spec (as_fields (get_field (lit "spec") body))) _ h1 in
      let (content, c, h3) =
        >>=-found (need no_content (as_fields (get_field (lit "content") spec))) _ h2 in
      let (envelope, v, h4) =
        >>=-found (need no_envelope (as_fields (get_field (lit "envelope") content))) _ h3 in
      let (payload_type, t, h5) =
        >>=-found (need no_payload_type (as_text (get_field (lit "payloadType") envelope))) _ h4 in
      let (payload, p, h6) = >>=-found (need no_payload (payload_of envelope entry)) _ h5 in
      let (vs, a, h7) =
        >>=-found (need no_signatures (as_items (get_field (lit "signatures") envelope))) _ h6 in
      elim (Bool-cases (is_empty vs)) [
        | inl n ↦ cc (rw n at h7)
        | inr n ↦
            let (ss, g, h8) = >>=-found (signatures_of vs) _ (rw n at h7) in
            let same = length-signatures_of vs ss g in
            subst (λ x. is_empty x.signatures ≡ false) (found_same h8)
              (same_emptiness ss vs same ∙ n)
      ]
