-- ===== src/Vsa/Rekor.antt =====
-- `RekorVSARetriever` of internal/validate/vsa/rekor_retriever.go. The search of the log and the
-- decoders of base64 and JSON are parameters. An integrated time is a natural number; the time
-- limit of the search is left out.
pub mod Latest
pub mod Envelopes
use ec_cli.Base.{
  ℕ, Text, lit, List, [], ◌∷◌, is_empty, Option, none, some, Bool, true, false, ◌==◌, ◌&&◌, ◌||◌,
  not, text_eq, ltb, leb, if◌then◌else◌, keep, split, to_lower, contains_text,
}
use ec_cli.Base.Json.{Json, JsonFields, text, get_field, as_text, as_items, as_fields}

-- `models.LogEntryAnon`: the body, if it is a string, and the data of the attestation, if any.
pub record LogEntry : Type 0 where
  pub body : Option Text
  pub integrated_time : Option ℕ
  pub attestation_data : Option Text

-- Whether an entry takes the place of the latest one so far.
unfoldable pub is_later : LogEntry → LogEntry → Bool
is_later entry latest = elim entry.integrated_time [
  | none ↦ false
  | some t ↦ elim latest.integrated_time [ none ↦ true | some l ↦ ltb l t ]
]

unfoldable pub latest_of : LogEntry → List LogEntry → LogEntry
latest_of latest [] = latest
latest_of latest (e ∷ entries) =
    let replaced = latest_of e entries in
    let kept = latest_of latest entries in if is_later e latest then replaced else kept

unfoldable pub find_latest_entry_by_integrated_time : List LogEntry → Option LogEntry
find_latest_entry_by_integrated_time [] = none
find_latest_entry_by_integrated_time (e ∷ entries) = some (latest_of e entries)

unfoldable pub is_hex_digit : ℕ → Bool
is_hex_digit c =
    (leb b'0' c && leb c b'9') || ((leb b'a' c && leb c b'f') || (leb b'A' c && leb c b'F'))

-- `hex.DecodeString` succeeds: pairs of digits.
unfoldable pub is_hex : Text → Bool
is_hex [] = true
is_hex (c ∷ []) = false
is_hex (c ∷ d ∷ s) = is_hex_digit c && (is_hex_digit d && is_hex s)

unfoldable pub is_valid_hash : Text → Text → Bool
is_valid_hash algorithm hash =
    if not (algorithm == lit "sha256") && not (algorithm == lit "sha512")
    then false
    else not (is_empty hash) && is_hex hash

unfoldable pub is_valid_parts : List Text → Bool
is_valid_parts (algorithm ∷ hash ∷ []) = is_valid_hash algorithm hash
is_valid_parts _ = false

unfoldable pub is_valid_image_digest : Text → Bool
is_valid_image_digest digest = is_valid_parts (split b':' digest)

pub data EntryKind : Type 0 where
  intoto_v002 intoto dsse unknown : EntryKind

unfoldable pub has_field : Text → JsonFields → Bool
has_field key fields = elim (get_field key fields) [ none ↦ false | some v ↦ true ]

-- `body["spec"]["content"]["envelope"]`, where all of them are objects
unfoldable pub envelope_of : JsonFields → Option JsonFields
envelope_of body = elim (as_fields (get_field (lit "spec") body)) [
  | none ↦ none
  | some spec ↦ elim (as_fields (get_field (lit "content") spec)) [
    | none ↦ none
    | some content ↦ as_fields (get_field (lit "envelope") content)
  ]
]

-- The branch for the kind "intoto".
unfoldable pub intoto_kind : JsonFields → EntryKind
intoto_kind body = elim (as_text (get_field (lit "apiVersion") body)) [
  | some api_version ↦ if api_version == lit "0.0.2" then intoto_v002 else intoto
  | none ↦ elim (envelope_of body) [
    | none ↦ intoto
    | some envelope ↦
        if has_field (lit "payload") envelope && has_field (lit "signatures") envelope
        then intoto_v002
        else intoto
  ]
]

-- The branches for a body without a kind that is known, if one applies.
unfoldable pub kind_by_structure : JsonFields → Option EntryKind
kind_by_structure body =
    let signed : Bool = elim (envelope_of body) [
      | none ↦ false
      | some envelope ↦
          has_field (lit "payloadType") envelope && has_field (lit "signatures") envelope
    ] in
    if signed
    then some intoto_v002
    else if has_field (lit "intoto") body
    then some intoto
    else if has_field (lit "dsse") body
    then some dsse
    else none

unfoldable pub kind_of_body : JsonFields → Option EntryKind
kind_of_body body = elim (as_text (get_field (lit "kind") body)) [
  | none ↦ kind_by_structure body
  | some kind ↦
      if to_lower kind == lit "intoto"
      then some (intoto_kind body)
      else if to_lower kind == lit "dsse"
      then some dsse
      else kind_by_structure body
]

unfoldable pub is_v002 : EntryKind → Bool
is_v002 intoto_v002 = true
is_v002 _ = false

pub record Signature : Type 0 where
  pub sig : Text
  pub key_id : Text

pub record Envelope : Type 0 where
  pub payload_type : Text
  pub payload : Text
  pub signatures : List Signature

pub data RetrieveError : Type 0 where
  empty_digest invalid_digest search_failed no_entries no_v002_entry : RetrieveError
  bad_body no_spec no_content no_envelope no_payload_type no_payload : RetrieveError
  no_signatures empty_signatures bad_signature no_sig : RetrieveError

pub data Retrieved {ℓ} (A : Type ℓ) : Type ℓ where
  found : A → Retrieved A
  failed : RetrieveError → Retrieved A

infixl 5 ◌>>=◌
abbrev pub ◌>>=◌ {ℓ κ} : {A : Type ℓ} {B : Type κ} → Retrieved A → (A → Retrieved B) → Retrieved B
found a >>= f = f a
failed e >>= f = failed e

-- `v, ok := …; if !ok { return nil, … }`
abbrev pub need {ℓ} : {A : Type ℓ} → RetrieveError → Option A → Retrieved A
need e none = failed e
need e (some a) = found a

unfoldable pub signature_of : Json → Retrieved Signature
signature_of v = do
  fields ← need bad_signature (as_fields (some v))
  sig ← need no_sig (as_text (get_field (lit "sig") fields))
  found (record {
    sig = sig;
    key_id = elim (as_text (get_field (lit "keyid") fields)) [ none ↦ [] | some k ↦ k ];
  })

unfoldable pub signatures_of : List Json → Retrieved (List Signature)
signatures_of [] = found []
signatures_of (v ∷ vs) = do s ← signature_of v; rest ← signatures_of vs; found (s ∷ rest)

-- The payload of the envelope, unless it is empty, or else the data of the attestation.
unfoldable pub payload_of : JsonFields → LogEntry → Option Text
payload_of envelope entry = elim (as_text (get_field (lit "payload") envelope)) [
  | none ↦ entry.attestation_data
  | some payload ↦ if is_empty payload then entry.attestation_data else some payload
]

module _ (decode_base64 : Text → Option Text) (unmarshal : Text → Option JsonFields) where
  unfoldable pub decode_body_json : LogEntry → Option JsonFields
  decode_body_json entry = elim entry.body [
    | none ↦ none
    | some body ↦
        if is_empty body
        then none
        else elim (decode_base64 body) [ none ↦ none | some raw ↦ unmarshal raw ]
  ]

  unfoldable pub mentions_vsa : LogEntry → Bool
  mentions_vsa entry = elim entry.attestation_data [
    | none ↦ false
    | some encoded ↦ elim (decode_base64 encoded) [
      | none ↦ false
      | some bytes ↦ contains_text bytes (lit "https://conforma.dev/verification_summary/v1")
    ]
  ]

  unfoldable pub classify_entry_kind : LogEntry → EntryKind
  classify_entry_kind entry =
      let by_body : Option EntryKind = elim (decode_body_json entry) [
        | none ↦ none
        | some body ↦ kind_of_body body
      ] in
      elim by_body [ some kind ↦ kind | none ↦ if mentions_vsa entry then intoto else unknown ]

  -- `buildDSSEEnvelopeFromIntotoV002`
  unfoldable pub build_dsse_envelope : LogEntry → Retrieved Envelope
  build_dsse_envelope entry = do
    body ← need bad_body (decode_body_json entry)
    spec ← need no_spec (as_fields (get_field (lit "spec") body))
    content ← need no_content (as_fields (get_field (lit "content") spec))
    envelope ← need no_envelope (as_fields (get_field (lit "envelope") content))
    payload_type ← need no_payload_type (as_text (get_field (lit "payloadType") envelope))
    payload ← need no_payload (payload_of envelope entry)
    vs ← need no_signatures (as_items (get_field (lit "signatures") envelope))
    if is_empty vs then failed empty_signatures else (do
      signatures ← signatures_of vs
      found (record { payload_type = payload_type; payload = payload; signatures = signatures }))

  module _ (search_index : Text → Option (List LogEntry)) where
    unfoldable pub v002_entries : List LogEntry → List LogEntry
    v002_entries = keep (λ e. is_v002 (classify_entry_kind e))

    unfoldable pub retrieve_vsa : Text → Retrieved Envelope
    retrieve_vsa image_digest =
        if is_empty image_digest
        then failed empty_digest
        else if not (is_valid_image_digest image_digest)
        then failed invalid_digest
        else (do
          entries ← need search_failed (search_index image_digest)
          if is_empty entries then failed no_entries else (do
            latest ←
                need no_v002_entry (find_latest_entry_by_integrated_time (v002_entries entries))
            build_dsse_envelope latest))
