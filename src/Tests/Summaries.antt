-- ===== src/Tests/Summaries.antt =====
-- Summary attestations, their storage and retrieval, and snapshots with image indexes.
use ec_cli.Base.{
  ◌⊎◌, ◌+◌, ◌*◌, ◌<◌, ◌≤◌, ◌≡◌, refl, Text, lit, List, [], ◌∷◌, Option, none, some, true, false,
  ◌&&◌, not, text_eq, nat_eq, any, length, count_if, split, onto_first, keep, to_lower, lower_byte,
}
use ec_cli.Base.Json.{JsonFields, get_field, items}
use ec_cli.Vsa.Rekor.{
  LogEntry, Envelope, found, build_dsse_envelope, retrieve_vsa, decode_body_json,
  classify_entry_kind, kind_of_body, intoto_kind, intoto_v002, is_valid_image_digest,
  is_valid_parts, is_valid_hash, is_hex, is_hex_digit, v002_entries, is_v002,
  find_latest_entry_by_integrated_time, latest_of, is_later, payload_of, signatures_of,
  signature_of,
}
use ec_cli.Vsa.Rekor.Latest.{retrieve_vsa-IsFrom, IsFrom}
use ec_cli.Vsa.Rekor.Envelopes.{
  body_of, envelope_fields, signature_items, signature_fields, build_dsse_envelope-body_of,
}
use ec_cli.Vsa.Pool.{
  Pool, start, fetch, Step, send, close, take, begin, deliver, quit, close_results, collect, Reach,
  here, next, IsDone, entries_of, get_worker_count, worker_count_for, returned,
}
use ec_cli.Vsa.Pool.Delivery.{returned_lem, has_entry}
use ec_cli.Vsa.Pool.Progress.{worker_count_for_lem, count_steps, count_steps_bound, pool_moves}
use ec_cli.Vsa.Storage.{StorageConfig, Backend, attempt}
use ec_cli.Vsa.Storage.Uploads.{is_warned-attempt}
use ec_cli.Snapshot.Input.{SnapshotComponent, SnapshotSpec, empty_snapshot, merge}
use ec_cli.Snapshot.Input.Merging.{is_of, components-merge}
use ec_cli.Snapshot.Input.Expansion.{
  Reference, Manifest, Registry, new_expansion_info, manifests_of, image_index_worker,
  filter_components, ExpansionInfo,
}
use ec_cli.Snapshot.Input.Families.{filter_components-image_index_worker}

abbrev envelope : Envelope
envelope = record {
  payload_type = lit "application/vnd.in-toto+json";
  payload = lit "e30=";
  signatures = record { sig = lit "c2ln"; key_id = lit "key" } ∷ [];
}

abbrev entry : LogEntry
entry = record { body = some (lit "Ym9keQ=="); integrated_time = some 5; attestation_data = none }

abbrev older : LogEntry
older = record entry { integrated_time = some 4 }

abbrev decode : Text → Option Text
decode t = some t

abbrev unmarshal : Text → Option JsonFields
unmarshal t = some (body_of envelope)

build_dsse_envelope-body_of_example :
    (build_dsse_envelope decode unmarshal entry ≡ found envelope)
    × (classify_entry_kind decode unmarshal entry ≡ intoto_v002)
unfolding decode_body_json
build_dsse_envelope-body_of_example =
    build_dsse_envelope-body_of decode unmarshal envelope entry refl refl refl

abbrev digest : Text
digest = lit "sha256:ab"

abbrev search : Text → Option (List LogEntry)
search t = some (older ∷ entry ∷ [])

retrieve_vsa-IsFrom_example : IsFrom decode unmarshal search digest envelope
unfolding retrieve_vsa is_valid_image_digest is_valid_parts is_valid_hash is_hex is_hex_digit split
    onto_first v002_entries is_v002 keep classify_entry_kind decode_body_json kind_of_body
    intoto_kind body_of get_field to_lower lower_byte find_latest_entry_by_integrated_time latest_of
    is_later build_dsse_envelope envelope_fields payload_of signatures_of signature_of
    signature_items signature_fields items text_eq nat_eq
retrieve_vsa-IsFrom_example = retrieve_vsa-IsFrom decode unmarshal search digest envelope refl

abbrev get : Text → Option LogEntry
get uuid = some entry

abbrev uuids : List Text
uuids = lit "1" ∷ []

abbrev last_state : Pool
last_state = record (start 1 uuids) {
  unsent = [];
  is_sent = true;
  idle = 0;
  is_closed = true;
  collected = fetch get (lit "1") ∷ [];
}

-- The UUID is sent, taken, fetched and collected, and the channels are closed.
run : Reach get (start (worker_count_for none uuids) uuids) last_state
unfolding start fetch worker_count_for get_worker_count
run = next (send (lit "1") [] refl refl refl) (
    next (close refl refl refl) (
      next (take 0 (lit "1") [] refl refl refl) (
        next (begin [] (lit "1") [] refl refl refl) (
          next (deliver [] (lit "1") [] refl refl) (
            next (collect _ [] refl refl) (
              next (quit 0 refl refl refl refl)
                (next (close_results refl refl refl refl refl) here)))))))

returned_lem_example :
    count_if (λ e. true) (entry ∷ []) ≡ count_if (λ u. has_entry (λ e. true) (get u)) uuids
unfolding start fetch returned entries_of
returned_lem_example =
    returned_lem get none uuids last_state (entry ∷ []) (λ e. true) run
      (record { closed = refl; results = refl }) refl

count_steps_bound_example : count_steps get run ≤ 5 * length uuids + worker_count_for none uuids + 3
count_steps_bound_example = count_steps_bound get (worker_count_for none uuids) uuids run

pool_moves_example :
    IsDone (start 2 uuids)
    ⊎ ((q : Pool) × Step get (start 2 uuids) q × (q.cancelled ≡ (start 2 uuids).cancelled))
pool_moves_example = pool_moves get (start 2 uuids)

worker_count_for_lem_example :
    let workers = worker_count_for (some 100) uuids in
    (0 < workers) × (workers ≤ 64) × (workers ≤ 1)
worker_count_for_lem_example = worker_count_for_lem (some 100) (lit "1") []

-- A storage that needs the signer, and fails.
abbrev failing : StorageConfig → Option Backend
failing config =
    some
      (record { is_signer_aware = true; upload = λ t. false; upload_with_signer = λ t key. false })

is_warned-attempt_example :
    let a = attempt failing failing (λ t. none) (lit "{}") (some 1) (lit "rekor") in
    a.is_warned ≡ (not a.is_uploaded && not a.with_signer)
is_warned-attempt_example =
    is_warned-attempt failing failing (λ t. none) (lit "{}") (some 1) (lit "rekor")

abbrev app : SnapshotComponent
app = record { name = lit "app"; container_image = lit "quay.io/app:1"; source = 0 }

abbrev one_app : SnapshotSpec
one_app = record empty_snapshot { components = app ∷ [] }

components-merge_example :
    count_if (is_of (lit "quay.io/app:1")) (merge one_app one_app).components ≡ 1
unfolding any count_if text_eq nat_eq
components-merge_example = components-merge (lit "quay.io/app:1") one_app one_app

abbrev index : Reference
index = record { name = lit "quay.io/app:1"; repository = lit "quay.io/app" }

abbrev manifests : List Manifest
manifests =
    record { digest = lit "sha256:cd"; architecture = some (lit "arm64") }
    ∷ record { digest = lit "sha256:ef"; architecture = none }
    ∷ []

abbrev registry : Registry
registry = record {
  parse_reference = λ t. some index;
  head = λ r. some (lit "sha256:ab", true);
  index = λ r. some 1;
  index_manifest = λ n. some manifests;
}

abbrev expanded : List SnapshotComponent × ExpansionInfo
expanded = image_index_worker registry app new_expansion_info

abbrev rest_of : List SnapshotComponent → List SnapshotComponent
rest_of [] = []
rest_of (c ∷ cs) = cs

filter_components-image_index_worker_example :
    filter_components index.name (some expanded.1) (rest_of expanded.0) ≡ rest_of expanded.0
unfolding image_index_worker manifests_of
filter_components-image_index_worker_example =
    filter_components-image_index_worker registry app new_expansion_info index (lit "sha256:ab")
      manifests (rest_of expanded.0) expanded.1 refl refl
