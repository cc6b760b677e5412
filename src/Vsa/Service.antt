-- ===== src/Vsa/Service.antt =====
-- internal/validate/vsa/service.go: the attestations of all components and of the snapshot. The
-- generation, the signing and the files are parameters, each giving the path that it writes.
pub mod Envelopes
use ec_cli.Base.{ℕ, Text, List, [], ◌∷◌, Option, none, some, Bool, true, false, Dict, insert}
use ec_cli.Snapshot.Input.{SnapshotComponent}

-- `GenerateAndWriteVSA` for a component and for the snapshot, `GetVSAPredicateDigest`, and
-- `NewAttestor` with `AttestVSA` on a path, a URL and a digest.
pub record VsaTools : Type 0 where
  pub write_component : SnapshotComponent → Option Text
  pub write_snapshot : Option Text
  pub predicate_digest : Text → Option Text
  pub attest : Text → Text → Text → Option Text

unfoldable pub process_component_vsa : VsaTools → SnapshotComponent → Text → Text → Option Text
process_component_vsa t c git_url digest = elim (t.write_component c) [
  | none ↦ none
  | some written ↦ t.attest written git_url digest
]

unfoldable pub process_snapshot_vsa : VsaTools → Option Text
process_snapshot_vsa t = elim t.write_snapshot [
  | none ↦ none
  | some written ↦ elim (t.predicate_digest written) [
    | none ↦ none
    | some digest ↦ t.attest written [] digest
  ]
]

pub record VsaProcessingResult : Type 0 where
  pub component_envelopes : Dict Text
  pub snapshot_envelope : Text

module _ (t : VsaTools) (get_git_url : SnapshotComponent → Text)
    (get_digest : SnapshotComponent → Option Text) where
  -- One round of the loop: the path of the envelope, if there is one.
  unfoldable pub envelope_for : SnapshotComponent → Option Text
  envelope_for c = elim (get_digest c) [
    | none ↦ none
    | some digest ↦ process_component_vsa t c (get_git_url c) digest
  ]

  unfoldable pub process_components : List SnapshotComponent → Dict Text → Dict Text
  process_components [] envelopes = envelopes
  process_components (c ∷ cs) envelopes =
      let skipped = process_components cs envelopes in
      elim (envelope_for c) [
        | none ↦ skipped
        | some path ↦ process_components cs (insert c.container_image path envelopes)
      ]

  -- The result, and whether the snapshot failed.
  unfoldable pub process_all_vsas : List SnapshotComponent → VsaProcessingResult × Bool
  process_all_vsas components =
      let envelopes = process_components components [] in
      elim (process_snapshot_vsa t) [
        | none ↦ (record { component_envelopes = envelopes; snapshot_envelope = [] }, true)
        | some path ↦ (record { component_envelopes = envelopes; snapshot_envelope = path }, false)
      ]
