-- ===== src/Vsa/Service/Envelopes.antt =====
-- Which components have an envelope after `ProcessAllVSAs`.
use ec_cli.Base.{
  ◌≡◌, refl, ◌∙◌, ap, Text, List, [], ◌∷◌, Option, none, some, ◌==◌, text_eq, if◌then◌else◌, Dict,
  insert, lookup, lookup-insert, Option-cases, inl, inr,
}
use ec_cli.Snapshot.Input.{SnapshotComponent}
use ec_cli.Vsa.Service.{
  VsaTools, envelope_for, process_components, process_all_vsas, process_snapshot_vsa,
}

module _ (t : VsaTools) (git_url : SnapshotComponent → Text)
    (digest : SnapshotComponent → Option Text) where
  -- The envelope of the last component of an image that has one, or else the one so far.
  unfoldable pub last_envelope : Text → List SnapshotComponent → Option Text → Option Text
  last_envelope image [] path = path
  last_envelope image (c ∷ cs) path =
      let rest = last_envelope image cs path in
      elim (envelope_for t git_url digest c) [
        | none ↦ rest
        | some found ↦
            last_envelope image cs (if c.container_image == image then some found else path)
      ]

  lookup-process_components :
      (image : Text) (cs : List SnapshotComponent) (envelopes : Dict Text)
      → lookup image (process_components t git_url digest cs envelopes)
        ≡ last_envelope image cs (lookup image envelopes)
  unfolding process_components last_envelope
  lookup-process_components image [] envelopes = refl
  lookup-process_components image (c ∷ cs) envelopes =
      elim (Option-cases (envelope_for t git_url digest c)) [
        | inl e ↦
            rw (e, process_components, last_envelope) (lookup-process_components image cs envelopes)
        | inr (path, e) ↦
            rw (e, process_components, last_envelope)
              (lookup-process_components image cs (insert c.container_image path envelopes)
                ∙ ap (last_envelope image cs)
                    (lookup-insert image c.container_image path envelopes))
      ]

  component_envelopes-process_all_vsas :
      (image : Text) (cs : List SnapshotComponent)
      → lookup image (process_all_vsas t git_url digest cs).0.component_envelopes
        ≡ last_envelope image cs none
  unfolding process_all_vsas lookup
  component_envelopes-process_all_vsas image cs = elim (Option-cases (process_snapshot_vsa t)) [
    | inl e ↦ rw (e, process_all_vsas) (lookup-process_components image cs [])
    | inr (p, e) ↦ rw (e, process_all_vsas) (lookup-process_components image cs [])
  ]
