-- ===== src/Vsa/Backends/Preparing.antt =====
-- What the preparation of an envelope does to its signatures.
use ec_cli.Base.{
  ◌≡◌, refl, Text, List, [], ◌∷◌, is_empty, false, Bool-cases, Option-cases, inl, inr, ap₂,
}
use ec_cli.Vsa.Backends.{DsseSig, with_key, with_keys}

-- A second key changes nothing: every signature has one.
with_key-with_key :
    (k j : Text) (s : DsseSig) → is_empty k ≡ false → with_key j (with_key k s) ≡ with_key k s
unfolding with_key
with_key-with_key k j s h = elim (Option-cases s.public_key) [
  | inl e ↦ rw (e, h) refl
  | inr (key, e) ↦ elim (Bool-cases (is_empty key)) [
    | inl f ↦ rw (e, f, h) refl
    | inr f ↦ rw (e, f, f) refl
  ]
]

with_keys-with_keys :
    (k j : Text) (ss : List DsseSig)
    → is_empty k ≡ false
    → with_keys j (with_keys k ss) ≡ with_keys k ss
unfolding with_keys
with_keys-with_keys k j [] h = refl
with_keys-with_keys k j (s ∷ ss) h =
    ap₂ (λ x xs. x ∷ xs) (with_key-with_key k j s h) (with_keys-with_keys k j ss h)
