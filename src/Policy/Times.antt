-- ===== src/Policy/Times.antt =====
-- The effective time of a policy of internal/policy/policy.go, from its making to its use.
use ec_cli.Base.{
  ℕ, ◌≡◌, refl, sym, subst, Text, Option, none, some, ◌==◌, text_eq, Bool-cases, inl, inr,
  if◌then◌else◌, arith, equal_fold,
}
use ec_cli.Policy.{Policy, ok, Services, parse_effective_time, now_word, at_attestation}
use ec_cli.Policy.Making.{Options, new_policy, set_attestation_time, effective_time_at}
use ec_cli.Policy.Laws.{new_policy-IsMade, unchecked}

-- A date or a time of the option, if it is one.
unfoldable pub fixed_time : Services → Text → Option ℕ
fixed_time s word = elim (s.parse_rfc3339 word) [ some at ↦ some at | none ↦ s.parse_date word ]

-- The time of a policy that is not to be that of the attestation, for a check at `now`.
unfoldable pub unattested_time : Services → Text → ℕ → Option ℕ
unattested_time s word now =
    if equal_fold word now_word
    then some s.now
    else if equal_fold word at_attestation
    then some now
    else fixed_time s word

-- The time at which rules take effect, for an image attested at `at` and a check at `now`.
unfoldable pub promised_time : Services → Text → ℕ → ℕ → Option ℕ
promised_time s word at now = if word == at_attestation then some at else unattested_time s word now

unattested_time-parsed :
    (s : Services) (word : Text) (time : Option ℕ) (now : ℕ)
    → parse_effective_time s word ≡ ok time
    → some (elim time [ none ↦ now | some t ↦ t ]) ≡ unattested_time s word now
unfolding unattested_time fixed_time parse_effective_time
unattested_time-parsed s word time now t = elim (Bool-cases (equal_fold word now_word)) [
  | inl e ↦ ground (arith, t, e)
  | inr e ↦ elim (Bool-cases (equal_fold word at_attestation)) [
    | inl f ↦ ground (arith, t, e, f)
    | inr f ↦ ground (arith, t, e, f)
  ]
]

-- Once a new policy has been told the time of an attestation, its effective time is that time where
-- the option is exactly "attestation", the time of its making where the option is "now" in any
-- case, the time of the check where it is "attestation" in another case, and otherwise the time or
-- date that the option names.
pub effective_time_at-new_policy :
    (s : Services) (o : Options) (p : Policy) (at now : ℕ)
    → new_policy s o ≡ ok p
    → some (effective_time_at now (set_attestation_time at p))
      ≡ promised_time s o.effective_time at now
unfolding unchecked effective_time_at set_attestation_time promised_time
effective_time_at-new_policy s o p at now h =
    let m = new_policy-IsMade s o p h in
    subst
      (λ q.
        some (effective_time_at now (set_attestation_time at q))
        ≡ promised_time s o.effective_time at now)
      (sym m.made)
      (elim (Bool-cases (o.effective_time == at_attestation)) [
        | inl e ↦ rw e refl
        | inr e ↦ rw e (unattested_time-parsed s o.effective_time m.time now m.is_time)
      ])
