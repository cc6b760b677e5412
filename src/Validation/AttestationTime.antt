-- ===== src/Validation/AttestationTime.antt =====
-- The time that `determineAttestationTime` takes from the attestations.
use ec_cli.Base.{
  ℕ, ◌≡◌, refl, sym, ◌∙◌, ap, subst, Text, List, [], ◌∷◌, Option, none, some, Bool, true, false,
  ◌==◌, nat_eq, ltb, any, arith,
}
use ec_cli.Validation.{Clockwork, finish_times, is_after, determine_attestation_time}

-- `sort.Slice` keeps the elements, and none of them comes before the first.
pub record SortsTimes (sort : (ℕ → ℕ → Bool) → List ℕ → List ℕ) : Type 0 where
  pub keeps : (p : ℕ → Bool) (ts : List ℕ) → any p (sort is_after ts) ≡ any p ts
  pub first :
      (ts : List ℕ) (t : ℕ) (rest : List ℕ)
      → sort is_after ts ≡ t ∷ rest
      → any (λ u. is_after u t) rest ≡ false

latest_of_sorted :
    (c : Clockwork) (ts sorted : List ℕ) (at : ℕ)
    → SortsTimes c.sort_times
    → c.sort_times is_after ts ≡ sorted
    → elim sorted as (λ x. Option ℕ) [ [] ↦ none | t ∷ _ ↦ some t ] ≡ some at
    → (any (λ t. t == at) ts ≡ true) × (any (λ t. ltb at t) ts ≡ false)
unfolding any is_after
latest_of_sorted c ts [] at s e h = cc
latest_of_sorted c ts (t ∷ rest) at s e h =
    let same : t ≡ at = cc h in
    let f = s.first ts t rest e in
    subst (λ a. (any (λ u. u == a) ts ≡ true) × (any (λ u. ltb a u) ts ≡ false)) same
      (
        sym (s.keeps (λ u. u == t) ts) ∙ (ap (any (λ u. u == t)) e ∙ ground arith),
        sym (s.keeps (λ u. ltb t u) ts) ∙ (ap (any (λ u. ltb t u)) e ∙ ground (arith, f)),
      )

-- The time that is taken from the attestations is the finish time of one of them, and none has a
-- later one. The sort keeps the elements of a slice, and puts none before one that is later.
pub determine_attestation_time_lem :
    (c : Clockwork) (attestations : List Text) (at : ℕ)
    → SortsTimes c.sort_times
    → determine_attestation_time c attestations ≡ some at
    → (any (λ t. t == at) (finish_times c attestations) ≡ true)
      × (any (λ t. ltb at t) (finish_times c attestations) ≡ false)
unfolding determine_attestation_time
determine_attestation_time_lem c attestations at s h =
    latest_of_sorted c (finish_times c attestations) _ at s refl h
