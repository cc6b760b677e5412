-- ===== src/Output/Counting.antt =====
-- Every result of an output is counted, in the order that `sort.Slice` gives them.
use ec_cli.Base.{
  ℕ, ◌+◌, ◌≡◌, List, [], ◌∷◌, ◌++◌, Bool, Bool-cases, inl, inr, not, if◌then◌else◌, count_if, arith,
}
use ec_cli.Evaluator.Result.{Result, Outcome}
use ec_cli.Output.{
  VerificationStatus, Output, result_of_status, add_to_violations, add_to_successes, gather, Sorter,
  result_less, sort_results, violations, successes,
}

pub count_if-append {ℓ} :
    {A : Type ℓ} (p : A → Bool) (xs ys : List A)
    → count_if p (xs ++ ys) ≡ count_if p xs + count_if p ys
unfolding count_if
count_if-append p [] ys = omega arith
count_if-append p (x ∷ xs) ys = omega (arith, count_if-append p xs ys)

-- How many results with a property the outcomes hold.
unfoldable pub count_in : (Result → Bool) → (Outcome → List Result) → List Outcome → ℕ
count_in p f [] = 0
count_in p f (r ∷ rs) = count_if p (f r) + count_in p f rs

count_if-gather :
    (p : Result → Bool) (f : Outcome → List Result) (rs : List Outcome) (acc : List Result)
    → count_if p (gather f rs acc) ≡ count_if p acc + count_in p f rs
unfolding gather count_in
count_if-gather p f [] acc = omega arith
count_if-gather p f (r ∷ rs) acc =
    omega (arith, count_if-gather p f rs (acc ++ f r), count_if-append p acc (f r))

-- The result of a check counts among the violations if it failed, among the successes if not.
unfoldable pub count_status : (Result → Bool) → Bool → VerificationStatus → ℕ
count_status p counted v = if counted then count_if p (result_of_status v) else 0

count_if-add_to_violations :
    (p : Result → Bool) (v : VerificationStatus) (acc : List Result)
    → count_if p (add_to_violations v acc) ≡ count_if p acc + count_status p (not v.passed) v
unfolding add_to_violations count_status result_of_status
count_if-add_to_violations p v acc = elim (Bool-cases v.passed) [
  | inl e ↦ rw e (omega arith)
  | inr e ↦ rw e (count_if-append p acc (result_of_status v))
]

count_if-add_to_successes :
    (p : Result → Bool) (v : VerificationStatus) (acc : List Result)
    → count_if p (add_to_successes v acc) ≡ count_if p acc + count_status p v.passed v
unfolding add_to_successes count_status result_of_status
count_if-add_to_successes p v acc = elim (Bool-cases v.passed) [
  | inl e ↦ rw e (count_if-append p acc (result_of_status v))
  | inr e ↦ rw e (omega arith)
]

-- `sort.Slice` keeps the elements of the slice.
abbrev pub KeepsElements : Sorter → Type 0
KeepsElements sort =
    (p : Result → Bool) (rs : List Result) → count_if p (sort result_less rs) ≡ count_if p rs

module _ (sort : Sorter) (keeps : KeepsElements sort) (p : Result → Bool) (o : Output) where
  -- The violations of an output are, as a multiset, the results of the checks that did not pass and
  -- the failures of all outcomes. The sort keeps the elements of a slice.
  pub count_if-violations :
      count_if p (violations sort o)
      ≡ count_status p (not o.image_signature_check.passed) o.image_signature_check
        + count_status p (not o.image_accessible_check.passed) o.image_accessible_check
        + count_status p (not o.attestation_signature_check.passed) o.attestation_signature_check
        + count_status p (not o.attestation_syntax_check.passed) o.attestation_syntax_check
        + count_in p (λ r. r.failures) o.policy_check
  unfolding violations sort_results count_if
  count_if-violations = omega (
    arith,
    keeps p _,
    count_if-gather p (λ r. r.failures) o.policy_check _,
    count_if-add_to_violations p o.attestation_syntax_check _,
    count_if-add_to_violations p o.attestation_signature_check _,
    count_if-add_to_violations p o.image_accessible_check _,
    count_if-add_to_violations p o.image_signature_check [],
  )

  count_if-successes :
      count_if p (successes sort o)
      ≡ count_in p (λ r. r.successes) o.policy_check
        + count_status p o.image_signature_check.passed o.image_signature_check
        + count_status p o.attestation_signature_check.passed o.attestation_signature_check
        + count_status p o.attestation_syntax_check.passed o.attestation_syntax_check
  unfolding successes sort_results count_if
  count_if-successes = omega (
    arith,
    keeps p _,
    count_if-gather p (λ r. r.successes) o.policy_check [],
    count_if-add_to_successes p o.attestation_syntax_check _,
    count_if-add_to_successes p o.attestation_signature_check _,
    count_if-add_to_successes p o.image_signature_check _,
  )
