-- ===== src/Evaluator/Postfilter/Partition.antt =====
-- The categories are a stable partition of the filtered results, followed by the outcome's own
-- exceptions and skipped results.
use ec_cli.Base.{
  ℕ, ◌≡◌, refl, sym, ◌∙◌, ap, Bool, true, false, List, [], ◌∷◌, ◌++◌, ◌&&◌, not, arith,
  if◌then◌else◌, keep, append-nil, append_assoc, length, length-append, ◌+◌,
}
use ec_cli.Evaluator.Criteria.{TimeParser}
use ec_cli.Evaluator.Result.{Result, Outcome, get_severity, is_result_effective}
use ec_cli.Evaluator.Postfilter.{
  Categories, no_categories, OriginalType, warning, failure, exception, skip, unknown, is_failure,
  is_warning, determine_original_type, legacy_original_type, place, as_warning, as_failure,
  unified_categories, legacy_categories, add_as_is, unified_categorize_results,
  legacy_categorize_results,
}

-- A result is reported as a failure if it was a warning of severity failure, or a failure that is
-- in effect and not of severity warning.
unfoldable pub is_reported_failure : TimeParser → ℕ → OriginalType → Result → Bool
is_reported_failure parse now warning r = is_failure (get_severity r)
is_reported_failure parse now failure r =
    not (is_warning (get_severity r)) && is_result_effective parse r now
is_reported_failure parse now _ r = false

unfoldable pub is_exception : OriginalType → Bool
is_exception exception = true
is_exception _ = false

unfoldable pub is_skipped : OriginalType → Bool
is_skipped skip = true
is_skipped _ = false

-- Everything else is reported as a warning.
abbrev pub is_reported_warning : TimeParser → ℕ → OriginalType → Result → Bool
is_reported_warning parse now t r =
    not (is_reported_failure parse now t r) && (not (is_exception t) && not (is_skipped t))

abbrev pub total : Categories → ℕ
total c = length c.warnings + length c.failures + length c.exceptions + length c.skipped

module _ (parse : TimeParser) (now : ℕ) where
  abbrev snoc_if : Bool → Result → List Result → List Result
  snoc_if b r l = if b then l ++ r ∷ [] else l

  place_lem :
      (t : OriginalType) (r : Result) (c : Categories)
      → place parse now t r c ≡ record {
        warnings = snoc_if (is_reported_warning parse now t r) r c.warnings;
        failures = snoc_if (is_reported_failure parse now t r) r c.failures;
        exceptions = snoc_if (is_exception t) r c.exceptions;
        skipped = snoc_if (is_skipped t) r c.skipped;
      }
  unfolding place is_reported_failure is_exception is_skipped as_warning as_failure
  place_lem warning r c = ground arith
  place_lem failure r c = ground arith
  place_lem exception r c = refl
  place_lem skip r c = refl
  place_lem unknown r c = refl

-- The results sorted by the types that `f` gives, behind what the categories hold already.
module _ (parse : TimeParser) (now : ℕ) (f : Result → OriginalType) where
  abbrev pub reported : (TimeParser → ℕ → OriginalType → Result → Bool) → Result → Bool
  reported p r = p parse now (f r) r

  abbrev pub sorted : List Result → Categories → Categories
  sorted results c = record {
    warnings = c.warnings ++ keep (reported is_reported_warning) results;
    failures = c.failures ++ keep (reported is_reported_failure) results;
    exceptions = c.exceptions ++ keep (λ r. is_exception (f r)) results;
    skipped = c.skipped ++ keep (λ r. is_skipped (f r)) results;
  }

  snoc_keep :
      (p : Result → Bool) (r : Result) (results l : List Result)
      → snoc_if parse now (p r) r l ++ keep p results ≡ l ++ keep p (r ∷ results)
  unfolding keep
  snoc_keep p r results l = ground (arith, append_assoc l (r ∷ []) (keep p results))

  sorted-nil : (c : Categories) → c ≡ sorted [] c
  unfolding keep
  sorted-nil c = λ i. record {
    warnings = sym (append-nil c.warnings) i;
    failures = sym (append-nil c.failures) i;
    exceptions = sym (append-nil c.exceptions) i;
    skipped = sym (append-nil c.skipped) i;
  }

  sorted-place :
      (r : Result) (results : List Result) (c : Categories)
      → sorted results (place parse now (f r) r c) ≡ sorted (r ∷ results) c
  sorted-place r results c = ap (sorted results) (place_lem parse now (f r) r c) ∙ λ i. record {
    warnings = snoc_keep (reported is_reported_warning) r results c.warnings i;
    failures = snoc_keep (reported is_reported_failure) r results c.failures i;
    exceptions = snoc_keep (λ r. is_exception (f r)) r results c.exceptions i;
    skipped = snoc_keep (λ r. is_skipped (f r)) r results c.skipped i;
  }

  -- Each result has just one category.
  one_category :
      (r : Result)
      → (if reported is_reported_warning r then 1 else 0)
          + (if reported is_reported_failure r then 1 else 0)
          + (if is_exception (f r) then 1 else 0)
          + (if is_skipped (f r) then 1 else 0)
        ≡ 1
  unfolding is_reported_failure is_exception is_skipped
  one_category r = ground arith

  length-keep_cons :
      (p : Result → Bool) (r : Result) (results : List Result)
      → length (keep p (r ∷ results)) ≡ (if p r then 1 else 0) + length (keep p results)
  unfolding keep
  length-keep_cons p r results = ground arith

  length-sorted :
      (results : List Result)
      → length (keep (reported is_reported_warning) results)
          + length (keep (reported is_reported_failure) results)
          + length (keep (λ r. is_exception (f r)) results)
          + length (keep (λ r. is_skipped (f r)) results)
        ≡ length results
  length-sorted [] = unfold keep in omega arith
  length-sorted (r ∷ results) = omega (
    arith,
    length-sorted results,
    one_category r,
    length-keep_cons (reported is_reported_warning) r results,
    length-keep_cons (reported is_reported_failure) r results,
    length-keep_cons (λ r. is_exception (f r)) r results,
    length-keep_cons (λ r. is_skipped (f r)) r results,
  )

module _ (parse : TimeParser) (now : ℕ) (original : Outcome) where
  abbrev pub unified_type : Result → OriginalType
  unified_type r = determine_original_type r original

  abbrev pub legacy_type : Result → OriginalType
  legacy_type r = legacy_original_type r original

  unified_categories_lem :
      (results : List Result) (c : Categories)
      → unified_categories parse now results original c ≡ sorted parse now unified_type results c
  unfolding unified_categories
  unified_categories_lem [] c = sorted-nil parse now unified_type c
  unified_categories_lem (r ∷ results) c =
      unified_categories_lem results _ ∙ sorted-place parse now unified_type r results c

  legacy_categories_lem :
      (results : List Result) (c : Categories)
      → legacy_categories parse now results original c ≡ sorted parse now legacy_type results c
  unfolding legacy_categories
  legacy_categories_lem [] c = sorted-nil parse now legacy_type c
  legacy_categories_lem (r ∷ results) c =
      legacy_categories_lem results _ ∙ sorted-place parse now legacy_type r results c

  -- Both filters sort the results stably by original type, severity and effective time, and add the
  -- exceptions and the skipped results of the outcome behind those that they were given.
  pub categorize_results_lem :
      (results : List Result)
      → (unified_categorize_results parse now results original
          ≡ add_as_is original (sorted parse now unified_type results no_categories))
        × (legacy_categorize_results parse now results original
            ≡ add_as_is original (sorted parse now legacy_type results no_categories))
  unfolding unified_categorize_results legacy_categorize_results
  categorize_results_lem results = (
    ap (add_as_is original) (unified_categories_lem results no_categories),
    ap (add_as_is original) (legacy_categories_lem results no_categories),
  )

  -- The categories of the unified filter hold each filtered result once, and the exceptions and
  -- skipped results of the outcome once more.
  total-unified_categorize_results :
      (results : List Result)
      → total (unified_categorize_results parse now results original)
        ≡ length results + length original.exceptions + length original.skipped
  unfolding add_as_is
  total-unified_categorize_results results =
      ap total ((categorize_results_lem results).0)
      ∙ omega (
        arith,
        length-sorted parse now unified_type results,
        length-append (keep (λ r. is_exception (unified_type r)) results) original.exceptions,
        length-append (keep (λ r. is_skipped (unified_type r)) results) original.skipped,
      )
