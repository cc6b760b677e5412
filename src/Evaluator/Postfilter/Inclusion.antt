-- ===== src/Evaluator/Postfilter/Inclusion.antt =====
-- Which results the post-evaluation filters keep, and which include criteria they leave unmatched.
use ec_cli.Base.{
  ◌≡◌, refl, Text, Bool, List, [], ◌∷◌, ◌&&◌, ◌||◌, not, arith, text_eq, is_empty, any, keep,
  contains, contains-keep, TextSet, ltb,
}
use ec_cli.Evaluator.Info.{PolicyRules}
use ec_cli.Evaluator.Criteria.{Criteria, ReferenceParser, get}
use ec_cli.Evaluator.Score.Matches.{match_total, is_common, legacy_score_matches_lem}
use ec_cli.Evaluator.Result.{Result, extract_string_from_metadata, metadata_code}
use ec_cli.Evaluator.Matchers.{legacy_make_matchers}
use ec_cli.Evaluator.Resolver.{BaseResolver, include_exclude}
use ec_cli.Evaluator.Postfilter.{
  legacy_is_result_included, legacy_filter_results, unified_loop, unified_filter_results,
  matched_by,
}

module _ (parse : ReferenceParser) (include exclude : Criteria) (target : Text) where
  -- The include criteria outweigh the exclude criteria.
  unfoldable pub passes : Result → Bool
  passes r =
      ltb (match_total (legacy_make_matchers r) (get parse exclude target))
        (match_total (legacy_make_matchers r) (get parse include target))

  -- An include criterion that one of the results matches.
  abbrev pub matches_criterion : Text → Result → Bool
  matches_criterion name r = is_common (legacy_make_matchers r) (get parse include target) name

  legacy_is_result_included_lem :
      (r : Result) (missing : TextSet)
      → legacy_is_result_included parse r target missing include exclude
        ≡ (passes r, keep (λ name. not (matches_criterion name r)) missing)
  unfolding legacy_is_result_included passes
  legacy_is_result_included_lem r missing = ground (
    arith,
    legacy_score_matches_lem (legacy_make_matchers r) (get parse include target) missing,
    legacy_score_matches_lem (legacy_make_matchers r) (get parse exclude target) [],
  )

  -- The legacy filter keeps exactly the results that pass, in their order. A criterion stays
  -- missing exactly if it was and no result matches it, kept or not.
  legacy_filter_results_lem :
      (results : List Result) (missing : TextSet) (name : Text)
      → ((legacy_filter_results parse include exclude target results missing).0
          ≡ keep passes results)
        × (contains (legacy_filter_results parse include exclude target results missing).1 name
            ≡ (not (any (matches_criterion name) results) && contains missing name))
  unfolding legacy_filter_results keep any
  legacy_filter_results_lem [] missing name = (refl, refl)
  legacy_filter_results_lem (r ∷ results) missing name = ground (
    arith,
    legacy_is_result_included_lem r missing,
    legacy_filter_results_lem results (keep (λ j. not (matches_criterion j r)) missing) name,
    contains-keep (λ j. not (matches_criterion j r)) missing name,
  )

abbrev pub has_no_code : Result → Bool
has_no_code r = is_empty (extract_string_from_metadata r metadata_code)

module _ (parse : ReferenceParser) (b : BaseResolver) (target : Text) where
  abbrev pub passes_or_codeless : Result → Bool
  passes_or_codeless r = has_no_code r || passes parse b.include b.exclude target r

  abbrev coded_match : Text → Result → Bool
  coded_match name r =
      not (has_no_code r) && matches_criterion parse b.include b.exclude target name r

  unified_loop_lem :
      (results : List Result) (missing : TextSet) (name : Text)
      → ((unified_loop parse b target results missing).0 ≡ keep passes_or_codeless results)
        × (contains (unified_loop parse b target results missing).1 name
            ≡ (not (any (coded_match name) results) && contains missing name))
  unfolding unified_loop keep any
  unified_loop_lem [] missing name = (refl, refl)
  unified_loop_lem (r ∷ results) missing name = ground (
    arith,
    legacy_is_result_included_lem parse b.include b.exclude target r missing,
    unified_loop_lem results missing name,
    unified_loop_lem results
        (keep (λ j. not (matches_criterion parse b.include b.exclude target j r)) missing) name,
    contains-keep (λ j. not (matches_criterion parse b.include b.exclude target j r)) missing name,
  )

  -- Without pipeline intentions the unified filter keeps exactly the results that pass or have no
  -- code, in their order. A criterion stays missing exactly if it was, no result with a code
  -- matches it, and no kept result has it among its matchers.
  pub unified_filter_results_lem :
      (rules : PolicyRules) (results : List Result) (missing : TextSet) (name : Text)
      → ((unified_filter_results parse (include_exclude b) rules target results missing).0
          ≡ keep passes_or_codeless results)
        × (contains
              (unified_filter_results parse (include_exclude b) rules target results missing).1
              name
            ≡ (not (matched_by (keep passes_or_codeless results) name)
                && (not (any (coded_match name) results) && contains missing name)))
  unfolding unified_filter_results
  unified_filter_results_lem rules results missing name =
      let loop = unified_loop parse b target results missing in
      ground (
        arith,
        unified_loop_lem results missing name,
        contains-keep (λ j. not (matched_by loop.0 j)) loop.1 name,
      )
