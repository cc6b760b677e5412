-- ===== src/Evaluator/Trim/Dependencies.antt =====
-- What `trim` drops, keeps and repeats.
use ec_cli.Base.{
  ℕ, zero, suc, ◌≡◌, refl, sym, ◌∙◌, Text, Bool, true, false, none, some, Option, List, [], ◌∷◌,
  ◌++◌, ◌&&◌, ◌||◌, not, arith, ◌==◌, text_eq, if◌then◌else◌, any, any-append, contains, TextSet,
  contains-add, All, length, ◌≤◌, count_if, keep, ltb,
}
use ec_cli.Evaluator.Result.{
  Result, Outcome, Value, string, strings, array, other, get_metadata, metadata_code,
  metadata_depends_on,
}
use ec_cli.Evaluator.Trim.{
  add_code, add_codes, collect_reported, reported_codes, copies, copies_of_value, replicate,
  trim_output,
}

-- Whether a value of the metadata is the code.
unfoldable pub is_code : Text → Option Value → Bool
is_code code (some (string c)) = c == code
is_code code _ = false

abbrev pub shows_code : Text → Result → Bool
shows_code code r = is_code code (get_metadata r metadata_code)

-- Whether an outcome reports the code: as a failure, a warning or a skipped result.
abbrev pub reports : Text → Outcome → Bool
reports code o =
    any (shows_code code) o.failures
    || (any (shows_code code) o.warnings || any (shows_code code) o.skipped)

add_code_lem :
    (v : Option Value) (reported : TextSet) (code : Text)
    → contains (add_code v reported) code ≡ (is_code code v || contains reported code)
unfolding add_code is_code
add_code_lem (some (string c)) reported code = contains-add c code reported
add_code_lem none reported code = refl
add_code_lem (some (strings cs)) reported code = refl
add_code_lem (some (array es)) reported code = refl
add_code_lem (some (other n)) reported code = refl

add_codes_lem :
    (results : List Result) (reported : TextSet) (code : Text)
    → contains (add_codes results reported) code
      ≡ (any (shows_code code) results || contains reported code)
unfolding add_codes any
add_codes_lem [] reported code = refl
add_codes_lem (r ∷ results) reported code = ground (
  arith,
  add_codes_lem results (add_code (get_metadata r metadata_code) reported) code,
  add_code_lem (get_metadata r metadata_code) reported code,
)

collect_reported_lem :
    (outcomes : List Outcome) (reported : TextSet) (code : Text)
    → contains (collect_reported outcomes reported) code
      ≡ (any (reports code) outcomes || contains reported code)
unfolding collect_reported any
collect_reported_lem [] reported code = refl
collect_reported_lem (o ∷ outcomes) reported code =
    let failed = add_codes o.failures reported in
    let warned = add_codes o.warnings failed in
    ground (
      arith,
      collect_reported_lem outcomes (add_codes o.skipped warned) code,
      add_codes_lem o.skipped warned code,
      add_codes_lem o.warnings failed code,
      add_codes_lem o.failures reported code,
    )

-- A code counts as reported exactly if some failure, warning or skipped result of some outcome
-- shows it; successes and exceptions do not count.
contains-reported_codes :
    (outcomes : List Outcome) (code : Text)
    → contains (reported_codes outcomes) code ≡ any (reports code) outcomes
unfolding reported_codes
contains-reported_codes outcomes code =
    collect_reported_lem outcomes [] code ∙ unfold contains in ground arith

-- The dependencies that a result lists, if it has a list.
unfoldable pub dependencies : Option Value → List Text
dependencies (some (strings ds)) = ds
dependencies _ = []

unfoldable pub lists_dependencies : Option Value → Bool
lists_dependencies (some (strings ds)) = true
lists_dependencies _ = false

-- Whether a result is kept at all.
abbrev pub is_kept : TextSet → Result → Bool
is_kept reported r =
    let v = get_metadata r metadata_depends_on in
    not (lists_dependencies v) || any (λ d. not (contains reported d)) (dependencies v)

count_if-any : (p : Text → Bool) (ds : List Text) → any p ds ≡ ltb 0 (count_if p ds)
unfolding count_if any
count_if-any p [] = refl
count_if-any p (d ∷ ds) = ground (arith, count_if-any p ds)

any-replicate : (p : Result → Bool) (n : ℕ) (r : Result) → any p (replicate n r) ≡ (ltb 0 n && p r)
unfolding any replicate
any-replicate p zero r = refl
any-replicate p (suc n) r = ground (arith, any-replicate p n r)

copies_of_value_lem :
    (reported : TextSet) (v : Option Value)
    → ltb 0 (copies_of_value reported v)
      ≡ (not (lists_dependencies v) || any (λ d. not (contains reported d)) (dependencies v))
unfolding copies_of_value lists_dependencies dependencies
copies_of_value_lem reported (some (strings ds)) =
    sym (count_if-any (λ d. not (contains reported d)) ds)
copies_of_value_lem reported none = refl
copies_of_value_lem reported (some (string t)) = refl
copies_of_value_lem reported (some (array es)) = refl
copies_of_value_lem reported (some (other n)) = refl

-- Some result with a given property survives the trimming exactly if some result with that property
-- lists no dependencies or lists one that is not reported.
pub any-trim_output :
    (reported : TextSet) (what : List Result) (p : Result → Bool)
    → any p (trim_output reported what) ≡ any (λ r. is_kept reported r && p r) what
unfolding trim_output any copies
any-trim_output reported [] p = refl
any-trim_output reported (r ∷ what) p = ground (
  arith,
  any-append p (replicate (copies reported r) r) (trim_output reported what),
  any-replicate p (copies reported r) r,
  copies_of_value_lem reported (get_metadata r metadata_depends_on),
  any-trim_output reported what p,
)

-- At most one dependency is listed.
abbrev pub HasOneDependency : Result → Type 0
HasOneDependency r = length (dependencies (get_metadata r metadata_depends_on)) ≤ 1

replicate_one_or_none :
    (reported : TextSet) (r : Result) (v : Option Value)
    → length (dependencies v) ≤ 1
    → replicate (copies_of_value reported v) r ≡ (
        if not (lists_dependencies v) || any (λ d. not (contains reported d)) (dependencies v)
        then r ∷ []
        else [])
unfolding copies_of_value lists_dependencies dependencies count_if any replicate
replicate_one_or_none reported r (some (strings [])) h = refl
replicate_one_or_none reported r (some (strings (d ∷ []))) h = ground arith
replicate_one_or_none reported r (some (strings (d ∷ e ∷ ds))) h = absurd (omega arith)
replicate_one_or_none reported r none h = refl
replicate_one_or_none reported r (some (string t)) h = refl
replicate_one_or_none reported r (some (array es)) h = refl
replicate_one_or_none reported r (some (other n)) h = refl

-- Where no result lists more than one dependency, those with a reported dependency are dropped and
-- the others stay once each, in their order.
trim_output_of_one :
    (reported : TextSet) (what : List Result)
    → All HasOneDependency what
    → trim_output reported what ≡ keep (is_kept reported) what
unfolding trim_output copies keep
trim_output_of_one reported [] h = refl
trim_output_of_one reported (r ∷ what) (h, hs) = ground (
  arith,
  replicate_one_or_none reported r (get_metadata r metadata_depends_on) h,
  trim_output_of_one reported what hs,
)

-- A result that lists `d` and `e` is kept once for each of the two that is not reported: it stays
-- although one of them is reported, and stands twice if neither is.
pub trim_output_of_two :
    (reported : TextSet) (r : Result) (d e : Text) (what : List Result)
    → get_metadata r metadata_depends_on ≡ some (strings (d ∷ e ∷ []))
    → trim_output reported (r ∷ what)
      ≡ (if contains reported d then [] else r ∷ [])
        ++ ((if contains reported e then [] else r ∷ []) ++ trim_output reported what)
unfolding trim_output copies copies_of_value count_if replicate
trim_output_of_two reported r d e what h = ground arith
