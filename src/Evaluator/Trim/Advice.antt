-- ===== src/Evaluator/Trim/Advice.antt =====
-- Trimming and the advice on exclusion leave the names of a result as they are.
use ec_cli.Base.{
  ℕ, zero, suc, ◌≡◌, refl, ◌∙◌, Text, true, false, none, some, List, [], ◌∷◌, ◌++◌, ◌==◌, text_eq,
  lookup-insert, All, TextSet, Option,
}
use ec_cli.Evaluator.Criteria.{ReferenceParser}
use ec_cli.Evaluator.Resolver.{BaseResolver}
use ec_cli.Evaluator.Result.{
  Result, Outcome, Value, Metadata, string, get_metadata, metadata_code, metadata_collections,
  metadata_description, metadata_term, extract_string_from_metadata, extract_strings_from_metadata,
  extract_collections,
}
use ec_cli.Evaluator.Matchers.{legacy_make_matchers}
use ec_cli.Evaluator.Postfilter.Inclusion.{passes_or_codeless, passes}
use ec_cli.Evaluator.Trim.{
  set_metadata, note_of, add_note, add_notes, replicate, copies, trim_output, trim_failures,
  trim_outcome, trim_outcomes,
}

set_on :
    (key k : Text) (v : Value) (r : Result) (m : Option Metadata)
    → (key == k) ≡ false
    → get_metadata (set_metadata key v (record r { metadata = m })) k
      ≡ get_metadata (record r { metadata = m }) k
unfolding set_metadata get_metadata
set_on key k v r none h = refl
set_on key k v r (some m) h = rw lookup-insert (rw h refl)

get_metadata-set_metadata :
    (key k : Text) (v : Value) (r : Result)
    → (key == k) ≡ false
    → get_metadata (set_metadata key v r) k ≡ get_metadata r k
get_metadata-set_metadata key k v r h = set_on key k v r r.metadata h

-- Two results show the same code, terms and collections.
record IsSameNamed (r s : Result) : Type 0 where
  code : get_metadata r metadata_code ≡ get_metadata s metadata_code
  term : get_metadata r metadata_term ≡ get_metadata s metadata_term
  collections : get_metadata r metadata_collections ≡ get_metadata s metadata_collections

differ_code : (metadata_description == metadata_code) ≡ false
unfolding text_eq
differ_code = refl

differ_term : (metadata_description == metadata_term) ≡ false
unfolding text_eq
differ_term = refl

differ_collections : (metadata_description == metadata_collections) ≡ false
unfolding text_eq
differ_collections = refl

with_note-IsSameNamed :
    (r : Result) (note : Option Text)
    → IsSameNamed
        (elim note [ none ↦ r | some t ↦ set_metadata metadata_description (string t) r ])
        r
with_note-IsSameNamed r none = record { code = refl; term = refl; collections = refl }
with_note-IsSameNamed r (some t) = record {
  code = get_metadata-set_metadata metadata_description metadata_code (string t) r differ_code;
  term = get_metadata-set_metadata metadata_description metadata_term (string t) r differ_term;
  collections =
      get_metadata-set_metadata metadata_description metadata_collections (string t) r
        differ_collections;
}

add_note-IsSameNamed : (r : Result) → IsSameNamed (add_note r) r
unfolding add_note
add_note-IsSameNamed r = with_note-IsSameNamed r (
    note_of (get_metadata r metadata_description) (get_metadata r metadata_code)
      (get_metadata r metadata_term))

code-same :
    (r s : Result)
    → IsSameNamed r s
    → extract_string_from_metadata r metadata_code ≡ extract_string_from_metadata s metadata_code
unfolding extract_string_from_metadata extract_strings_from_metadata
code-same r s h = rw (h.code, extract_string_from_metadata) refl

matchers-same : (r s : Result) → IsSameNamed r s → legacy_make_matchers r ≡ legacy_make_matchers s
unfolding legacy_make_matchers extract_strings_from_metadata extract_collections
matchers-same r s h = rw (code-same r s h, h.term, h.collections) refl

module _ (parse : ReferenceParser) (b : BaseResolver) (target : Text) where
  -- Included by the criteria, or without a code.
  abbrev pub IsIncluded : Result → Type 0
  IsIncluded r = passes_or_codeless parse b target r ≡ true

  passes_or_codeless-same :
      (r s : Result)
      → IsSameNamed r s
      → passes_or_codeless parse b target r ≡ passes_or_codeless parse b target s
  unfolding passes
  passes_or_codeless-same r s h = rw (code-same r s h, matchers-same r s h) refl

  add_notes-IsIncluded : (n : ℕ) (r : Result) → IsIncluded r → IsIncluded (add_notes n r)
  unfolding add_notes
  add_notes-IsIncluded zero r h = h
  add_notes-IsIncluded (suc n) r h =
      add_notes-IsIncluded n (add_note r)
        (passes_or_codeless-same (add_note r) r (add_note-IsSameNamed r) ∙ h)

  All-replicate :
      (n : ℕ) (r : Result) (rest : List Result)
      → IsIncluded r
      → All IsIncluded rest
      → All IsIncluded (replicate n r ++ rest)
  unfolding replicate
  All-replicate zero r rest h hs = hs
  All-replicate (suc n) r rest h hs = (h, All-replicate n r rest h hs)

  All-trim_output :
      (reported : TextSet) (what : List Result)
      → All IsIncluded what
      → All IsIncluded (trim_output reported what)
  unfolding trim_output
  All-trim_output reported [] h = tt
  All-trim_output reported (r ∷ what) (h, hs) =
      All-replicate (copies reported r) r (trim_output reported what) h
        (All-trim_output reported what hs)

  All-trim_failures :
      (reported : TextSet) (what : List Result)
      → All IsIncluded what
      → All IsIncluded (trim_failures reported what)
  unfolding trim_failures
  All-trim_failures reported [] h = tt
  All-trim_failures reported (r ∷ what) (h, hs) =
      All-replicate (copies reported r) (add_notes (copies reported r) r)
        (trim_failures reported what) (add_notes-IsIncluded (copies reported r) r h)
        (All-trim_failures reported what hs)

  -- The failures and the warnings of an outcome are included.
  abbrev pub ReportsIncluded : Outcome → Type 0
  ReportsIncluded o = All IsIncluded o.failures × All IsIncluded o.warnings

  pub trim_outcomes-ReportsIncluded :
      (reported : TextSet) (outcomes : List Outcome)
      → All ReportsIncluded outcomes
      → All ReportsIncluded (trim_outcomes reported outcomes)
  unfolding trim_outcomes trim_outcome
  trim_outcomes-ReportsIncluded reported [] h = tt
  trim_outcomes-ReportsIncluded reported (o ∷ outcomes) ((f, w), h) = (
    (All-trim_failures reported o.failures f, All-trim_output reported o.warnings w),
    trim_outcomes-ReportsIncluded reported outcomes h,
  )
