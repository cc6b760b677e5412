-- ===== src/Evaluator/Matchers.antt =====
-- The names under which a rule or a result can be included or excluded: `createRuleMatchers` and
-- `LegacyMakeMatchers` of internal/evaluator/filters.go.
use ec_cli.Base.{Text, lit, List, [], ◌∷◌, ◌++◌, is_empty, if◌then◌else◌, split}
use ec_cli.Evaluator.Info.{Info}
use ec_cli.Evaluator.Score.{last, all_but_last}
use ec_cli.Evaluator.Result.{
  Result, extract_string_from_metadata, extract_strings_from_metadata, extract_collections,
  metadata_code, metadata_term,
}

-- The last but one part of the code, empty where the code has no dot.
unfoldable pub package_of_parts : List Text → Text
package_of_parts parts = last (all_but_last parts)

unfoldable pub package_matchers : Text → Text → List Text
package_matchers pkg rule =
    if is_empty pkg then [] else pkg ∷ (pkg ++ lit ".*") ∷ (pkg ++ (lit "." ++ rule)) ∷ []

-- The matchers of the code alone, which both functions begin with.
unfoldable pub code_matchers : Text → List Text
code_matchers code =
    let parts = split b'.' code in package_matchers (package_of_parts parts) (last parts)

unfoldable pub collection_matchers : List Text → List Text
collection_matchers [] = []
collection_matchers (c ∷ cs) = (lit "@" ++ c) ∷ collection_matchers cs

unfoldable pub create_rule_matchers : Text → Info → List Text
create_rule_matchers rule_id info =
    code_matchers rule_id ++ (lit "*" ∷ collection_matchers info.collections)

unfoldable pub with_term : Text → List Text → List Text
with_term term [] = []
with_term term (m ∷ ms) = (m ++ (lit ":" ++ term)) ∷ with_term term ms

unfoldable pub term_matchers : List Text → List Text → List Text
term_matchers [] matchers = []
term_matchers (term ∷ terms) matchers =
    (if is_empty term then [] else with_term term matchers) ++ term_matchers terms matchers

unfoldable pub legacy_make_matchers : Result → List Text
legacy_make_matchers r =
    let matchers = code_matchers (extract_string_from_metadata r metadata_code) in
    let terms = extract_strings_from_metadata r metadata_term in
    (matchers ++ term_matchers terms matchers) ++ (lit "*" ∷ extract_collections r)
