-- ===== src/Snapshot/Report/Messages.antt =====
-- `condensedMsg` shows one message of each code and the number of the others.
use ec_cli.Base.{
  ℕ, ◌+◌, ◌-◌, ◌≡◌, refl, ◌∙◌, arith, Text, List, [], ◌∷◌, ◌++◌, length, Option, none, some, Bool,
  false, ◌==◌, text_eq, ltb, if◌then◌else◌, Dict, lookup, insert, get_or, lookup-insert,
  get_or-insert, Option-cases, inl, inr,
}
use ec_cli.Evaluator.Result.{Result, Value, get_metadata, metadata_code}
use ec_cli.Snapshot.Report.{Line, message, more, count_messages, add_counts, condensed_msg}

-- Whether the metadata value prints as the code.
unfoldable pub is_of : (Value → Text) → Text → Option Value → Bool
is_of sprint code none = false
is_of sprint code (some v) = sprint v == code

-- The messages of the results with the code, in their order.
unfoldable pub messages_of : (Value → Text) → Text → List Result → List Text
messages_of sprint code [] = []
messages_of sprint code (r ∷ results) =
    let rest = messages_of sprint code results in
    if is_of sprint code (get_metadata r metadata_code) then r.message ∷ rest else rest

module _ (sprint : Value → Text) where
  count_messages_count :
      (results : List Result) (names : Dict (List Line)) (count : Dict ℕ) (code : Text)
      → get_or 0 code (count_messages sprint results (names, count)).1
        ≡ get_or 0 code count + length (messages_of sprint code results)
  unfolding count_messages messages_of is_of
  count_messages_count [] names count code = omega arith
  count_messages_count (r ∷ results) names count code =
      elim (Option-cases (get_metadata r metadata_code)) [
        | inl e ↦
            rw (e, count_messages) (ground (arith, count_messages_count results names count code))
        | inr (v, e) ↦
            let seen = get_or 0 (sprint v) count in
            rw (e, count_messages)
              (ground (
                arith,
                count_messages_count results
                    (if ltb seen 1
                      then insert (sprint v) (get_or [] (sprint v) names ++ message r.message ∷ [])
                          names
                      else names)
                    (insert (sprint v) (seen + 1) count) code,
                get_or-insert 0 code (sprint v) (seen + 1) count,
              ))
      ]

  -- The line for the first message, where none was met before.
  abbrev first_line : List Text → Option (List Line) → List Line → Option (List Line)
  first_line [] old lines = old
  first_line (m ∷ ms) old lines = some (lines ++ message m ∷ [])

  count_messages_names :
      (results : List Result) (names : Dict (List Line)) (count : Dict ℕ) (code : Text)
      → lookup code (count_messages sprint results (names, count)).0 ≡ (
          if ltb (get_or 0 code count) 1
          then first_line
              (messages_of sprint code results)
              (lookup code names)
              (get_or [] code names)
          else lookup code names)
  unfolding count_messages messages_of is_of
  count_messages_names [] names count code = ground arith
  count_messages_names (r ∷ results) names count code =
      elim (Option-cases (get_metadata r metadata_code)) [
        | inl e ↦
            rw (e, count_messages) (ground (arith, count_messages_names results names count code))
        | inr (v, e) ↦
            let seen = get_or 0 (sprint v) count in
            let new =
              insert (sprint v) (get_or [] (sprint v) names ++ message r.message ∷ []) names in
            rw (e, count_messages)
              (ground (
                arith,
                count_messages_names results (if ltb seen 1 then new else names)
                    (insert (sprint v) (seen + 1) count) code,
                get_or-insert 0 code (sprint v) (seen + 1) count,
                lookup-insert code (sprint v) (get_or [] (sprint v) names ++ message r.message ∷ [])
                    names,
              ))
      ]

lookup-add_counts :
    (count : Dict ℕ) (d : Dict (List Line)) (k : Text)
    → lookup k (add_counts count d) ≡ elim (lookup k d) [
      | none ↦ none
      | some lines ↦
          some (
            if ltb 1 (get_or 0 k count) then lines ++ more (get_or 0 k count - 1) k ∷ [] else lines)
    ]
unfolding lookup add_counts
lookup-add_counts count [] k = refl
lookup-add_counts count ((j, lines) ∷ d) k = ground (arith, lookup-add_counts count d k)

-- What the summary shows of the messages of one code.
unfoldable pub shown : Text → List Text → Option (List Line)
shown code [] = none
shown code (m ∷ []) = some (message m ∷ [])
shown code (m ∷ n ∷ ms) = some (message m ∷ more (length (n ∷ ms)) code ∷ [])

-- For each code the summary shows the first message of that code and, if there are others, how
-- many; and nothing for a code that no result has.
pub lookup-condensed_msg :
    (sprint : Value → Text) (results : List Result) (code : Text)
    → lookup code (condensed_msg sprint results) ≡ shown code (messages_of sprint code results)
unfolding condensed_msg
lookup-condensed_msg sprint results code =
    let state = count_messages sprint results ([], []) in
    lookup-add_counts state.1 state.0 code
    ∙ finish (messages_of sprint code results) (lookup code state.0) (get_or 0 code state.1)
        (count_messages_names sprint results [] [] code ∙ unfold lookup in refl)
        (count_messages_count sprint results [] [] code ∙ unfold lookup in omega arith)
  where
    finish :
        (ms : List Text) (found : Option (List Line)) (n : ℕ)
        → found ≡ first_line sprint ms none []
        → n ≡ length ms
        → elim found [
          | none ↦ none
          | some lines ↦ some (if ltb 1 n then lines ++ more (n - 1) code ∷ [] else lines)
        ]
          ≡ shown code ms
    finish [] found n h e = unfold shown in ground arith
    finish (m ∷ []) found n h e = unfold shown in ground arith
    finish (m ∷ m' ∷ ms) found n h e = unfold shown in ground arith
