-- ===== src/Snapshot/Report.antt =====
-- internal/applicationsnapshot/report.go: the report, its summary and the test report. Rendering to
-- JSON, YAML and templates is left to the libraries; `fmt.Sprintf("%v", ·)` of a metadata value is
-- a parameter.
pub mod Totals
pub mod Messages
use ec_cli.Base.{
  ℕ, suc, ◌+◌, ◌-◌, Text, lit, List, [], ◌∷◌, ◌++◌, length, Option, none, some, Bool, true, false,
  not, ◌||◌, ◌&&◌, ltb, if◌then◌else◌, Dict, insert, lookup, get_or,
}
use ec_cli.Evaluator.Result.{Result, Value, get_metadata, metadata_code}

-- The fields of a component that the report reads.
pub record Component : Type 0 where
  pub name : Text
  pub violations : List Result
  pub warnings : List Result
  pub successes : List Result
  pub success : Bool
  pub success_count : ℕ

pub record Report : Type 0 where
  pub success : Bool
  pub snapshot : Text
  pub components : List Component
  pub key : Text
  pub show_successes : Bool
  pub show_warnings : Bool

-- A line of the summary: a message, or the text that counts the other messages of a code.
pub data Line : Type 0 where
  message : Text → Line
  more : ℕ → Text → Line

pub record ComponentSummary : Type 0 where
  pub name : Text
  pub success : Bool
  pub violations : Dict (List Line)
  pub warnings : Dict (List Line)
  pub successes : Dict (List Line)
  pub total_violations : ℕ
  pub total_warnings : ℕ
  pub total_successes : ℕ

pub record Summary : Type 0 where
  pub snapshot : Text
  pub components : List ComponentSummary
  pub success : Bool
  pub key : Text

-- The values of the field `result`; `pending` is its empty string.
pub data TestResult : Type 0 where
  pending failure warning skipped success error : TestResult

pub data Note : Type 0 where
  no_note failures_detected warnings_detected all_skipped all_passed : Note
  error_note : Text → Text → Note

pub record TestReport : Type 0 where
  pub successes : ℕ
  pub failures : ℕ
  pub warnings : ℕ
  pub result : TestResult
  pub note : Note

-- The loop that looks for a component that did not succeed.
unfoldable pub all_succeed : List Component → Bool
all_succeed [] = true
all_succeed (c ∷ components) = c.success && all_succeed components

-- `NewReport`; `none` where the policy gives no public key.
unfoldable pub new_report : Text → List Component → Option Text → Bool → Bool → Option Report
new_report snapshot components none show_successes show_warnings = none
new_report snapshot components (some key) show_successes show_warnings = some (record {
  success = all_succeed components;
  snapshot = snapshot;
  components = components;
  key = key;
  show_successes = show_successes;
  show_warnings = show_warnings;
})

module _ (sprint : Value → Text) where
  -- The first loop: the messages to show and the counts, by code. A result without a code is
  -- passed over.
  unfoldable pub count_messages :
      List Result → Dict (List Line) × Dict ℕ → Dict (List Line) × Dict ℕ
  count_messages [] state = state
  count_messages (r ∷ results) (short_names, count) =
      count_messages results (elim (get_metadata r metadata_code) [
        | none ↦ (short_names, count)
        | some value ↦
            let code = sprint value in
            let seen = get_or 0 code count in
            (
              if ltb seen 1
                  then insert code (get_or [] code short_names ++ message r.message ∷ [])
                      short_names
                  else short_names,
              insert code (seen + 1) count,
            )
      ])

-- The second loop.
unfoldable pub add_counts : Dict ℕ → Dict (List Line) → Dict (List Line)
add_counts count [] = []
add_counts count ((k, lines) ∷ short_names) =
    (k, if ltb 1 (get_or 0 k count) then lines ++ more (get_or 0 k count - 1) k ∷ [] else lines)
    ∷ add_counts count short_names

module _ (sprint : Value → Text) where
  unfoldable pub condensed_msg : List Result → Dict (List Line)
  condensed_msg results =
      let (short_names, count) = count_messages sprint results ([], []) in
      add_counts count short_names

  unfoldable pub component_summary : Component → ComponentSummary
  component_summary c = record {
    name = c.name;
    success = c.success;
    violations = condensed_msg c.violations;
    warnings = condensed_msg c.warnings;
    successes = condensed_msg c.successes;
    total_violations = length c.violations;
    total_warnings = length c.warnings;
    total_successes = c.success_count;
  }

  -- The loop of `toSummary`, over the summary that is being built.
  unfoldable pub summarize : List Component → Summary → Summary
  summarize [] pr = pr
  summarize (c ∷ components) pr =
      summarize components (record (if not c.success then record pr { success = false } else pr) {
        components = pr.components ++ component_summary c ∷ [];
      })

  unfoldable pub to_summary : Report → Summary
  to_summary r =
      record (summarize r.components
        (record { snapshot = r.snapshot; components = []; success = false; key = [] })) {
          key = r.key;
        }

unfoldable pub derive_result : Bool → TestReport → TestReport
derive_result has_failures r =
    if ltb 0 r.failures || has_failures
    then record r { result = failure }
    else if ltb 0 r.warnings
    then record r { result = warning }
    else if not (ltb 0 r.successes)
    then record r { result = skipped }
    else record r { result = success }

note_of : TestResult → Note → Note
note_of failure note = failures_detected
note_of warning note = warnings_detected
note_of skipped note = all_skipped
note_of success note = all_passed
note_of _ note = note

unfoldable pub derive_note : TestReport → TestReport
unfolding note_of
derive_note r = record r { note = note_of r.result r.note }

-- The loop of `toAppstudioReport`, with its flag.
unfoldable pub add_components : List ComponentSummary → TestReport × Bool → TestReport × Bool
add_components [] state = state
add_components (c ∷ components) (result, has_failures) = add_components components (
  record result {
    failures = result.failures + c.total_violations;
    warnings = result.warnings + c.total_warnings;
    successes = result.successes + c.total_successes;
  },
  if not c.success then true else has_failures,
)

unfoldable pub to_appstudio_report : (Value → Text) → Report → TestReport
to_appstudio_report sprint r =
    let (result, has_failures) = add_components (to_summary sprint r).components (
      record { successes = 0; failures = 0; warnings = 0; result = pending; note = no_note },
      false,
    ) in
    derive_result has_failures result

unfoldable pub appstudio_report_for_error : Text → Text → TestReport
appstudio_report_for_error prefix reason = record {
  successes = 0;
  failures = 0;
  warnings = 0;
  result = error;
  note = error_note prefix reason;
}
