-- ===== src/Tests/Services.antt =====
-- The report of a snapshot, the transport and the file of trusted tasks.
use ec_cli.Base.{
  contains, ℕ, ◌≡◌, refl, true, false, Text, lit, [], ◌∷◌, none, some, arith, text_eq, nat_eq,
  lookup, List, Option, Bool,
}
use ec_cli.Evaluator.Result.{Value, string, get_metadata}
use ec_cli.Snapshot.Report.{
  Report, Component, message, more, to_appstudio_report, condensed_msg, TestResult, all_succeed,
}
use ec_cli.Snapshot.Report.Totals.{total_of, to_appstudio_report_lem}
use ec_cli.Snapshot.Report.Messages.{shown, messages_of, is_of, lookup-condensed_msg}
use ec_cli.Http.Retry.{
  Reply, RetryTransport, response, network_error, is_retried, round_trip, TripError,
}
use ec_cli.Http.Retry.Attempts.{tries_again, round_trip_decisive, round_trip_both}
use ec_cli.Tracker.{TaskRecord, filter_records}
use ec_cli.Tracker.Records.{Settled, oldest_of_runs, filter_records_lem}
use ec_cli.Tests.Data.{result_of}

abbrev print : Value → Text
print (string t) = t
print _ = []

abbrev component : Component
component = record {
  name = lit "app";
  violations = [];
  warnings = [];
  successes = result_of (lit "tasks.hermetic") ∷ result_of (lit "tasks.hermetic") ∷ [];
  success = true;
  success_count = 2;
}

abbrev snapshot_report : Report
snapshot_report = record {
  success = true;
  snapshot = lit "snapshot";
  components = component ∷ [];
  key = lit "key";
  show_successes = true;
  show_warnings = true;
}

to_appstudio_report_lem_example :
    let t = to_appstudio_report print snapshot_report in
    (t.failures ≡ 0) × (t.warnings ≡ 0) × (t.successes ≡ 2) × (t.result ≡ TestResult.success)
unfolding all_succeed total_of
to_appstudio_report_lem_example = to_appstudio_report_lem print snapshot_report

lookup-condensed_msg_example :
    lookup (lit "tasks.hermetic") (condensed_msg print component.successes)
    ≡ some (message (lit "tasks.hermetic") ∷ more 1 (lit "tasks.hermetic") ∷ [])
unfolding shown messages_of is_of get_metadata lookup text_eq nat_eq
lookup-condensed_msg_example = lookup-condensed_msg print component.successes (lit "tasks.hermetic")

abbrev transport : RetryTransport
transport = record { max_wait = 3; max_retry = 1; duration = 1; raw_backoff = λ n. n }

-- The service is busy once, and then answers.
abbrev busy_once : ℕ → Reply
busy_once ℕ.zero = response 429
busy_once (ℕ.suc n) = response 200

-- The service is busy once, and then not reached.
abbrev busy_then_lost : ℕ → Reply
busy_then_lost ℕ.zero = response 429
busy_then_lost (ℕ.suc n) = network_error (lit "lost")

abbrev never : ℕ → Bool
never n = false

round_trip_decisive_example :
    ((round_trip transport busy_once never).last_response ≡ some 200)
    × ((round_trip transport busy_once never).last_error ≡ none)
unfolding tries_again is_retried contains nat_eq
round_trip_decisive_example =
    round_trip_decisive transport busy_once never 1 200 (omega arith) (refl, refl, tt) refl refl

round_trip_both_example :
    ((round_trip transport busy_then_lost never).last_response ≡ some 429)
    × ((round_trip transport busy_then_lost never).last_error
        ≡ some (TripError.transport_error (lit "lost")))
unfolding tries_again is_retried contains nat_eq
round_trip_both_example =
    round_trip_both transport busy_then_lost never 0 429 (lit "lost") refl
      (refl, refl, (refl, refl, tt)) refl refl

abbrev task : Text → Option ℕ → TaskRecord
task ref expires_on = record {
  ref = ref;
  expires_on = expires_on;
  tag = lit "1";
  repository = lit "quay.io/task";
}

-- Two records with one reference, and an older one.
abbrev tasks : List TaskRecord
tasks = task (lit "b") none ∷ task (lit "b") (some 5) ∷ task (lit "a") (some 3) ∷ []

filter_records_lem_example :
    (filter_records 4 false tasks ≡ task (lit "b") (some 5) ∷ task (lit "a") (some 3) ∷ [])
    × Settled (filter_records 4 false tasks)
    × (filter_records 4 false (filter_records 4 false tasks) ≡ filter_records 4 false tasks)
unfolding oldest_of_runs text_eq
filter_records_lem_example = filter_records_lem 4 tasks
