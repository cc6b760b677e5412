-- ===== src/Lib.antt =====
-- Models of the core of the `ec` command line: the evaluation of policy rules on an image, the report
-- of a snapshot, the validation of one image with its policy, the summary attestations and their
-- retrieval from the transparency log, the retries of HTTP requests, and the tracker of trusted tasks.
--
-- An evaluation takes the include and exclude criteria of a policy source (criteria), finds with them
-- which rules and packages apply to an image (resolver), runs conftest on the packages, completes the
-- results with what is known of their rules (annotate), drops the results that the criteria do not
-- include (post-evaluation filter), sorts the others into failures, warnings, exceptions and skipped
-- results, adds the successes and the include criteria that matched nothing, and removes results that
-- depend on a reported rule (trim). Reports count the results per component of a snapshot.
--
-- A snapshot is merged from the inputs, and its image indexes are expanded into their images. Each
-- image is validated with one policy: its access, signatures and attestations are checked, the policy
-- is told the time of the attestations, on which its effective time can depend, and the evaluators run;
-- the output gathers the violations. Summary attestations of the report are then stored, and the
-- retriever finds the latest one for a digest, fetching the entries of the log with several workers.
--
-- Base holds Go's strings as lists of bytes, its comparisons, the string functions that the code
-- calls, maps as association lists without order of their own, and sets as lists without duplicates.
-- A loop over a map visits the entries in the order of the list.
--
-- The files and the code:
-- Policy: internal/policy/policy.go. Policy/Making has `NewPolicy` and the methods of `policy`;
-- Policy/Sources has `PreProcessPolicy` and internal/policy/source/source.go.
-- Output: internal/output/output.go; each setter gives the output that it leaves.
-- Image: internal/image/process.go. Validation: internal/image/validate.go; `validate_image` gives the
-- output and the policy, which the code changes in place. Validation/Target:
-- internal/evaluation_target/application_snapshot_image/application_snapshot_image.go.
-- Vsa/Rekor and Vsa/Pool: internal/validate/vsa/rekor_retriever.go. The sender, the workers, the
-- goroutine that closes the results and the collecting loop of `fetchLogEntriesParallel` are the steps
-- of a relation on the state of its channels.
-- Vsa/Storage and Vsa/Service: storage.go and service.go beside it. Vsa/Backends: storage_rekor.go and
-- storage_local.go.
-- Snapshot/Input: internal/applicationsnapshot/input.go; Snapshot/Input/Expansion has its image
-- indexes, expansion_info.go, and the filter of reports in internal/validate/vsa/vsa.go.
-- Rule: internal/opa/rule/rule.go. Tracing: internal/tracing/type.go. Support:
-- internal/format/target.go, internal/kubernetes/names.go, internal/policy/source/chooser.go and
-- internal/validate/helpers.go.
-- Evaluator/Info: `Info` of internal/opa/rule/rule.go.
-- Evaluator/Criteria: internal/evaluator/criteria.go. `Criteria` is the struct, `get`, `add_item` and
-- `add_array` its methods, `compute_include_exclude` and `collect_volatile_config_items` the functions.
-- Evaluator/Score: `LegacyScore` and `LegacyScoreMatches` of internal/evaluator/filters.go; the map
-- that is pruned is returned with the score.
-- Evaluator/Matchers: `createRuleMatchers` and `LegacyMakeMatchers` of the same file.
-- Evaluator/Resolver: `ECPolicyResolver`, `IncludeExcludePolicyResolver` and the functions of
-- `basePolicyResolver`; the result that they change is passed through.
-- Evaluator/Prefilter and Evaluator/Postfilter: the filters of packages and of results.
-- Evaluator/Result, Evaluator/Trim, Evaluator/Annotate and Evaluator/Evaluate:
-- internal/evaluator/evaluator.go and internal/evaluator/conftest_evaluator.go. Metadata maps that
-- several failures share are changed where the code changes them, in all of them at once; that a result
-- among the exceptions can share the map of a failure is left out.
-- Snapshot/Report: internal/applicationsnapshot/report.go.
-- Http/Retry: internal/http/retry.go; an attempt's reply is a function of its number.
-- Tracker: internal/tracker/tracker.go; the map of the tracker is passed through.
-- The files below one of these hold the statements about it, and Tests the runs on concrete data.
--
-- Bounds and fuel: every loop is a recursion on the list that the code ranges over, or on the number
-- of attempts that are left, which starts at the number of retries and one. Only `decimal` takes fuel,
-- one more than the number that it prints, which has fewer digits. Numbers
-- are natural numbers: the code only counts, and adds scores of names. Times and durations are numbers
-- of nanoseconds.
--
-- Parameters: the parsers of image references and of times, the printing of values that are no strings,
-- the inspection of the policy sources and the run of conftest, the exponential backoff with its
-- jitter, the wrapped transport and the cancellation of its request, the registry, the git client, the
-- clock, the keys and clients of cosign, Fulcio and Rekor, the cluster, the schema of policies, the
-- downloads, `sort.Slice`, `url.Parse`, base64, cosign, the schema of attestations, the generation and
-- signing of attestations, and the regular expression for links.
--
-- Not modelled: logs and spans; downloads, files and capabilities of an evaluation; the code that the
-- inspection finds for a rule without annotations; the rendering of reports by templates; the
-- decoding and encoding of JSON and YAML; time limits; commands, signatures and caches of downloads,
-- which call libraries and services; the Rego builtins, and the uploads of the two storages.
pub mod Base
pub mod Evaluator
pub mod Snapshot
pub mod Http
pub mod Tracker
pub mod Policy
pub mod Output
pub mod Image
pub mod Validation
pub mod Vsa
pub mod Rule
pub mod Tracing
pub mod Support
mod Tests
