-- ===== src/Evaluator.antt =====
-- internal/evaluator: which rules a policy configuration selects, and what becomes of the results
-- that the rules give.
pub mod Info
pub mod Criteria
pub mod Score
pub mod Result
pub mod Matchers
pub mod Resolver
pub mod Prefilter
pub mod Postfilter
pub mod Trim
pub mod Annotate
pub mod Evaluate
