-- ===== src/Tests.antt =====
-- Each theorem with conditions or arguments at a small policy, image or tracker.
mod Data
mod Policies
mod Results
mod Services
mod Sorting
mod Security
mod Targets
mod Summaries
