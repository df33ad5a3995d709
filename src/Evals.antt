-- ===== src/Evals.antt =====
-- evals: the scripts that evaluate runs.
pub mod Majority
