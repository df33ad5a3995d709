-- ===== src/Swerl.antt =====
-- cwm/rl/swerl: the tools of the agent and the grading of patches.
pub mod Edit
pub mod Grading
pub mod Log
pub mod Evaluation
pub mod Tools
