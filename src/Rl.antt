-- ===== src/Rl.antt =====
-- cwm/rl: the environments of reinforcement learning.
pub mod Transition
pub mod Trajectory
pub mod Rollout
pub mod SwerlTool
pub mod Outcomes
pub mod MathThink
mod Tests
