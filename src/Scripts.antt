-- ===== src/Scripts.antt =====
-- scripts: what flows back from the review into the dictionary and the evaluation.
pub mod Merge
pub mod Templates
pub mod Synth
pub mod Verified
pub mod SeedDemo
