-- ===== src/Examples.antt =====
-- The theorems at concrete inputs, over a runtime whose floats are natural numbers.
pub mod Data
mod Targets
mod Uploads
mod Policies
mod Results
mod Runs
pub mod Steps
mod Resumes
pub mod Contents
mod Sources
mod Exports
