-- ===== src/Work/Tests.antt =====
-- The theorems of the Work module at concrete databases.
pub mod Data
mod Runs
mod Access
mod Worker
