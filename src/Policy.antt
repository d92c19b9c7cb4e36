-- ===== src/Policy.antt =====
-- The effective-permission simulation of admin-api/app/policy.py.
pub mod Topic
pub mod Evaluate
