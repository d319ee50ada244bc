-- ===== src/Refresh.antt =====
-- ci/base-refresh.py and ci/base-bump-guard.py: the versions, the reviewed policy, and the decision
-- whether a base bump may merge without review.
pub mod Version
pub mod Policy
pub mod Bump
pub mod Previous
pub mod Baseline
pub mod Evidence
pub mod Validate
pub mod Attested
pub mod Installed
