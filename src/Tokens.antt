-- ===== src/Tokens.antt =====
-- scripts/agent-token-report.py: token usage, from the session logs of two agents.
pub mod Values
pub mod Claude
pub mod Codex
pub mod Summary
pub mod Text
