-- ===== src/Tokens.antt =====
-- src/api/reviewer_tokens.py: the per-reviewer tokens.
pub mod Limiter
pub mod Registry
mod Samples
