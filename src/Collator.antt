-- ===== src/Collator.antt =====
-- src/mcp_awareness/collator.py: suppressions, learned patterns and the briefing.
pub mod Suppression
pub mod Patterns
pub mod Summary
pub mod Briefing
mod Tests
