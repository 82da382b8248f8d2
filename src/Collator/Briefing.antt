-- ===== src/Collator/Briefing.antt =====
-- `generate_briefing` of src/mcp_awareness/collator.py, over the operations of the store that it
-- calls. Every reading of the clock within one briefing gives the same instant.
pub mod Sources
pub mod Interface
pub mod Generate
pub mod Counts
pub mod Fired
pub mod PerSource
mod Tests
