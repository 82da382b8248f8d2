-- ===== src/Helpers.antt =====
-- src/mcp_awareness/helpers.py: the pure helpers of the tool layer, a module for each group.
pub mod Levenshtein
pub mod Suggest
pub mod Pages
pub mod Email
mod Tests
