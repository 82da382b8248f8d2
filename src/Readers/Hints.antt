-- ===== src/Readers/Hints.antt =====
-- What a hint does to the pages of get_knowledge (src/mcp_awareness/tools.py).
use mcp_awareness.Base.Dict.{Dict}
use mcp_awareness.Store.Queries
