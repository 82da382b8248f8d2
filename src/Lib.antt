-- ===== src/Lib.antt =====
-- mcp-awareness: a server that keeps an awareness store for agents. Sources report their status
-- and alerts; suppressions and learned patterns filter the alerts; `generate_briefing` collates
-- what is left with the intentions that come due; MCP clients reach the tools over HTTP sessions
-- that several nodes share through a registry in Postgres. The development follows
-- src/mcp_awareness/.
--
-- The parts, and the files that model them:
-- - Base: shared names. Base/Lists and Base/Tests hold lists, options and Boolean tests over the
--   native numbers, Base/Int Python's int where it may be negative, Base/Text texts as lists of
--   code points (lower, split, strip, contains), Base/Decimal str(n) and join, Base/Dict a dict
--   with string keys as the list of its items, Base/Json the values of the json module.
-- - Schema: schema.py. The envelope `Entry`, a record whose payload type is a parameter,
--   `is_expired`, `is_stale` and the severity ranks. An instant is the number of microseconds
--   since 1970, and the clock's reading is an argument; `age_sec`, a float in the source, is
--   exact.
-- - Helpers: helpers.py. Helpers/Levenshtein `_levenshtein` with its rolling row, Helpers/Suggest
--   `_suggest` and `_validate_enum`, Helpers/Email `canonical_email`, Helpers/Pages
--   `_validate_pagination` and `_paginate` with the LIMIT clause of `_query_entries`
--   (postgres_store.py) and the list tools (tools.py). A message's wording is not modelled where
--   an error has structured fields.
-- - Collator: collator.py. Collator/Suppression `is_suppressed`, Collator/Patterns
--   `matches_pattern`, Collator/Summary the two texts, Collator/Briefing `generate_briefing`: the
--   loop over the sources in Sources, the store it calls as the interface of Interface, the rest
--   in Generate. What the collator relies on of the store is the record `BriefingStoreLaws`; the
--   store itself is a parameter, which Intentions/States fills. All readings of the clock in one briefing give the same instant.
-- - Sessions: session_registry.py. Sessions/Store the two tables with the statements of
--   sql/session_*.sql, Sessions/Messages the ASGI values, Sessions/Middleware the state, the
--   exceptions of the store's calls and the debounced touch, Sessions/Initialize,
--   Sessions/Subsequent and Sessions/Dispatch the handlers. The MCP application behind the
--   middleware is a parameter with a state of its own. Whether each call of the store raises is a
--   parameter of the request. One request runs as one step; the cleanup thread's run is a step of
--   its own.
-- - Auth: `AuthMiddleware` of middleware.py. Auth/Limiter the per-owner counters with their
--   eviction, Auth/Identity the self-signed and the OAuth check with the resolution of the user,
--   Auth/Admit `__call__` up to the application. What the JWT library makes of a token, the
--   provider's userinfo and the store's operations on users are parameters.
-- - Gateway: `SecretPathMiddleware`, `HealthMiddleware` and `WellKnownMiddleware` of
--   middleware.py.
-- - Proxy: the rate limiter and the decisions of oauth_proxy.py. The clock and the client's
--   address are arguments.
-- - Schema/Dicts: `to_dict` and `from_dict` of an entry; the text of an instant is a parameter.
-- - Store: the table `entries` of postgres_store.py and its statements. Store/Queries the reads,
--   Store/Writes the inserts and upserts, Store/Trash soft deletes, restores and the cleanup,
--   Store/Commands the writes of one owner as commands. The table is a dict by id whose rows hold
--   the owner, the time of deletion and the entry; an entry's data is the dict of its JSON object.
--   What the store takes from outside is `StoreEnv`: the texts of instants and the names in
--   pg_ts_config. A UniqueViolation is `none`.
-- - Knowledge: `update_entry` of postgres_store.py with the changelog, and in Knowledge/Upsert
--   `upsert_by_logical_key`.
-- - Intentions: the intentions of postgres_store.py. Intentions/Payloads reads an entry's data at
--   the keys that the collator reads, and Intentions/States makes the table an instance of the
--   interface in Collator/Briefing/Interface.
-- - Schemas: validation.py, with `find_schema` and `count_records_referencing` of
--   postgres_store.py. What the jsonschema package finds is an argument.
-- - Deletion: the tools `delete_entry` and `restore_entry` of tools.py, over Store and Schemas.
-- - Language: language.py. The detector of the lingua package is a parameter.
-- - Tools: the tools of tools.py that write, over Store, Knowledge, Intentions, Schemas and
--   Language: Tools/Reports, Tools/Notes, Tools/Records, Tools/Updates and Tools/Reminders. A tool
--   gives its answer and the table after it. `ToolEnv` holds what the json and jsonschema packages
--   make of a value. Ids that make_id draws and the clock's reading are arguments.
-- - Users: the table `users` of postgres_store.py as the interface that Auth/Identity takes; a
--   UniqueViolation is an exception of it. Users/Sequences runs logins over the table in sequence,
--   Users/Identities follows the identities through it and Users/Tables the table's constraints,
--   Users/Logins uses one token twice.
-- - Logs: the read and the action log of postgres_store.py. Logs/Order the sorting of the histories,
--   Logs/Unread and Logs/Feed what the log makes of the unread entries, the feed and the counts.
-- - Readers: the tools of tools.py that read, over Store and Logs: Readers/Knowledge `get_knowledge`,
--   where what the semantic search makes of a hint is an argument, and Readers the others. A tool
--   that logs reads gives the log after it. Schema/Lists is `to_list_dict`.
-- - Embeddings: embeddings.py up to the provider, the table `embeddings` of postgres_store.py,
--   `_do_embed` of server.py and the tool `backfill_embeddings`. The provider, the hash and Python's
--   str of a value are parameters.
--
-- Loops over lists are structural. `read_pages`, a client of the list tools, runs on fuel, and
-- one request more than there are rows is shown to be enough; `decimal` runs on fuel n + 1.
--
-- Not modelled: SQL beyond the statements above, connection pools, threads and the interleaving
-- of two requests inside one handler, the row-level security policies where they repeat a
-- statement's filter by owner, the debouncing of the cleanup,
-- the deletion of log rows with their entry, the checks of a token, the distances and text ranks of the
-- semantic search and the tool search over them, statistics, prompts, the command line and migrations.
pub mod Base
pub mod Schema
pub mod Helpers
pub mod Collator
pub mod Sessions
pub mod Auth
pub mod Gateway
pub mod Proxy
pub mod Store
pub mod Knowledge
pub mod Intentions
pub mod Schemas
pub mod Language
pub mod Deletion
pub mod Tools
pub mod Users
pub mod Logs
pub mod Readers
pub mod Embeddings
