-- ===== src/Auth/Limiter.antt =====
-- The per-owner concurrency limit of `AuthMiddleware.__call__` of src/mcp_awareness/middleware.py.
-- The lock makes each of its two blocks one step.
pub mod Counts
use mcp_awareness.Base.{
  ℕ, ◌+◌, ◌-◌, ◌≡◌, Bool, false, ◌||◌, String, List, [], ◌∷◌, ◌++◌, Option, none, some, ltb, leb,
  ◌==◌, if◌then◌else◌, or_else, length, drop,
}
use mcp_awareness.Base.Dict.{Dict, lookup, insert, remove}

pub record Limits : Type 0 where
  pub max_concurrent : ℕ
  pub max_owners : ℕ

-- `_owner_inflight.get(owner_id, 0)`
abbrev pub inflight_of : String → Dict ℕ → ℕ
inflight_of owner d = or_else (lookup owner d) 0

-- the new count at the end of the order, as `move_to_end` leaves it
unfoldable pub count_last : String → ℕ → Dict ℕ → Dict ℕ
count_last owner n d = remove owner d ++ (owner, n) ∷ []

abbrev pub overflows : Limits → Dict ℕ → Bool
overflows c d = ltb c.max_owners (length d)

-- `popitem(last=False)`, if there are too many owners
unfoldable pub evict : Limits → Dict ℕ → Dict ℕ
evict c d = if overflows c d then drop 1 d else d

-- the block before the request is served; `none` is a request over the limit
unfoldable pub acquire : Limits → String → Dict ℕ → Option (Dict ℕ)
unfolding count_last evict
acquire c owner d =
    if leb c.max_concurrent (inflight_of owner d)
    then none
    else some (evict c (count_last owner (inflight_of owner d + 1) d))

-- the block of the `finally`
unfoldable pub release : String → Dict ℕ → Dict ℕ
release owner d =
    let new_count = or_else (lookup owner d) 1 - 1 in
    if new_count == 0 then remove owner d else insert owner new_count d

-- The counters, the owners of the requests that are being served, and whether an owner's counter
-- was ever evicted.
pub record Gate : Type 0 where
  pub counters : Dict ℕ
  pub running : List String
  pub evicted : Bool

abbrev pub closed : Gate
closed = record { counters = []; running = []; evicted = false }

pub data Step (c : Limits) (g : Gate) : Gate → Type 0 where
  enter :
      {h : Gate} (owner : String)
      → acquire c owner g.counters ≡ some h.counters
      → h.running ≡ owner ∷ g.running
      → h.evicted
        ≡ g.evicted || overflows c (count_last owner (inflight_of owner g.counters + 1) g.counters)
      → Step c g h
  leave :
      {h : Gate} (owner : String) (before after : List String)
      → g.running ≡ before ++ owner ∷ after
      → h.counters ≡ release owner g.counters
      → h.running ≡ before ++ after
      → h.evicted ≡ g.evicted
      → Step c g h

pub data Reach (c : Limits) : Gate → Type 0 where
  start : Reach c closed
  next : {g h : Gate} → Reach c g → Step c g h → Reach c h
