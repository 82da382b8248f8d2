-- ===== src/Schema.antt =====
-- src/mcp_awareness/schema.py: the envelope of every entry of the store. An instant is the number
-- of microseconds since 1970-01-01T00:00Z; the clock's reading is an argument. The payload `data`
-- is a type parameter: each kind of entry has a record for the keys that its writers set.
pub mod Dicts
pub mod Lists
mod Tests
use mcp_awareness.Base.{
  ℕ, ◌+◌, ◌-◌, ◌*◌, ◌/◌, ◌%◌, Bool, false, String, List, Option, none, some, ltb, leb, str_eq,
  if◌then◌else◌, or_else,
}
use mcp_awareness.Base.Int.{ℤ, pos, negsuc}

pub data EntryType : Type 0 where
  status alert pattern_entry suppression context preference note intention schema record_entry :
      EntryType

pub record Entry (D : Type 0) : Type 0 where
  pub id : String
  pub entry_type : EntryType
  pub source : String
  pub tags : List String
  pub created : ℕ
  pub updated : Option ℕ
  pub expires : Option ℕ
  pub payload : D
  pub logical_key : Option String
  pub language : String

-- SEVERITY_RANK.get(level, -1)
unfoldable pub severity_rank : String → ℤ
severity_rank level =
    if str_eq level "info"
    then pos 0
    else if str_eq level "warning"
    then pos 1
    else if str_eq level "critical"
    then pos 2
    else negsuc 0

abbrev pub is_status : EntryType → Bool
is_status EntryType.status = Bool.true
is_status _ = false

abbrev pub microseconds : ℕ → ℕ
microseconds s = s * 1000000

-- `self.updated or self.created`
abbrev pub last_change : {D : Type 0} → Entry D → ℕ
last_change e = or_else e.updated e.created

unfoldable pub is_expired : {D : Type 0} → ℕ → Entry D → Bool
is_expired now e = elim e.expires [ none ↦ false | some t ↦ leb t now ]

-- `self.age_sec > float(ttl)`, with the subtraction of the age moved to the other side
unfoldable pub older_than : ℕ → ℕ → ℤ → Bool
older_than now ref (pos ttl) = ltb (ref + microseconds ttl) now
older_than now ref (negsuc n) = ltb ref (now + microseconds (n + 1))

-- the data of a status entry
pub record StatusData : Type 0 where
  pub ttl_sec : Option ℤ

unfoldable pub is_stale : ℕ → Entry StatusData → Bool
unfolding older_than
is_stale now e =
    if is_status e.entry_type
    then elim e.payload.ttl_sec [ none ↦ false | some ttl ↦ older_than now (last_change e) ttl ]
    else false

-- int(self.age_sec), for a change that does not lie in the future
unfoldable pub age_seconds : {D : Type 0} → ℕ → Entry D → ℕ
age_seconds now e = (now - last_change e) / 1000000

-- now.weekday(): 0 is Monday, and 1970-01-01 was a Thursday
unfoldable pub weekday : ℕ → ℕ
weekday now = (now / 86400000000 + 3) % 7

-- now.hour
unfoldable pub hour : ℕ → ℕ
hour now = now / 3600000000 % 24
