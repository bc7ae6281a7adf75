-- ===== src/Outbound/Control.antt =====
-- The durable controls (backend/app/services/outbound_control.py), rows of one table, and the cache
-- that each process keeps of them.
--
-- A write of a database that does not answer is rolled back; a commit whose acknowledgement is lost is
-- left out. The caller's name, its reason and
-- the audit that `engage` writes in the same transaction are values; the clock is an argument.
pub mod Transitions
use ai_calling_agent.Common.{
  ℕ, zero, suc, ◌+◌, ◌-◌, Bool, true, false, not, ◌&&◌, String, List, [], ◌∷◌, Option, none, some,
  ltb, leb, ◌==◌, if◌then◌else◌, take, is_some,
}
use ai_calling_agent.Common.Result.{Result, ok, err}
use ai_calling_agent.Common.Text.{Text}
use ai_calling_agent.Calling.Window.{Time}

-- `KILL_SWITCH` and `PROVIDER_HALT`
pub data ControlKey : Type 0 where
  kill_switch provider_halt : ControlKey

-- `OutboundControl`
pub record ControlRow : Type 0 where
  pub engaged : Bool
  pub reason : Option Text
  pub category : Option Text
  pub engaged_by : Option Text
  pub engaged_at : Option Time
  pub released_by : Option Text
  pub released_at : Option Time

-- The table, and the audit rows written with its transitions.
pub record Controls : Type 0 where
  pub rows : ControlKey → Option ControlRow
  pub audits : List ControlKey

pub data ControlError : Type 0 where
  control_unavailable : ControlError

abbrev pub same_key : ControlKey → ControlKey → Bool
same_key kill_switch kill_switch = true
same_key provider_halt provider_halt = true
same_key _ _ = false

-- `_clip`: an empty text is stored as none.
abbrev pub clip : Option Text → ℕ → Option Text
clip none limit = none
clip (some value) limit = elim (take limit value) [ [] ↦ none | c ∷ rest ↦ some (c ∷ rest) ]

abbrev pub is_engaged : Option ControlRow → Bool
is_engaged none = false
is_engaged (some row) = row.engaged

abbrev pub put_control : ControlKey → ControlRow → Controls → Controls
put_control key row c = record c { rows = λ k. if same_key k key then some row else c.rows k }

-- `engage`: INSERT … ON CONFLICT DO UPDATE … WHERE NOT engaged, and the audit, if one is given.
unfoldable pub engage :
    Bool
    → Time
    → ControlKey
    → Text
    → Option Text
    → Option Text
    → Bool
    → Controls
    → Controls × Result ControlError Bool
engage db_up now key actor reason category audited c =
    if not db_up
    then (c, err control_unavailable)
    else if is_engaged (c.rows key)
    then (c, ok false)
    else let row : ControlRow = record {
      engaged = true;
      reason = clip reason 200;
      category = clip category 64;
      engaged_by = some actor;
      engaged_at = some now;
      released_by = none;
      released_at = none;
    } in
      let c1 = put_control key row c in
      (record c1 { audits = if audited then key ∷ c.audits else c.audits }, ok true)

-- `release`: UPDATE … WHERE engaged.
unfoldable pub release :
    Bool → Time → ControlKey → Text → Controls → Controls × Result ControlError Bool
release db_up now key actor c =
    if not db_up then (c, err control_unavailable) else elim (c.rows key) [
      | none ↦ (c, ok false)
      | some row ↦
          if row.engaged
          then (
            put_control key
                (record row { engaged = false; released_by = some actor; released_at = some now })
                c,
            ok true,
          )
          else (c, ok false)
    ]

-- A process's cache: when it was read, by the process's own clock, and the rows then.
pub record Cached : Type 0 where
  pub read_at : ℕ
  pub cached_rows : ControlKey → Option ControlRow

-- `read_all`: the cache while it is younger than its time to live, and else the table.
unfoldable pub read_all :
    Bool
    → ℕ
    → ℕ
    → Option Cached
    → Controls
    → Option Cached × Result ControlError (ControlKey → Option ControlRow)
read_all db_up ttl now cache c =
    let fresh : Option Cached = some (record { read_at = now; cached_rows = c.rows }) in
    let queried = if db_up then (fresh, ok c.rows) else (cache, err control_unavailable) in
    elim cache [
      | none ↦ queried
      | some cached ↦
          if leb cached.read_at now && ltb now (cached.read_at + ttl)
          then (some cached, ok cached.cached_rows)
          else queried
    ]
