-- ===== src/Calendar.antt =====
-- Python's `datetime`: an instant is a number of microseconds in UTC. `datetime.fromisoformat` is the
-- parameter `Calendar`.
use agent_of_record.Common.{ℕ, String, Option, nat_eq, string_eq, list_eq, option_eq}

-- A `datetime` with or without a time zone.
pub data Moment : Type 0 where
  aware : ℕ → Moment
  naive : Moment

pub record Calendar : Type 0 where
  -- `none` is a `ValueError`
  pub fromisoformat : String → Option Moment
