-- ===== src/Tests.antt =====
-- Concrete inputs: the theorems applied where their hypotheses hold, and runs of the definitions.
mod Limits
mod Names
mod Lists
mod Decisions
mod Writes
mod Schedules
mod Spoofs
mod Feeds
mod Queries
mod Tables
mod Audits
mod Alerts
mod Cookies
mod Syncs
mod Summaries
use safe_road.Base.{ℕ, Text, none}
use safe_road.Domain.{Platform}

-- Texts in ASCII, and no URLs.
abbrev pub ascii : Platform
ascii = record { lower_wide = λ c. c; hostname = λ value. none }
