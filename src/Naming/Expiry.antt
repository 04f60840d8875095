-- ===== src/Naming/Expiry.antt =====
-- The expiry rule of crates/federate-naming/src/lib.rs. Timestamps are chrono's: its parser and
-- its printer are parameters.
use federate.Base.{ℕ, Text, Bool, true, false, Option, none, some, ◌&&◌, ◌||◌, ltb_ℤ, leb_ℤ, leb, ℤ}

-- `chrono::DateTime<Utc>`: seconds since the epoch, and the nanoseconds within the second.
pub record DateTime : Type 0 where
  pub timestamp : ℤ
  pub nanos : ℕ

pub record Chrono : Type 0 where
  pub parse_from_rfc3339 : Text → Option DateTime
  pub to_rfc3339 : DateTime → Text

-- `t <= now`.
abbrev pub not_after : DateTime → DateTime → Bool
not_after t now =
    ltb_ℤ t.timestamp now.timestamp || leb_ℤ t.timestamp now.timestamp && leb t.nanos now.nanos

abbrev pub passed : DateTime → Option DateTime → Bool
passed now none = true
passed now (some t) = not_after t now

unfoldable pub expired_at : Chrono → Option Text → DateTime → Bool
expired_at chrono none now = false
expired_at chrono (some ts) now = passed now (chrono.parse_from_rfc3339 ts)
