-- ===== src/Store/Dead.antt =====
-- The reaper's SQL condition against the Go predicate that hides a dead upload from readers.
use sendan.Prelude.{ℕ, ◌*◌, ◌/◌, ◌≤◌, ◌≡◌, true, not, Option, none, some, leb, arith}
use sendan.Store.Upload.{second, live}
use sendan.Store.Table.{Row, scan_upload, dead_row, unix, is_some}

-- A time column that is not NULL holds a positive number of seconds: no column is the zero time.
abbrev pub IsPositive : Option ℕ → Type 0
IsPositive none = Unit
IsPositive (some s) = 1 ≤ s

-- What every row of the table satisfies: its times are times, and its download count is the number
-- of whole files that its served bytes make.
pub record IsWellFormed (r : Row) : Type 0 where
  pub dated : IsPositive r.completed_at
  pub due : IsPositive r.expires_at
  pub counted : 1 ≤ r.size → r.download_count ≡ r.bytes_served / r.size

expiry_agrees : (e now : ℕ) → leb e (now / second) ≡ leb (e * second) now
expiry_agrees e now = ground arith

-- On a completed row the WHERE clause of `selectDead` holds exactly when `Live` does not: the SQL
-- compares whole seconds and the Go code nanoseconds, and they agree at every instant.
pub dead_row-live :
    (r : Row) (now abandoned : ℕ)
    → IsWellFormed r
    → is_some r.completed_at ≡ true
    → dead_row (unix now) (unix abandoned) r ≡ not (live (scan_upload r) now)
unfolding dead_row live scan_upload unix
dead_row-live r now abandoned w c = ground arith
