-- ===== src/Postgres.antt =====
-- What the program relies on of PostgreSQL and its driver: the points in time that the databases
-- keep, how two texts compare there, and the driver's count of a statement's arguments.
use gateway_login.Base.{ℕ, ◌-◌, ◌*◌, ◌%◌, ◌≡◌, ◌≢◌, Bool, true, false, Text}

-- A `time.Time` in UTC as both databases keep it: microseconds since Go's zero time, the first of
-- January of the year 1. (MySQL's DATETIME has no earlier one.)
abbrev pub Time : Type 0
Time = ℕ

abbrev pub seconds : ℕ → ℕ
seconds n = n * 1000000

abbrev pub day : Time
day = seconds 86400

-- time.Unix(0, 0)
abbrev pub unix_epoch : Time
unix_epoch = seconds 62135596800

-- A `date` column keeps the day alone.
abbrev pub date_of : Time → Time
date_of t = t - t % day

pub record Postgres : Type 0 where
  -- `value ILIKE pattern`
  pub ilike : Text → Text → Bool
  -- The collation: `a` does not come after `b` in ORDER BY.
  pub collate_le : Text → Text → Bool
  -- Whether the driver sends a statement with `n` placeholders and `m` arguments.
  pub sends : ℕ → ℕ → Bool

-- The driver's documented check of the argument count.
pub record CountsArguments (pg : Postgres) : Type 0 where
  pub equal : (n : ℕ) → pg.sends n n ≡ true
  pub unequal : (n m : ℕ) → n ≢ m → pg.sends n m ≡ false
