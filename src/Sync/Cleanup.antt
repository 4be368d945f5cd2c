-- ===== src/Sync/Cleanup.antt =====
-- `CleanupStaleRuns` of internal/sync/sync.go.
use gateway_login.Base.{
  ℕ, ◌+◌, ◌-◌, ◌/◌, ℤ, pos, negsuc, neg_i64, Bool, true, false, ◌&&◌, Option, none, some, [], ◌++◌,
  map, Text, text_eq, codes, Result, ok, err, if◌then◌else◌, ltb, length, select,
}
use gateway_login.Postgres.{Time}
use gateway_login.Sync.Store.{Status, running, success, failed, SyncRun, Db}

-- UPDATE sync_runs … WHERE resource = $2 AND status = 'running' AND started_at < $3
abbrev pub is_running : Status → Bool
is_running running = true
is_running success = false
is_running failed = false

unfoldable pub is_stale : Text → Time → SyncRun → Bool
is_stale resource cutoff r =
    text_eq r.resource resource && is_running r.status && ltb r.started_at cutoff

-- COALESCE(error, '') || …
abbrev pub coalesce : Option Text → Text
coalesce none = []
coalesce (some e) = e

unfoldable pub recovered : Time → SyncRun → SyncRun
recovered now r = record r {
  status = failed;
  finished_at = some now;
  error = some (coalesce r.error ++ codes " [recovered: stale running row]");
}

-- `t.Add(d)`, as the driver sends it: it cuts off what is less than a microsecond.
unfoldable pub add_duration : Time → ℤ → Time
add_duration t (pos n) = t + n / 1000
add_duration t (negsuc n) = t - (n + 1 + 999) / 1000

-- time.Now().UTC().Add(-stale)
unfoldable pub cutoff_of : Time → ℤ → Time
unfolding add_duration neg_i64
cutoff_of read_at stale = add_duration read_at (neg_i64 stale)

-- `stale` is in nanoseconds.
unfoldable pub cleanup_stale_runs : Option Text → Text → ℤ → Time → Time → Db → Result Text ℕ × Db
unfolding is_stale recovered cutoff_of
cleanup_stale_runs (some e) resource stale read_at now db = (err e, db)
cleanup_stale_runs none resource stale read_at now db =
    let cutoff = cutoff_of read_at stale in
    (
      ok (length (select (is_stale resource cutoff) db.tables.runs)),
      record db {
        tables = record db.tables {
          runs =
              map (λ r. if is_stale resource cutoff r then recovered now r else r) db.tables.runs;
        };
      },
    )
