-- ===== src/Sync/Store.antt =====
-- The tables `sync_runs` and `sync_state`, the statements of internal/sync/sync.go on them, and
-- the transaction that a pass holds.
use gateway_login.Base.{
  ℕ, Bool, true, false, Option, none, some, List, [], ◌∷◌, ◌++◌, map, Text, text_eq, codes,
  if◌then◌else◌, ◌==◌,
}
use gateway_login.Postgres.{Time}
use gateway_login.Karyawan.Table.{Record}

pub data Status : Type 0 where
  running success failed : Status

-- A row of `sync_runs`; `id` is its UUID.
pub record SyncRun : Type 0 where
  pub id : ℕ
  pub resource : Text
  pub started_at : Time
  pub finished_at : Option Time
  pub rows_upserted : ℕ
  pub status : Status
  pub error : Option Text

-- A row of `sync_state`.
pub record SyncState : Type 0 where
  pub resource : Text
  pub watermark : Option Time
  pub last_run_at : Option Time
  pub last_status : Option Status
  pub last_error : Option Text

pub record Tables : Type 0 where
  pub runs : List SyncRun
  pub states : List SyncState

-- What is committed.
pub record Db : Type 0 where
  pub karyawan : List Record
  pub tables : Tables

-- The statements.
abbrev pub new_run : ℕ → Text → Time → SyncRun
new_run id resource started_at = record {
  id = id;
  resource = resource;
  started_at = started_at;
  finished_at = none;
  rows_upserted = 0;
  status = running;
  error = none;
}

unfoldable pub insert_run : ℕ → Text → Time → Tables → Tables
insert_run id resource started_at t = record t {
  runs = t.runs ++ new_run id resource started_at ∷ [];
}

-- UPDATE sync_runs SET … WHERE id = …
unfoldable pub update_run : ℕ → (SyncRun → SyncRun) → Tables → Tables
update_run id set t = record t { runs = map (λ r. if r.id == id then set r else r) t.runs }

unfoldable pub run_failed : ℕ → Time → Text → Tables → Tables
run_failed id at cause =
    update_run id (λ r. record r { finished_at = some at; status = failed; error = some cause })

unfoldable pub run_succeeded : ℕ → Time → ℕ → Tables → Tables
run_succeeded id at rows =
    update_run id (λ r. record r { finished_at = some at; rows_upserted = rows; status = success })

-- INSERT INTO sync_state … ON CONFLICT (resource) DO UPDATE SET …
unfoldable pub put_state : SyncState → (SyncState → SyncState) → List SyncState → List SyncState
put_state new set [] = new ∷ []
put_state new set (s ∷ ss) =
    let rest = put_state new set ss in
    if text_eq s.resource new.resource then set s ∷ ss else s ∷ rest

unfoldable pub state_failed : Text → Time → Text → Tables → Tables
state_failed resource at cause t = record t {
  states =
      put_state
        (record {
          resource = resource;
          watermark = none;
          last_run_at = some at;
          last_status = some failed;
          last_error = some cause;
        })
        (λ s. record s {
          last_run_at = some at;
          last_status = some failed;
          last_error = some cause;
        })
        t.states;
}

abbrev pub succeeded_row : Text → Time → Time → SyncState
succeeded_row resource watermark at = record {
  resource = resource;
  watermark = some watermark;
  last_run_at = some at;
  last_status = some success;
  last_error = none;
}

-- `resource` is the key, and is not set.
abbrev pub set_succeeded : Time → Time → SyncState → SyncState
set_succeeded watermark at s = record s {
  watermark = some watermark;
  last_run_at = some at;
  last_status = some success;
  last_error = none;
}

unfoldable pub state_succeeded : Text → Time → Time → Tables → Tables
state_succeeded resource watermark at t = record t {
  states = put_state (succeeded_row resource watermark at) (set_succeeded watermark at) t.states;
}

-- A transaction: the tables as it sees them. A statement that fails aborts it: PostgreSQL refuses
-- every later statement, and a commit rolls back.
pub record Tx : Type 0 where
  pub tables : Tables
  pub aborted : Bool

abbrev pub begin : Db → Tx
begin db = record { tables = db.tables; aborted = false }

-- The error of a statement, and the transaction after it; the first argument says whether the
-- transaction is aborted.
unfoldable pub run_statement : Bool → Option Text → (Tables → Tables) → Tx → Option Text × Tx
run_statement true fault stmt tx = (some (codes "current transaction is aborted"), tx)
run_statement false none stmt tx = (none, record tx { tables = stmt tx.tables })
run_statement false (some e) stmt tx = (some e, record tx { aborted = true })

abbrev pub exec : Option Text → (Tables → Tables) → Tx → Option Text × Tx
exec fault stmt tx = run_statement tx.aborted fault stmt tx

unfoldable pub end_tx : Bool → Option Text → Tx → Db → Option Text × Db
end_tx true fault tx db = (some (codes "commit unexpectedly resulted in rollback"), db)
end_tx false none tx db = (none, record db { tables = tx.tables })
end_tx false (some e) tx db = (some e, db)

abbrev pub commit : Option Text → Tx → Db → Option Text × Db
commit fault tx db = end_tx tx.aborted fault tx db

-- SELECT watermark FROM sync_state WHERE resource = …: no row, or a row with its watermark.
unfoldable pub find_state : Text → List SyncState → Option SyncState
find_state resource [] = none
find_state resource (s ∷ ss) =
    if text_eq s.resource resource then some s else find_state resource ss
