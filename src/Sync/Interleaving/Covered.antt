-- ===== src/Sync/Interleaving/Covered.antt =====
-- The mirror after passes over one VPS that interleave: SyncKaryawan of internal/sync/sync.go with
-- the source of internal/vpsmysql/client.go.
use mathlib.Core.Path.{subst}
use gateway_login.Base.{
  ℕ, ◌≡◌, refl, ap, Bool, Option, none, some, List, [], ◌∷◌, Text, ℤ, pos_part,
}
use gateway_login.Postgres.{Time}
use gateway_login.Vps.{KaryawanRow, Client, Faults, fetch_karyawan_updated_since}
use gateway_login.Sync.Store.{Db}
use gateway_login.Sync.Run.{World, watermark_of}
use gateway_login.Sync.Watermark.{sync_karyawan-Kept}
use gateway_login.Sync.Mirror.{IsTable}
use gateway_login.Sync.Mirror.Coverage.{IsCovered, IsCleanCut, vps, sync_karyawan-IsCovered}
use gateway_login.Sync.Steps.{Work, Next, more}
use gateway_login.Sync.Steps.Killed.{killed}
use gateway_login.Sync.Steps.Mirrored.{sync_karyawan-IsCovered_before, killed-IsCovered}
use gateway_login.Sync.Interleaving.{Turn, whole, cut, System, Passes, Reach, syncer, pass}
use gateway_login.Sync.Interleaving.Turns.{calls_of, serial, Cuts, Held}
use gateway_login.Sync.Interleaving.Serial.{Reach-Inv}

-- The passes of a resource over one table of the VPS.
abbrev pub over_vps :
    (Text → Text → Bool)
    → List KaryawanRow
    → Text
    → (ℕ → Faults)
    → (ℕ → Client)
    → (ℕ → ℤ)
    → (ℕ → World)
    → Passes Client
over_vps le table res faults client batch world = record {
  resource = res;
  src = λ i. vps le table (faults i);
  state = client;
  batch = batch;
  world = world;
}

module _ (le : Text → Text → Bool) (table : List KaryawanRow) (res : Text) (faults : ℕ → Faults)
    (client : ℕ → Client) (batch : ℕ → ℤ) (world : ℕ → World) where
  abbrev passes : Passes Client
  passes = over_vps le table res faults client batch world

  -- No LIMIT of a pass cuts through rows of one time.
  abbrev pub AreClean : Type 0
  AreClean = (i : ℕ) (since : Time) → IsCleanCut le table since (pos_part (client i).batch_size)

  -- The mirror is complete up to the watermark.
  abbrev pub IsComplete : Db → Type 0
  IsComplete db = IsCovered table (watermark_of res db) db.karyawan

  module _ (keyed : IsTable table) (clean : AreClean) where
    pub pass-IsComplete : (i : ℕ) (db : Db) → IsComplete db → IsComplete (pass passes i db).db
    pass-IsComplete i db old = go (pass passes i db).error refl
      where
        go : (e : Option Text) → (pass passes i db).error ≡ e → IsComplete (pass passes i db).db
        go none e =
            sync_karyawan-IsCovered le table (faults i) (world i) (syncer passes i) db keyed
              (clean i (watermark_of res db)) old e
        go (some c) e =
            let kept =
              sync_karyawan-Kept (vps le table (faults i)) (world i) (syncer passes i) db in
            rw (kept.failure c e res) (
              sync_karyawan-IsCovered_before le table (faults i) (world i) (syncer passes i) db
                (watermark_of res db) keyed old)

    -- What the calls of a pass leave before it has returned.
    killed-IsComplete :
        (i m : ℕ) (k : Work) (before d : Db)
        → IsComplete before
        → calls_of passes before i m before ≡ (more k, d)
        → IsComplete (
            killed
              (world i)
              res
              (fetch_karyawan_updated_since le (faults i) table (client i))
              m
              before)
    killed-IsComplete i m k before d old at =
        let (same, covered) =
          killed-IsCovered le table (faults i) (client i) (world i) res m before d k keyed old at in
        rw same covered

    called-IsComplete :
        (i m : ℕ) (k : Work) (before d : Db)
        → IsComplete before
        → calls_of passes before i m before ≡ (more k, d)
        → IsComplete d
    unfolding killed
    called-IsComplete i m k before d old at =
        subst IsComplete (ap (λ (x : Next × Db). x.1) at) (killed-IsComplete i m k before d old at)

    serial-IsComplete :
        (db : Db) (log : List Turn)
        → Cuts passes db log
        → IsComplete db
        → IsComplete (serial passes db log)
    serial-IsComplete db [] cuts old = old
    serial-IsComplete db (whole i ∷ log) cuts old =
        pass-IsComplete i (serial passes db log) (serial-IsComplete db log cuts old)
    serial-IsComplete db (cut i m ∷ log) ((k, d, at), cuts) old =
        killed-IsComplete i m k (serial passes db log) d (serial-IsComplete db log cuts old) at

    Held-IsComplete :
        (db : Db) (holder : Option ℕ) (log : List Turn) (s : System)
        → Cuts passes db log
        → IsComplete db
        → Held passes db holder log s
        → IsComplete s.db
    Held-IsComplete db none log s cuts old (same, no_holder) =
        rw same (serial-IsComplete db log cuts old)
    Held-IsComplete db (some i) log s cuts old (k, before, at, logged, rests, called, only) =
        called-IsComplete i k.made k.work (serial passes db before) s.db
          (serial-IsComplete db before (subst (Cuts passes db) logged cuts) old) called

-- Let passes of one resource over one table of the VPS, of which NIK_HRIS is a key, take their
-- steps in any order, each with its own faults, clocks and LIMIT, and let their processes be killed
-- between any two calls. If no LIMIT cuts through rows of one time and the mirror is complete up to
-- the watermark at the start, it is so at every moment: each row of the VPS that is not newer than
-- the watermark of the database is in the mirror as the VPS has it.
pub Reach-IsComplete :
    (le : Text → Text → Bool) (table : List KaryawanRow) (res : Text) (faults : ℕ → Faults)
    (client : ℕ → Client) (batch : ℕ → ℤ) (world : ℕ → World) (db : Db) (log : List Turn)
    (s : System)
    → IsTable table
    → AreClean le table res faults client batch world
    → IsComplete le table res faults client batch world db
    → Reach (over_vps le table res faults client batch world) db log s
    → IsComplete le table res faults client batch world s.db
Reach-IsComplete le table res faults client batch world db log s keyed clean old r =
    let inv = Reach-Inv (over_vps le table res faults client batch world) db r in
    Held-IsComplete le table res faults client batch world keyed clean db s.holder log s inv.cuts
      old inv.held
