-- ===== src/Commands/Setup/Keeps.antt =====
-- What a run of cmd/setup keeps of the database: its one change is that of the initial
-- synchronisation.
use gateway_login.Base.{
  ◌≡◌, refl, Option, none, some, List, Text, codes, is_empty, Result, ok, err, ℤ, pos, leb_ℤ,
  if◌then◌else◌, Bool-cases, inl, inr,
}
use gateway_login.Vps.{Client}
use gateway_login.ApiKey.{KeyRow, insert_api_key}
use gateway_login.Sync.Store.{Db}
use gateway_login.Sync.Run.{new, sync_karyawan}
use gateway_login.Setup
use gateway_login.Setup.{Libraries, Files, Written}
use gateway_login.Commands.Source.{client_source}
use gateway_login.Commands.Setup.{
  Machine, System, outcome_of, synced, run_initial_sync, entry_of, with_inserted, with_migrations,
  with_pool, with_written, prompted, main,
}

-- The batch size of the initial synchronisation.
abbrev pub batch_of : Written → ℤ
batch_of w = if leb_ℤ w.config.sync.batch_size (pos 0) then pos 500 else w.config.sync.batch_size

-- What the prompts and the files give.
abbrev pub flow : Libraries → Machine → System → Result Text Written × Files
flow lib x s =
    Setup.run_prompt_flow lib (prompted lib x) (x.getenv (codes "GATEWAY_MASTER_KEY")) s.files

module _ (lib : Libraries) (x : Machine) (P : Db → Type 0) where
  -- The pass keeps it, with any client.
  abbrev pub PassKeeps : ℤ → Db → Type 0
  PassKeeps batch db =
      (c : Client)
      → P
          (sync_karyawan (client_source x.upstream) x.world (new (client_source x.upstream) c batch)
            db).db

  synced-keeps :
      (batch : ℤ) (r : Result Text Client) (db : Db)
      → P db
      → PassKeeps batch db
      → P (synced lib x batch r db).1
  unfolding synced outcome_of
  synced-keeps batch (err e) db h kept = h
  synced-keeps batch (ok c) db h kept = kept c

  module _ (w : Written) (s : System) (h : P s.db) (kept : PassKeeps (batch_of w) s.db) where
    inserted-keeps : (r : Option Text × List KeyRow) → P (with_inserted lib x w s r).system.db
    unfolding with_inserted run_initial_sync
    inserted-keeps (some e, keys) = h
    inserted-keeps (none, keys) = synced-keeps _ _ s.db h kept

    migrated-keeps : (r : Option Text) → P (with_migrations lib x w s r).system.db
    unfolding with_migrations
    migrated-keeps (some e) = h
    migrated-keeps none =
        inserted-keeps (insert_api_key x.insert x.now (some (entry_of lib x w)) s.keys)

    pooled-keeps : (r : Option Text) → P (with_pool lib x w s r).system.db
    unfolding with_pool
    pooled-keeps (some e) = h
    pooled-keeps none = migrated-keeps _

  pub main-keeps :
      (s : System)
      → P s.db
      → ((w : Written) (files : Files) → flow lib x s ≡ (ok w, files) → PassKeeps (batch_of w) s.db)
      → P (main lib x s).system.db
  unfolding main
  main-keeps s h kept = go (flow lib x s).0 (flow lib x s).1 refl
    where
      go :
          (r : Result Text Written) (files : Files)
          → flow lib x s ≡ (r, files)
          → P (with_written lib x s (r, files)).system.db
      go (err e) files at = unfold with_written in h
      go (ok w) files at =
          unfold with_written in
          elim (Bool-cases (is_empty (x.getenv (codes "POSTGRES_DSN")))) [
            | inl unset ↦ rw unset h
            | inr given ↦
                rw given (pooled-keeps w (record s { files = files }) h (kept w files at) _)
          ]
