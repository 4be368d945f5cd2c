-- ===== src/Commands/Setup/Laws.antt =====
-- How the command of cmd/setup ends: without an answer on the terminal, and with a key that is shown.
use mathlib.Core.List.{Memᴰ}
use gateway_login.Base.{
  ◌≡◌, refl, false, true, ◌++◌, Bool-cases, inl, inr, Option, none, some, Text, codes, is_empty,
  Result, ok, err,
}
use gateway_login.ApiKey.{KeyRow, Entry, get_by_hash, insert_api_key}
use gateway_login.Setup
use gateway_login.Setup.Terminal.{MatchesFields, ask_terminal-err}
use gateway_login.Setup.{
  run_prompt_flow, write_files, prepare, Libraries, Files, Written, hash_api_key,
}
use gateway_login.Setup.KeyEntry.{get_by_hash-insert_api_key, find_by_id-mem}
use gateway_login.Commands.Setup.{
  fatal, Machine, System, Summary, wired, Ended, with_inserted, with_migrations, with_pool,
  with_written, run_migrations, open_pool, migrations_dir, prompted, entry_of, main,
}

-- The key that is shown authenticates.
abbrev pub Authenticates : Libraries → Ended → Type 0
Authenticates lib o =
    (shown : Summary) × (o.shown ≡ some shown)
    × (k : Entry) × (get_by_hash none (hash_api_key lib shown.api_key) o.system.keys ≡ ok k)

module _ (lib : Libraries) (x : Machine) where
  abbrev Wired : Ended → Type 0
  Wired o = (e : Option Text) → o.exit ≡ wired e → Authenticates lib o

  module _ (s : System) (live : (r : KeyRow) → Memᴰ r s.keys → r.revoked ≡ false) (w : Written)
      (files : Files) where
    abbrev now_at : System
    now_at = record s { files = files }

    inserted-Wired :
        (fault : Option Text)
        → Wired (
            with_inserted lib x w now_at
              (insert_api_key fault x.now (some (entry_of lib x w)) s.keys))
    unfolding with_inserted
    inserted-Wired (some c) e h = unfold insert_api_key in absurd (cc)
    inserted-Wired none e h =
        let (k, found) =
          get_by_hash-insert_api_key lib x.now (some w.config) w.api_key (codes "default") s.keys
            (λ r here. live r (find_by_id-mem (entry_of lib x w).id s.keys r here)) in
        unfold insert_api_key in (_, refl, k, found)

    migrated-Wired : (r : Option Text) → Wired (with_migrations lib x w now_at r)
    unfolding with_migrations
    migrated-Wired (some c) e h = absurd (cc)
    migrated-Wired none e h = inserted-Wired x.insert e h

    pooled-Wired : (r : Option Text) → Wired (with_pool lib x w now_at r)
    unfolding with_pool
    pooled-Wired (some c) e h = absurd (cc)
    pooled-Wired none e h =
        migrated-Wired
          (run_migrations x.migrator (x.getenv (codes "POSTGRES_DSN")) (migrations_dir lib x)) e h

  written-Wired :
      (s : System)
      → ((r : KeyRow) → Memᴰ r s.keys → r.revoked ≡ false)
      → (r : Result Text Written) (files : Files) → Wired (with_written lib x s (r, files))
  unfolding with_written
  written-Wired s live (err c) files = λ e h. absurd (cc)
  written-Wired s live (ok w) files =
      elim (Bool-cases (is_empty (x.getenv (codes "POSTGRES_DSN")))) [
        | inl unset ↦ rw unset (λ e h. absurd (cc))
        | inr given ↦ rw given (pooled-Wired s live w files (open_pool x.open_pg x.ping_pg))
      ]

  -- Let no row of `api_keys` be revoked. If the command gets as far as its initial synchronisation,
  -- then the API key that it has shown authenticates, even if that synchronisation failed.
  pub main-Authenticates :
      (s : System)
      → ((r : KeyRow) → Memᴰ r s.keys → r.revoked ≡ false)
      → (e : Option Text) → (main lib x s).exit ≡ wired e
      → Authenticates lib (main lib x s)
  unfolding main
  main-Authenticates s live =
      let (w, files) =
        Setup.run_prompt_flow lib (prompted lib x) (x.getenv (codes "GATEWAY_MASTER_KEY"))
          s.files in
      written-Wired s live w files

  -- Let survey match questions to fields as it documents. Without SETUP_HOST the questions go to
  -- the terminal, and the command always ends with an error of the prompt, having shown and
  -- changed nothing.
  pub main-terminal :
      (s : System)
      → MatchesFields x.survey
      → is_empty (x.getenv (codes "SETUP_HOST")) ≡ true
      → (e : Text) × (main lib x s ≡ record {
        exit = fatal (codes "setup: " ++ (codes "prompt: " ++ e));
        shown = none;
        system = s;
      })
  unfolding main prompted with_written run_prompt_flow write_files prepare
  main-terminal s good unset =
      let (e, bad) = ask_terminal-err x.survey good in (e, rw (unset, bad) refl)
