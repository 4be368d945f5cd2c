-- ===== src/Commands/Sync/Start.antt =====
-- A start of cmd/sync that goes on to its scheduler: with which settings, and what stays open.
use mathlib.Core.Path.{subst}
use gateway_login.Base.{
  ◌≡◌, refl, ap, Option, none, some, ◌++◌, Text, codes, Result, ok, err, map_err, map_err-ok,
  >>=-ok, true, false, sym, arith, ℤ, pos, negsuc, ap₂, leb_ℤ, ltb_ℤ, if◌then◌else◌, Bool-cases,
  inl, inr,
}
use gateway_login.Stored
use gateway_login.Stored.{Config}
use gateway_login.Bootstrap.{Opened, Deps, close, run, must_run}
use gateway_login.Bootstrap.Laws.{Closes, run-Closes}
use gateway_login.Vps.{Client, set_batch_size}
use gateway_login.Vps.Connect.{new_client_from_store_config}
use gateway_login.Sync.Run.{new}
use gateway_login.Commands.Source.{Upstream, client_source}
use gateway_login.Commands.Sync.{
  Machine, Started, Process, spec_of, scheduled, with_config, cleaned, with_file, with_deps, start,
}

-- The batch size in use.
abbrev pub size_or_default : ℤ → ℤ
size_or_default n = if leb_ℤ n (pos 0) then pos 500 else n

-- The connection is that of the stored configuration; the batch sizes, of the syncer and of its
-- source, are that of the environment; and the connections that are open are those of `deps`.
pub record IsStarted (x : Machine) (p : Process) (st : Started) (q : Process) : Type 0 where
  pub cfg : Config
  pub client : Client
  pub loaded : Stored.load x.yaml x.read_config x.config ≡ ok cfg
  pub connected :
      new_client_from_store_config x.driver x.cipher
        (some cfg.vps)
        st.deps.cfg.master_key
        st.deps.cfg.sync_batch_size
      ≡ ok client
  pub batch : st.syncer.batch ≡ size_or_default st.deps.cfg.sync_batch_size
  pub source : st.syncer.src.batch_size ≡ st.syncer.batch
  pub resource : st.syncer.resource ≡ codes "karyawan"
  pub spec : st.spec ≡ spec_of x st.deps cfg
  pub accepted : x.add_func st.spec ≡ none
  pub db : q.db ≡ cleaned x st.deps p.db
  pub closes : close (some st.deps) q.opened ≡ p.opened

pub new-sized :
    (up : Upstream) (vps : Client) (n : ℤ)
    → (new (client_source up) vps n).src.batch_size ≡ size_or_default n
unfolding new set_batch_size
new-sized up vps n = elim (Bool-cases (leb_ℤ n (pos 0))) [
  | inl none_given ↦ rw none_given refl
  | inr given ↦ rw (given, positive n given) refl
]
  where
    positive : (n : ℤ) → leb_ℤ n (pos 0) ≡ false → ltb_ℤ (pos 0) n ≡ true
    positive (pos n) h = ground (arith, h)
    positive (negsuc n) h = ground (arith, h)

module _ (x : Machine) where
  with_config-IsStarted :
      (p q : Process) (d : Deps) (cfg : Config) (st : Started)
      → Stored.load x.yaml x.read_config x.config ≡ ok cfg
      → q.db ≡ cleaned x d p.db
      → close (some d) q.opened ≡ p.opened
      → with_config x d cfg ≡ ok st
      → IsStarted x p st q
  unfolding with_config
  with_config-IsStarted p q d cfg st loaded at_db at_end h =
      let made =
        new_client_from_store_config x.driver x.cipher (some cfg.vps) d.cfg.master_key
          d.cfg.sync_batch_size in
      let (vps, h1, wrapped) = >>=-ok _ (map_err (λ e. codes "vps mysql: " ++ e) made) h in
      go vps (map_err-ok _ made wrapped) (x.add_func (spec_of x d cfg)) refl h1
    where
      go :
          (vps : Client)
          → new_client_from_store_config x.driver x.cipher
              (some cfg.vps)
              d.cfg.master_key
              d.cfg.sync_batch_size
            ≡ ok vps
          → (added : Option Text) → x.add_func (spec_of x d cfg) ≡ added
          → scheduled x d cfg vps added ≡ ok st
          → IsStarted x p st q
      go vps connected (some e) adds h = absurd (unfold scheduled in cc)
      go vps connected none adds h =
          let same : record {
            deps = d;
            syncer = new (client_source x.upstream) vps d.cfg.sync_batch_size;
            spec = spec_of x d cfg;
          }
              ≡ st =
            unfold scheduled in cc in
          subst (λ u. IsStarted x p u q) same
            (record {
              cfg = cfg;
              client = vps;
              loaded = loaded;
              connected = connected;
              batch = unfold new in refl;
              source = unfold new in new-sized x.upstream vps d.cfg.sync_batch_size;
              resource = unfold new in refl;
              spec = refl;
              accepted = adds;
              db = at_db;
              closes = at_end;
            })

  with_file-IsStarted :
      (p : Process) (d : Deps) (o : Opened) (st : Started) (q : Process) (r : Result Text Config)
      → Stored.load x.yaml x.read_config x.config ≡ r
      → close (some d) o ≡ p.opened
      → with_file x d r p.db ≡ (ok st, q.db)
      → q.opened ≡ o
      → IsStarted x p st q
  unfolding with_file
  with_file-IsStarted p d o st q (err e) loads closes h at = absurd (cc)
  with_file-IsStarted p d o st q (ok cfg) loads closes h at =
      with_config-IsStarted p q d cfg st loads (cc)
        (subst (λ u. close (some d) u ≡ p.opened) (sym at) closes) (cc)

  -- A start that succeeds has loaded the configuration and opened the VPS with it. Its passes, and
  -- their queries, take the batch size of the environment, or 500 if that is not positive, whatever
  -- the configuration says; the scheduler has accepted the interval of the configuration, or that
  -- of the environment if it is empty; the database is as the recovery of stale runs leaves it;
  -- and closing what the start returned leaves open what was open before.
  pub start-IsStarted :
      (p : Process) (st : Started) (q : Process) → start x p ≡ (ok st, q) → IsStarted x p st q
  unfolding start must_run
  start-IsStarted p st q h =
      let r = run x.settings x.getenv x.boot p.opened in
      go r.0 r.1 (run-Closes x.settings x.getenv x.boot p.opened) h
    where
      go :
          (r : Result Text Deps) (o : Opened)
          → Closes x.boot p.opened (r, o)
          → with_deps x (map_err (λ e. codes "bootstrap: " ++ e) r, o) p.db ≡ (ok st, q)
          → IsStarted x p st q
      go (err e) o closes h = absurd (unfold with_deps in cc)
      go (ok d) o closes h =
          unfold with_deps in
          with_file-IsStarted p d o st q (Stored.load x.yaml x.read_config x.config) refl closes.1
            (ap₂ (λ a b. (a, b)) (ap (λ (u : Result Text Started × Process). u.0) h)
              (ap (λ (u : Result Text Started × Process). u.1.db) h))
            (ap (λ (u : Result Text Started × Process). u.1.opened) (sym h))
