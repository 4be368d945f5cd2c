-- ===== src/Sync/Interleaving/Serial.antt =====
-- Passes that interleave, against the same passes one after the other.
use mathlib.Core.List.{Memᴰ}
use mathlib.Core.Path.{subst}
use gateway_login.Base.{ℕ, ◌≡◌, refl, sym, ap, ◌∙◌, Option, none, some, List, ◌∷◌, Text, inl, inr}
use gateway_login.Sync.Store.{Db, begin}
use gateway_login.Sync.Steps.{inserting, Next, rest, steps}
use gateway_login.Sync.Interleaving.{
  waiting, holding, returned, Doing, first, Turn, Event, System, Passes, update, Step, begins,
  cannot_begin, cannot_lock, locks, works, dies, dies_early, grow, Reach, here, later,
}
use gateway_login.Sync.Interleaving.Turns.{
  passes_of, update-same, update-cases, IsPast, Once, alone, serial, Answer, Held, Inv,
  pass-cannot_begin, pass-cannot_lock, pass-locked, Held-put, Answers-update, Began-update,
  Past-update,
}
use gateway_login.Sync.Interleaving.Moves.{Inv-refused, Inv-works, Inv-dies, Inv-early}

module _ {S : Type 0} (p : Passes S) (db : Db) where
  Step-Inv :
      {log : List Turn} {s t : System} {event : Event}
      → Step p s event t
      → Inv p db log s
      → Inv p db (grow event log) t
  Step-Inv {log} {s} (begins i at fine) inv = record {
    held = Held-put p db s.holder log s i waiting (λ k q. absurd (cc)) (λ k q. cc) inv.held;
    began = Began-update p db s i waiting inv.began (λ q. fine);
    answers = Answers-update p db log s i waiting inv.answers (λ n c q. absurd (cc));
    past =
        Past-update p db (passes_of log) s i waiting inv.past (λ m. absurd ((inv.past i m).0 at));
    once = inv.once;
    cuts = inv.cuts;
  }
  Step-Inv {log} {s} (cannot_begin i e at bad) inv =
      Inv-refused p db log s i _ inv (λ k q. absurd (cc)) (λ d. pass-cannot_begin p db i e d bad)
  Step-Inv {log} {s} (cannot_lock i e at bad) inv =
      Inv-refused p db log s i _ inv (λ k q. absurd (cc))
        (λ d. pass-cannot_lock p db i e d (inv.began i at) bad)
  Step-Inv {log} {s} (locks i at fine free) inv =
      let (same, no_holder) = subst (λ h. Held p db h log s) free inv.held in
      record {
        held = (
          first s.db,
          log,
          update-same s.stage i (holding (first s.db)),
          refl,
          unfold rest in
              (sym (pass-locked p db i s.db (inv.began i at) fine) ∙ ap (alone p db i) same),
          unfold steps in ap (λ (d : Db). (Next.more (inserting (begin d)), d)) (sym same),
          λ j l q. elim (update-cases s.stage i (holding (first s.db)) j q) [
            | inl (own, e) ↦ own
            | inr (apart, e) ↦ absurd (no_holder j l e)
          ],
        );
        began = Began-update p db s i (holding (first s.db)) inv.began (λ q. absurd (cc));
        answers = λ j n e q. inr (
            Answers-update p db log s i (holding (first s.db)) inv.answers (λ n c q. absurd (cc)) j
              n e q);
        past = locked_past;
        once = (λ m. (inv.past i m).1 at, inv.once);
        cuts = inv.cuts;
      }
    where
      locked_past :
          (j : ℕ) → Memᴰ j (i ∷ passes_of log) → IsPast (update s.stage i (holding (first s.db)) j)
      locked_past j (Memᴰ.head e) =
          subst (λ m. IsPast (update s.stage i (holding (first s.db)) m)) (sym e)
            (subst IsPast (sym (update-same s.stage i (holding (first s.db)))) (λ q. cc, λ q. cc))
      locked_past j (Memᴰ.tail m) =
          Past-update p db (passes_of log) s i (holding (first s.db)) inv.past
            (λ m. (λ q. cc, λ q. cc)) j m
  Step-Inv {log} {s} (works i k at) inv = Inv-works p db log s i k at inv
  Step-Inv {log} {s} (dies i k at) inv = Inv-dies p db log s i k at inv
  Step-Inv {log} {s} (dies_early i at) inv = Inv-early p db log s i at inv

  pub Reach-Inv : {log : List Turn} {s : System} → Reach p db log s → Inv p db log s
  Reach-Inv here = record {
    held = (refl, λ i k q. absurd (cc));
    began = λ i q. absurd (cc);
    answers = λ i n e q. absurd (cc);
    past = λ i m. elim m [ ];
    once = tt;
    cuts = tt;
  }
  Reach-Inv (later r st) = Step-Inv st (Reach-Inv r)

  -- What the passes have done, when their steps have interleaved as they may.
  pub record IsSerial (log : List Turn) (s : System) : Type 0 where
    pub exclusive : (i j : ℕ) (k l : Doing) → s.stage i ≡ holding k → s.stage j ≡ holding l → i ≡ j
    pub database : s.holder ≡ none → s.db ≡ serial p db log
    pub answers : (i n : ℕ) (e : Option Text) → s.stage i ≡ returned n e → Answer p db log i n e
    pub once : Once (passes_of log)

  Held-exclusive :
      (holder : Option ℕ) (log : List Turn) (s : System)
      → Held p db holder log s
      → (i j : ℕ) (k l : Doing) → s.stage i ≡ holding k
      → s.stage j ≡ holding l
      → i ≡ j
  Held-exclusive none log s (same, no_holder) i j k l a b = absurd (no_holder i k a)
  Held-exclusive (some h) log s (m, before, there, logged, rests, called, only) i j k l a b =
      only i k a ∙ sym (only j l b)

  -- Let passes of one resource take their steps in any order, each with its own source, faults and
  -- clocks, and let their processes be killed between any two calls. Two of them never hold the
  -- lock together. When none holds it, the database is that of the passes run one after the other,
  -- each once, whole or up to the call after which it was killed, in the order in which they took
  -- the lock. Each pass that has returned has returned what it returns at its turn in that order, or,
  -- if it is not in it, what it returns on any database, which it leaves as it is.
  pub Reach-IsSerial : (log : List Turn) (s : System) → Reach p db log s → IsSerial log s
  Reach-IsSerial log s r =
      let inv = Reach-Inv r in
      record {
        exclusive = Held-exclusive s.holder log s inv.held;
        database = λ free. (subst (λ h. Held p db h log s) free inv.held).0;
        answers = inv.answers;
        once = inv.once;
      }
