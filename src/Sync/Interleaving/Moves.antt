-- ===== src/Sync/Interleaving/Moves.antt =====
-- What the calls of a pass, and its death, do to the invariant of passes that interleave.
use mathlib.Core.Path.{subst}
use gateway_login.Base.{
  ℕ, suc, ◌≡◌, ◌≢◌, refl, sym, ap, ◌∙◌, Option, none, some, List, ◌∷◌, Text, inl, inr, ◌⊎◌,
}
use gateway_login.Sync.Store.{Db}
use gateway_login.Sync.Run.{Outcome}
use gateway_login.Sync.Steps.Killed.{killed, steps-suc}
use gateway_login.Sync.Steps.Rest.{rest_of-advance}
use gateway_login.Sync.Steps.{Next, more, over, rest_of}
use gateway_login.Sync.Interleaving.{
  Stage, idle, waiting, dead, holding, returned, Doing, Turn, whole, cut, died, System, Passes,
  update, put, next, worked, grow,
}
use gateway_login.Sync.Interleaving.Turns.{
  calls_of, passes_of, Rests, Called, update-same, update-cases, alone, serial, Answer, Held, Inv,
  Answer-anywhere, Held-put, Answers-update, Began-update, Past-update,
}

module _ {S : Type 0} (p : Passes S) (db : Db) where
  -- A pass that returns without the lock.
  pub Inv-refused :
      (log : List Turn) (s : System) (i : ℕ) (e : Option Text)
      → Inv p db log s
      → ((k : Doing) → s.stage i ≢ holding k)
      → ((d : Db) → alone p db i d ≡ record { count = 0; error = e; db = d })
      → Inv p db log (put s i (returned 0 e))
  Inv-refused log s i e inv was same = record {
    held = Held-put p db s.holder log s i (returned 0 e) was (λ k q. cc) inv.held;
    began = Began-update p db s i (returned 0 e) inv.began (λ q. absurd (cc));
    answers =
        Answers-update p db log s i (returned 0 e) inv.answers
          (λ n c q. Answer-anywhere p db log i n c (λ d. same d ∙ outcome n c d q));
    past = Past-update p db (passes_of log) s i (returned 0 e) inv.past (λ m. (λ q. cc, λ q. cc));
    once = inv.once;
    cuts = inv.cuts;
  }
    where
      outcome :
          (n : ℕ) (c : Option Text) (d : Db)
          → Stage.returned 0 e ≡ returned n c
          → ◌≡◌ {A = Outcome}
              (record { count = 0; error = e; db = d })
              (record { count = n; error = c; db = d })
      outcome n c d q = cc

  -- The pass that holds the lock goes on, or returns.
  Inv-worked :
      (log before : List Turn) (s : System) (i : ℕ) (k : Doing)
      → Inv p db log s
      → s.holder ≡ some i
      → s.stage i ≡ holding k
      → log ≡ whole i ∷ before
      → ((j : ℕ) (l : Doing) → s.stage j ≡ holding l → j ≡ i)
      → (r : Next × Db)
      → rest_of (p.world i) p.resource ((p.src i).fetch (p.state i)) r
        ≡ alone p db i (serial p db before)
      → calls_of p db i (suc k.made) (serial p db before) ≡ r
      → Inv p db log (worked s i k.made r)
  unfolding rest_of
  Inv-worked log before s i k inv holds at logged only (more l, d) same called = record {
    held =
        subst
          (λ h. Held p db h log (record s {
            stage = update s.stage i (holding (record { made = suc k.made; work = l }));
            db = d;
          }))
          (sym holds)
          (
            record { made = suc k.made; work = l },
            before,
            update-same s.stage i (holding (record { made = suc k.made; work = l })),
            logged,
            same,
            called,
            λ j m q.
                elim (update-cases s.stage i (holding (record { made = suc k.made; work = l })) j
                  q) [ inl (own, e) ↦ own | inr (apart, e) ↦ only j m e ],
          );
    began =
        Began-update p db s i (holding (record { made = suc k.made; work = l })) inv.began
          (λ q. absurd (cc));
    answers =
        Answers-update p db log s i (holding (record { made = suc k.made; work = l })) inv.answers
          (λ n c q. absurd (cc));
    past =
        Past-update p db (passes_of log) s i (holding (record { made = suc k.made; work = l }))
          inv.past (λ m. (λ q. cc, λ q. cc));
    once = inv.once;
    cuts = inv.cuts;
  }
  Inv-worked log before s i k inv holds at logged only (over n e, d) same called = record {
    held = (
      subst (λ l. d ≡ serial p db l) (sym logged) (ap (λ (o : Outcome). o.db) same),
      λ j m q. elim (update-cases s.stage i (returned n e) j q) [
        | inl (own, q) ↦ absurd (cc)
        | inr (apart, e) ↦ absurd (apart (only j m e))
      ],
    );
    began = Began-update p db s i (returned n e) inv.began (λ q. absurd (cc));
    answers = Answers-update p db log s i (returned n e) inv.answers turn;
    past = Past-update p db (passes_of log) s i (returned n e) inv.past (λ m. (λ q. cc, λ q. cc));
    once = inv.once;
    cuts = inv.cuts;
  }
    where
      turn : (m : ℕ) (c : Option Text) → returned n e ≡ returned m c → Answer p db log i m c
      turn m c q =
          subst (λ l. Answer p db l i m c) (sym logged)
            (inl (
              refl,
              sym (ap (λ (o : Outcome). o.count) same) ∙ cc,
              sym (ap (λ (o : Outcome). o.error) same) ∙ cc,
            ))

  -- What the invariant says of a pass that is found with the lock.
  record Holds (log : List Turn) (s : System) (i : ℕ) (k : Doing) : Type 0 where
    before : List Turn
    holds : s.holder ≡ some i
    logged : log ≡ whole i ∷ before
    rests : Rests p db before s.db k i
    called : Called p db before s.db k i
    only : (j : ℕ) (l : Doing) → s.stage j ≡ holding l → j ≡ i

  holding-Holds :
      (holder : Option ℕ) (log : List Turn) (s : System) (i : ℕ) (k : Doing)
      → s.holder ≡ holder
      → Held p db holder log s
      → s.stage i ≡ holding k
      → Holds log s i k
  holding-Holds none log s i k holds (same, no_holder) at = absurd (no_holder i k at)
  holding-Holds (some h) log s i k holds (l, before, there, logged, rests, called, only) at =
      let own : i ≡ h = only i k at in
      let here_too : s.stage h ≡ holding k = subst (λ m. s.stage m ≡ holding k) own at in
      let one : l ≡ k = cc in
      record {
        before = before;
        holds = holds ∙ ap some (sym own);
        logged = logged ∙ ap (λ j. whole j ∷ before) (sym own);
        rests =
            subst (λ m. Rests p db before s.db k m) (sym own)
              (subst (λ x. Rests p db before s.db x h) one rests);
        called =
            subst (λ m. Called p db before s.db k m) (sym own)
              (subst (λ x. Called p db before s.db x h) one called);
        only = λ j m q. only j m q ∙ sym own;
      }

  pub Inv-works :
      (log : List Turn) (s : System) (i : ℕ) (k : Doing)
      → s.stage i ≡ holding k
      → Inv p db log s
      → Inv p db log (worked s i k.made (next p i k.work s.db))
  Inv-works log s i k at inv =
      let h = holding-Holds s.holder log s i k refl inv.held at in
      Inv-worked log h.before s i k inv h.holds at h.logged h.only (next p i k.work s.db)
        (rest_of-advance (p.world i) p.resource ((p.src i).fetch (p.state i)) k.work s.db ∙ h.rests)
        (steps-suc (p.world i) p.resource ((p.src i).fetch (p.state i)) k.made _ k.work s.db
          h.called)

  -- The turn of a pass that is killed is cut.
  Inv-cut :
      (before : List Turn) (s : System) (i : ℕ) (k : Doing)
      → Called p db before s.db k i
      → ((j : ℕ) (l : Doing) → s.stage j ≡ holding l → j ≡ i)
      → Inv p db (whole i ∷ before) s
      → Inv p db (cut i k.made ∷ before) (record s { holder = none; stage = update s.stage i dead })
  Inv-cut before s i k called only inv = record {
    held = (
      unfold killed in ap (λ (x : Next × Db). x.1) (sym called),
      λ j l q. elim (update-cases s.stage i dead j q) [
        | inl (own, e) ↦ absurd (cc)
        | inr (apart, e) ↦ absurd (apart (only j l e))
      ],
    );
    began = Began-update p db s i dead inv.began (λ q. absurd (cc));
    answers = λ j n e q. elim (update-cases s.stage i dead j q) [
      | inl (own, x) ↦ absurd (cc)
      | inr (apart, x) ↦ elim (inv.answers j n e x) [
        | inl (own, n_same, e_same) ↦ absurd (apart (sym own))
        | inr old ↦ old
      ]
    ];
    past = Past-update p db (i ∷ passes_of before) s i dead inv.past (λ m. (λ q. cc, λ q. cc));
    once = inv.once;
    cuts = ((k.work, s.db, called), inv.cuts);
  }

  pub Inv-dies :
      (log : List Turn) (s : System) (i : ℕ) (k : Doing)
      → s.stage i ≡ holding k
      → Inv p db log s
      → Inv p db
          (grow (died i k.made) log)
          (record s { holder = none; stage = update s.stage i dead })
  Inv-dies log s i k at inv =
      let h = holding-Holds s.holder log s i k refl inv.held at in
      subst
        (λ l.
          Inv p db l s
          → Inv p db (grow (died i k.made) l)
              (record s { holder = none; stage = update s.stage i dead }))
        (sym h.logged) (Inv-cut h.before s i k h.called h.only) inv

  -- A pass that is killed before it has the lock.
  pub Inv-early :
      (log : List Turn) (s : System) (i : ℕ)
      → (s.stage i ≡ idle) ⊎ (s.stage i ≡ waiting)
      → Inv p db log s
      → Inv p db log (put s i dead)
  Inv-early log s i at inv = record {
    held = Held-put p db s.holder log s i dead (λ k q. outside at k q) (λ k q. cc) inv.held;
    began = Began-update p db s i dead inv.began (λ q. absurd (cc));
    answers = Answers-update p db log s i dead inv.answers (λ n c q. absurd (cc));
    past = Past-update p db (passes_of log) s i dead inv.past (λ m. (λ q. cc, λ q. cc));
    once = inv.once;
    cuts = inv.cuts;
  }
    where
      outside : (s.stage i ≡ idle) ⊎ (s.stage i ≡ waiting) → (k : Doing) → s.stage i ≢ holding k
      outside (inl a) k q = absurd (cc)
      outside (inr a) k q = absurd (cc)
