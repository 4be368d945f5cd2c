-- ===== src/Server/Audit/Laws.antt =====
-- What the records of use change: internal/api/middleware.go with internal/apikey/store.go.
use mathlib.Core.List.{Memᴰ}
use mathlib.Core.List.Memᴰ
use mathlib.Core.Path.{subst}
use gateway_login.Base.{
  ◌≡◌, refl, sym, ap, ap₂, ◌∙◌, Option, none, some, List, [], ◌∷◌, ◌++◌, Text, text_eq, text_eq_iff,
  ◌⊎◌, inl, inr, Bool-cases, if◌then◌else◌,
}
use gateway_login.Postgres.{Time}
use gateway_login.ApiKey.{KeyRow, find_by_hash, or_not_found, get_by_hash, touched, mark_used}
use gateway_login.ApiKey.Laws.{authenticated, get_by_hash-mark_used}
use gateway_login.RateLimit.{Limiter}
use gateway_login.Api.View.{Response}
use gateway_login.Api.Middleware.{answer, Reply, Handler, with_entry, api_key_auth}
use gateway_login.Server.{
  not_routed, Config, Deps, Route, Libraries, limited, protected, serve, healthz, metrics, lost,
  listing, single,
}
use gateway_login.Server.Traffic.{Arrival}
use gateway_login.Server.Audit.{State, reading, reply_of, Step, arrives, marks, Reach, here, later}

abbrev used_at : Time → KeyRow → KeyRow
used_at at r = record r { last_used_at = some at }

module _ (lib : Libraries) (cfg : Config) (dep : Deps) where
  -- The same requests over keys that nothing marks.
  unfoldable pub replay : List KeyRow → Limiter → List Arrival → List Response × Limiter
  replay keys l [] = ([], l)
  replay keys l (a ∷ earlier) =
      let (rs, l') = replay keys l earlier in
      let reply = reply_of lib cfg dep keys a l' in (reply.response ∷ rs, reply.limiter)

  -- Two tables by which the same ids are authenticated.
  abbrev Alike : List KeyRow → List KeyRow → Type 0
  Alike t u =
      (hash : Text)
      → authenticated (get_by_hash none hash t) ≡ authenticated (get_by_hash none hash u)

  with_entry-authenticated :
      (a b : Option KeyRow) (next : Handler) (l : Limiter)
      → authenticated (or_not_found a) ≡ authenticated (or_not_found b)
      → with_entry (or_not_found a) next l ≡ with_entry (or_not_found b) next l
  unfolding or_not_found
  with_entry-authenticated none none next l h = refl
  with_entry-authenticated none (some r) next l h = absurd (cc)
  with_entry-authenticated (some r) none next l h = absurd (cc)
  with_entry-authenticated (some r) (some q) next l h =
      unfold with_entry in
      ap (λ id. let reply = next id l in record reply { marks = id ∷ reply.marks }) (cc h)

  looked_up-Alike :
      (fault : Option Text) (hash : Text) (t u : List KeyRow) (next : Handler) (l : Limiter)
      → Alike t u
      → with_entry (get_by_hash fault hash t) next l ≡ with_entry (get_by_hash fault hash u) next l
  unfolding get_by_hash
  looked_up-Alike (some e) hash t u next l h = refl
  looked_up-Alike none hash t u next l h =
      with_entry-authenticated (find_by_hash hash t) (find_by_hash hash u) next l (h hash)

  protected-Alike :
      (t u : List KeyRow) (a : Arrival) (raw : Text) (r : Response) (l : Limiter)
      → Alike t u
      → protected lib cfg dep a.meets (reading t a) raw r l
        ≡ protected lib cfg dep a.meets (reading u a) raw r l
  unfolding protected api_key_auth limited
  protected-Alike t u a [] r l h = refl
  protected-Alike t u a (c ∷ raw) r l h = looked_up-Alike a.meets.lookup _ t u _ l h

  reply_of-Alike :
      (t u : List KeyRow) (a : Arrival) (l : Limiter)
      → Alike t u
      → reply_of lib cfg dep t a l ≡ reply_of lib cfg dep u a l
  unfolding serve
  reply_of-Alike t u a l h = go a.route
    where
      go :
          (route : Route)
          → serve lib cfg dep a.meets (reading t a) route a.raw l
            ≡ serve lib cfg dep a.meets (reading u a) route a.raw l
      go healthz = refl
      go metrics = refl
      go (lost page) = refl
      go (listing q) =
          ap (λ (x : Reply). if dep.api then x else answer not_routed l)
            (protected-Alike t u a a.raw _ l h)
      go (single nik) =
          ap (λ (x : Reply). if dep.api then x else answer not_routed l)
            (protected-Alike t u a a.raw _ l h)

  -- A row differs from one of the table in the time of its last use alone, which is that of the
  -- table unless a request has been granted to the key.
  pub record Recorded (keys : List KeyRow) (granted : List Text) (r : KeyRow) : Type 0 where
    pub row : KeyRow
    pub listed : Memᴰ row keys
    pub same : r ≡ record row { last_used_at = r.last_used_at }
    pub used : (r.last_used_at ≡ row.last_used_at) ⊎ Memᴰ r.id granted

  -- The responses, the limiter and the keys are as if no use were recorded.
  pub record IsAudited (keys : List KeyRow) (l : Limiter) (s : State) : Type 0 where
    pub replayed : (s.responses, s.limiter) ≡ replay keys l s.arrivals
    pub rows : (r : KeyRow) → Memᴰ r s.keys → Recorded keys s.granted r
    pub alike :
        (hash : Text)
        → authenticated (get_by_hash none hash s.keys) ≡ authenticated (get_by_hash none hash keys)
    pub expected : (id : Text) → Memᴰ id s.pending → Memᴰ id s.granted

  Recorded-more :
      {keys : List KeyRow} {granted : List Text} {r : KeyRow} (ids : List Text)
      → Recorded keys granted r
      → Recorded keys (ids ++ granted) r
  Recorded-more ids h = record {
    row = h.row;
    listed = h.listed;
    same = h.same;
    used = elim h.used [ inl old ↦ inl old | inr m ↦ inr (Memᴰ.append_right ids m) ];
  }

  touched-Recorded :
      (keys : List KeyRow) (granted : List Text) (at : Time) (id : Text) (r : KeyRow)
      → Memᴰ id granted
      → Recorded keys granted r
      → Recorded keys granted (touched at id r)
  unfolding touched
  touched-Recorded keys granted at id r m h = elim (Bool-cases (text_eq r.id id)) [
    | inl own ↦ rw own (record {
      row = h.row;
      listed = h.listed;
      same = ap (used_at at) h.same;
      used = inr (subst (λ i. Memᴰ i granted) (sym ((text_eq_iff r.id id).0 own)) m);
    })
    | inr other ↦ rw other h
  ]

  marked-Recorded :
      (keys : List KeyRow) (s : State) (fault : Option Text) (at : Time) (id : Text)
      → Memᴰ id s.granted
      → ((r : KeyRow) → Memᴰ r s.keys → Recorded keys s.granted r)
      → (r : KeyRow) → Memᴰ r (mark_used fault at id s.keys).1
      → Recorded keys s.granted r
  unfolding mark_used
  marked-Recorded keys s (some e) at id m old r k = old r k
  marked-Recorded keys s none at id m old r k =
      let (x, l, e) = Memᴰ.of_map _ s.keys k in
      subst (Recorded keys s.granted) e (touched-Recorded keys s.granted at id x m (old x l))

  pending_before :
      (before after : List Text) (id x : Text)
      → Memᴰ x (before ++ after)
      → Memᴰ x (before ++ id ∷ after)
  pending_before before after id x m = elim (Memᴰ.append_cases before m) [
    | inl l ↦ Memᴰ.append_left (id ∷ after) l
    | inr k ↦ Memᴰ.append_right before (Memᴰ.tail k)
  ]

  Step-IsAudited :
      {keys : List KeyRow} {l : Limiter} {s t : State}
      → Step lib cfg dep s t
      → IsAudited keys l s
      → IsAudited keys l t
  unfolding replay
  Step-IsAudited {keys} {l} {s} (arrives a) h =
      let reply = reply_of lib cfg dep s.keys a s.limiter in
      let same : reply ≡ reply_of lib cfg dep keys a (replay keys l s.arrivals).1 =
        reply_of-Alike s.keys keys a s.limiter h.alike
        ∙ ap (λ (x : List Response × Limiter). reply_of lib cfg dep keys a x.1) h.replayed in
      record {
        replayed =
            ap₂ (λ (x : Reply) (rs : List Response). (x.response ∷ rs, x.limiter)) same
              (ap (λ (x : List Response × Limiter). x.0) h.replayed);
        rows = λ r m. Recorded-more reply.marks (h.rows r m);
        alike = h.alike;
        expected = λ id m. elim (Memᴰ.append_cases reply.marks m) [
          | inl new ↦ Memᴰ.append_left s.granted new
          | inr old ↦ Memᴰ.append_right reply.marks (h.expected id old)
        ];
      }
  Step-IsAudited {keys} {l} {s} (marks before after id fault at e) h =
      let among = λ (x : Text) (m : Memᴰ x (before ++ id ∷ after)).
        h.expected x (subst (λ p. Memᴰ x p) (sym e) m) in
      record {
        replayed = h.replayed;
        rows =
            marked-Recorded keys s fault at id
              (among id (Memᴰ.append_right before (Memᴰ.head refl))) h.rows;
        alike = λ hash. get_by_hash-mark_used fault at id hash s.keys ∙ h.alike hash;
        expected = λ x m. among x (pending_before before after id x m);
      }

  -- Let requests come, and let the goroutines that record the use of a key run at any time after
  -- their requests, in any order, with or without an error, or never. The responses and the
  -- limiter are those of the same requests with a table of keys that nothing changes; the same
  -- hashes authenticate the same ids; each row differs from one of that table in the time of its
  -- last use alone, and in that only if a request was let through with its id.
  pub Reach-IsAudited :
      (keys : List KeyRow) (l : Limiter) (s : State)
      → Reach lib cfg dep keys l s
      → IsAudited keys l s
  Reach-IsAudited keys l s here = record {
    replayed = unfold replay in refl;
    rows = λ r m. record { row = r; listed = m; same = refl; used = inl refl };
    alike = λ hash. refl;
    expected = λ id m. m;
  }
  Reach-IsAudited keys l t (later {s} r st) = Step-IsAudited st (Reach-IsAudited keys l s r)
