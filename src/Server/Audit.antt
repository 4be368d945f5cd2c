-- ===== src/Server/Audit.antt =====
-- The goroutines of `APIKeyAuth` (internal/api/middleware.go) that record the use of a key by
-- `MarkUsed` (internal/apikey/store.go): each runs at some time after its request, or never, while
-- other requests go on.
pub mod Laws
use mathlib.Core.List.{Memᴰ}
use mathlib.Core.List.Memᴰ
use mathlib.Core.Path.{subst}
use gateway_login.Base.{
  ◌≡◌, refl, sym, ap, ap₂, ◌∙◌, Bool, true, false, Option, none, some, List, [], ◌∷◌, ◌++◌, map,
  Text, text_eq, text_eq_iff, codes, Result, ok, err, ◌⊎◌, inl, inr, Bool-cases, if◌then◌else◌,
  is_empty,
}
use gateway_login.Postgres.{Time}
use gateway_login.ApiKey.{
  KeyRow, Entry, KeyError, not_found, failed, find_by_hash, or_not_found, get_by_hash, touched,
  mark_used,
}
use gateway_login.ApiKey.Laws.{authenticated, get_by_hash-mark_used}
use gateway_login.RateLimit.{Limiter}
use gateway_login.Api.View.{Response}
use gateway_login.Api.Middleware.{answer, Reply, Handler, hex, with_entry, api_key_auth}
use gateway_login.Server.{
  not_routed, Config, Deps, Route, Data, Meets, Libraries, limited, protected, serve, healthz,
  metrics, lost, listing, single,
}
use gateway_login.Server.Traffic.{Arrival}

-- `pending` has the ids whose goroutine has not ended, `granted` all that requests have given;
-- the lists have the latest first.
pub record State : Type 0 where
  pub keys : List KeyRow
  pub pending : List Text
  pub granted : List Text
  pub limiter : Limiter
  pub arrivals : List Arrival
  pub responses : List Response

abbrev pub fresh : List KeyRow → Limiter → State
fresh keys l = record {
  keys = keys;
  pending = [];
  granted = [];
  limiter = l;
  arrivals = [];
  responses = [];
}

-- A request reads the keys as they are.
abbrev pub reading : List KeyRow → Arrival → Data
reading keys a = record a.tables { api_keys = keys }

module _ (lib : Libraries) (cfg : Config) (dep : Deps) where
  abbrev pub reply_of : List KeyRow → Arrival → Limiter → Reply
  reply_of keys a l = serve lib cfg dep a.meets (reading keys a) a.route a.raw l

  abbrev pub answered : State → Arrival → Reply → State
  answered s a reply = record s {
    pending = reply.marks ++ s.pending;
    granted = reply.marks ++ s.granted;
    limiter = reply.limiter;
    arrivals = a ∷ s.arrivals;
    responses = reply.response ∷ s.responses;
  }

  pub data Step (s : State) : State → Type 0 where
    arrives : (a : Arrival) → Step s (answered s a (reply_of s.keys a s.limiter))
    marks :
        (before after : List Text) (id : Text) (fault : Option Text) (at : Time)
        → s.pending ≡ before ++ id ∷ after
        → Step s (record s { keys = (mark_used fault at id s.keys).1; pending = before ++ after })

  pub data Reach (keys : List KeyRow) (l : Limiter) : State → Type 0 where
    here : Reach keys l (fresh keys l)
    later : {s t : State} → Reach keys l s → Step s t → Reach keys l t
