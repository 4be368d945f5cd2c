-- ===== src/Commands/Tests.antt =====
-- A setup whose initial synchronisation fails, and what the two commands do with what it wrote.
use mathlib.Core.List.{Memᴰ}
use mathlib.Core.Path.{subst}
use gateway_login.Setup.{run_prompt_flow}
use gateway_login.Setup.Environment.{ask, env_value, checked}
use gateway_login.Setup.Terminal.{Survey, SurveyQuestion, MatchesFields, same_name}
use gateway_login.Base.{
  err, ◌∷◌, List, false, Bool, ◌||◌, Bool-cases, inl, inr, Result, ◌≡◌, refl, sym, Option, none,
  some, [], ◌++◌, Text, text_eq, codes, ok, if◌then◌else◌, pos,
}
use gateway_login.Crypto.{base64_to_key, decrypt, open_raw}
use gateway_login.Stored.{get_decrypted_password}
use gateway_login.ApiKey.{insert_api_key}
use gateway_login.Vps.{no_faults, new_client}
use gateway_login.Vps.Connect.{Driver, new_client_from_store_config}
use gateway_login.Sync.Run.{World}
use gateway_login.Setup.{merged}
use gateway_login.Setup.Samples.{
  cipher-IsCipher, written, libraries, meets, nothing, both, bytes, padded-Fills, shifted-is_line,
  ran,
}
use gateway_login.Samples.{text_le, staff, empty_db, clock}
use gateway_login.Commands.Source.{Upstream}
use gateway_login.Commands.Setup.{
  Machine, System, wired, fatal, no_change, main, with_written, with_pool, with_migrations,
  with_inserted, run_migrations, run_initial_sync, open_pool, up_error, env_or, prompted,
}
use gateway_login.Commands.Setup.Laws.{Authenticates, main-Authenticates, main-terminal}
use gateway_login.Commands.Connects.{Connects, run_prompt_flow-Connects}

-- The VPS cannot be reached.
abbrev pub driver : Driver
driver = record {
  format_dsn = λ c. c.user ++ codes ":" ++ c.passwd ++ codes "@" ++ c.addr;
  opening = λ dsn. none;
  pinging = λ dsn. some (codes "timeout");
}

abbrev pub upstream : Upstream
upstream = record { le = text_le; table = staff; faults = no_faults }

abbrev pub world : World
world = record { fault = λ c. none; clock = clock; run_id = 1 }

-- The first question whose name is no field's is an error.
pub has_name : Text → List Text → Bool
has_name name [] = false
has_name name (f ∷ fs) = same_name name f || has_name name fs

pub unmatched : List SurveyQuestion → List Text → Result Text (List Text)
unmatched [] fields = ok []
unmatched (q ∷ qs) fields =
    let rest = unmatched qs fields in
    if has_name q.name fields then rest else err (codes "could not find field matching " ++ q.name)

abbrev pub survey : Survey
survey = record { ask = unmatched }

abbrev pub environment : Text → Text
environment k =
    if text_eq k (codes "POSTGRES_DSN")
    then codes "postgres://db"
    else if text_eq k (codes "SETUP_HOST")
    then codes "vps"
    else if text_eq k (codes "SETUP_USERNAME")
    then codes "u"
    else if text_eq k (codes "SETUP_PASSWORD")
    then codes "secret"
    else if text_eq k (codes "SETUP_API_KEY")
    then codes "k"
    else []

abbrev pub wizard : Machine
wizard = record {
  getenv = environment;
  survey = survey;
  meets = meets;
  open_pg = none;
  ping_pg = none;
  migrator = record { create = λ src dsn. none; up = no_change };
  insert = none;
  now = 9;
  driver = driver;
  upstream = upstream;
  world = world;
}

abbrev pub system : System
system = record { files = nothing; keys = []; db = empty_db }

abbrev failed : Option Text
failed = some (codes "vps mysql: ping mysql: timeout")

after_flow : (with_written libraries wizard system (ok written, both)).exit ≡ wired failed
unfolding with_written with_pool with_migrations with_inserted run_migrations run_initial_sync
    open_pool up_error env_or text_eq new_client_from_store_config new_client insert_api_key
    base64_to_key get_decrypted_password merged decrypt open_raw
after_flow = refl

pub answered : prompted libraries wizard ≡ meets
unfolding prompted ask env_value checked text_eq
answered = refl

ended : (main libraries wizard system).exit ≡ wired failed
unfolding main text_eq
ended =
    subst
      (λ m.
        (with_written libraries wizard system (run_prompt_flow libraries m [] nothing)).exit
        ≡ wired failed)
      (sym answered)
      (subst (λ r. (with_written libraries wizard system r).exit ≡ wired failed) (sym ran)
        after_flow)

main-Authenticates_example : Authenticates libraries (main libraries wizard system)
main-Authenticates_example =
    main-Authenticates libraries wizard system (λ r m. elim m [ ]) failed ended

run_prompt_flow-Connects_example : Connects libraries cipher-IsCipher driver (pos 100) meets both
run_prompt_flow-Connects_example =
    run_prompt_flow-Connects libraries cipher-IsCipher driver (pos 100) meets [] nothing
      (padded-Fills (7 ∷ [])) (padded-Fills bytes) written both refl shifted-is_line refl ran

has_name-false :
    (name : Text) (fields : List Text)
    → ((f : Text) → Memᴰ f fields → same_name name f ≡ false)
    → has_name name fields ≡ false
unfolding has_name
has_name-false name [] h = refl
has_name-false name (f ∷ fs) h =
    rw (h f (Memᴰ.head refl)) (has_name-false name fs (λ g m. h g (Memᴰ.tail m)))

unmatched-err :
    (qs : List SurveyQuestion) (fields : List Text) (q : SurveyQuestion)
    → Memᴰ q qs
    → ((f : Text) → Memᴰ f fields → same_name q.name f ≡ false)
    → (e : Text) × (unmatched qs fields ≡ err e)
unfolding unmatched
unmatched-err [] fields q m h = elim m [ ]
unmatched-err (r ∷ rs) fields q (Memᴰ.head e) h =
    let none_named : has_name r.name fields ≡ false =
      subst (λ (x : SurveyQuestion). has_name x.name fields ≡ false) e
        (has_name-false q.name fields h) in
    (codes "could not find field matching " ++ r.name, rw none_named refl)
unmatched-err (r ∷ rs) fields q (Memᴰ.tail m) h = elim (Bool-cases (has_name r.name fields)) [
  | inl named ↦ let (e, later) = unmatched-err rs fields q m h in (e, rw named later)
  | inr lost ↦ (codes "could not find field matching " ++ r.name, rw lost refl)
]

survey-MatchesFields : MatchesFields survey
survey-MatchesFields = record { unmatched = unmatched-err }

-- A terminal instead of the environment.
abbrev terminal : Machine
terminal = record wizard { getenv = λ k. [] }

main-terminal_example :
    (e : Text) × (main libraries terminal system ≡ record {
      exit = fatal (codes "setup: " ++ (codes "prompt: " ++ e));
      shown = none;
      system = system;
    })
main-terminal_example = main-terminal libraries terminal system survey-MatchesFields refl
