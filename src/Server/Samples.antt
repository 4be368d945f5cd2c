-- ===== src/Server/Samples.antt =====
-- A concrete configuration of the router, and what a request meets.
use gateway_login.Base.{true, false, none, [], ◌∷◌, codes, pos}
use gateway_login.RateLimit.{fine}
use gateway_login.Karyawan.Query.Page.{no_faults}
use gateway_login.Server.{Config, Deps, Data, Meets, Libraries}
use gateway_login.Samples.{postgres, key_row}

-- The hash is the key itself, and is written in hexadecimal.
abbrev pub libraries : Libraries
libraries = record { pg = postgres; sha256 = λ s. s; metrics_page = λ l. [] }

abbrev pub config : Config
config = record { addr = codes ":8080"; api_rate_limit_rpm = pos 0 }

abbrev pub limiting : Config
limiting = record config { api_rate_limit_rpm = pos 1 }

abbrev pub deps : Deps
deps = record { api = true; redis = true }

abbrev pub tables : Data
tables = record { karyawan = []; api_keys = key_row (codes "one") (codes "6b") false ∷ [] }

abbrev pub meets : Meets
meets = record {
  lookup = none;
  redis = fine;
  listing = no_faults;
  single = none;
  now = 60001;
  server = 60004;
}
