-- ===== src/Settings/Tests.antt =====
-- The settings of a concrete environment.
use gateway_login.Base.{◌≡◌, refl, [], text_eq, codes, ok, err}
use gateway_login.Settings.{load, missing}
use gateway_login.Settings.Laws.{settings_of, load-settings_of}
use gateway_login.Settings.Samples.{libraries, libraries-IsViper, environment, settings}

-- Each other setting has its default.
load-settings_of_example : load libraries environment ≡ ok settings
unfolding text_eq libraries
load-settings_of_example = load-settings_of libraries environment libraries-IsViper

-- Of two variables that are missing the first is named.
nothing_set : settings_of libraries (λ k. []) ≡ err (missing (codes "POSTGRES_DSN"))
nothing_set = refl
