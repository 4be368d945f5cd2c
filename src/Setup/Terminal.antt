-- ===== src/Setup/Terminal.antt =====
-- `SurveyPrompter.Ask` of internal/setup/setup.go, with the questions of `RunPromptFlow`. The library
-- survey is a parameter.
use mathlib.Core.List.{Memᴰ}
use mathlib.Core.List.Memᴰ
use mathlib.Core.Path.{subst}
use gateway_login.Base.{
  ℕ, ◌+◌, ◌≡◌, refl, sym, Bool, false, ◌&&◌, List, [], ◌∷◌, map, Text, text_eq, codes, Result, err,
  if◌then◌else◌, leb,
}
use gateway_login.Setup.Environment.{question_names}

pub record Question : Type 0 where
  pub name : Text
  pub prompt : Text
  pub default : Text
  pub help : Text

abbrev question : Text → Text → Text → Text → Question
question name prompt default help = record {
  name = name;
  prompt = prompt;
  default = default;
  help = help;
}

abbrev pub questions : List Question
questions =
    question (codes "host") (codes "VPS MySQL host") [] []
    ∷ question (codes "port") (codes "VPS MySQL port") (codes "3306") []
    ∷ question (codes "database") (codes "Database name") (codes "sja") []
    ∷ question (codes "username") (codes "Username") (codes "sso_replicator") []
    ∷ question (codes "password") (codes "Password") []
        (codes "Stored encrypted at rest with the master key.")
    ∷ question (codes "apiKey") (codes "API key (leave blank to auto-generate)") [] []
    ∷ []

-- The names by which `EnvPrompter` answers.
names_of_questions : map (λ (q : Question). q.name) questions ≡ question_names
names_of_questions = refl

-- A question of survey, for an input of one line.
pub record SurveyQuestion : Type 0 where
  pub name : Text
  pub message : Text
  pub default : Text
  pub help : Text

-- `survey.Ask` with a struct to write to: the questions, the names of the struct's fields, and what
-- is in its field of texts afterwards.
pub record Survey : Type 0 where
  pub ask : List SurveyQuestion → List Text → Result Text (List Text)

abbrev lower : ℕ → ℕ
lower c = if leb b'A' c && leb c b'Z' then c + 32 else c

abbrev pub same_name : Text → Text → Bool
same_name a b = text_eq (map lower a) (map lower b)

-- What survey documents: the answer to a question is written to the field of its name, and it is an
-- error if there is none.
pub record MatchesFields (s : Survey) : Type 0 where
  pub unmatched :
      (qs : List SurveyQuestion) (fields : List Text) (q : SurveyQuestion)
      → Memᴰ q qs
      → ((f : Text) → Memᴰ f fields → same_name q.name f ≡ false)
      → (e : Text) × (s.ask qs fields ≡ err e)

unfoldable pub survey_question : Question → SurveyQuestion
survey_question q = record { name = q.name; message = q.prompt; default = q.default; help = q.help }

-- The struct `answerSheet` has the field `Out`.
unfoldable pub ask_terminal : Survey → List Question → Result Text (List Text)
ask_terminal s qs = s.ask (map survey_question qs) (codes "Out" ∷ [])

-- No question is named as the field is, so none of them can be answered.
pub ask_terminal-err :
    (s : Survey) → MatchesFields s → (e : Text) × (ask_terminal s questions ≡ err e)
unfolding ask_terminal survey_question text_eq
ask_terminal-err s good =
    good.unmatched (map survey_question questions) (codes "Out" ∷ []) _ (Memᴰ.head refl)
      (λ f m. subst (λ n. same_name (codes "host") n ≡ false) (sym (Memᴰ.eq_of_singleton m)) refl)
