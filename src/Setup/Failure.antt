-- ===== src/Setup/Failure.antt =====
-- What a run of RunPromptFlow (internal/setup/setup.go) that fails leaves in the two files.
use gateway_login.Base.{◌≡◌, refl, some, Text, Result, ok, err, Option-cases, inl, inr, ◌⊎◌}
use gateway_login.Stored.{save}
use gateway_login.Setup.{
  Libraries, Meets, Files, Written, prepare, saved, save_both, run_prompt_flow, write_files,
  dotenv_text, write_dotenv,
}

module _ (lib : Libraries) (m : Meets) (existing : Text) (files : Files) where
  -- A run that fails has left the configuration, and the file of the master key as well unless
  -- only the configuration could not be saved: then that file holds the key of the run.
  pub run_prompt_flow-err :
      (e : Text) (out : Files)
      → run_prompt_flow lib m existing files ≡ (err e, out)
      → (out.config ≡ files.config)
        × ((out.dotenv ≡ files.dotenv)
            ⊎ ((w : Written) × (prepare lib m existing files ≡ ok w)
                × (out.dotenv ≡ some (dotenv_text w.master))))
  unfolding run_prompt_flow write_files save_both saved save write_dotenv
  run_prompt_flow-err e out h = go (prepare lib m existing files) refl h
    where
      go :
          (p : Result Text Written)
          → prepare lib m existing files ≡ p
          → write_files lib m existing files p ≡ (err e, out)
          → (out.config ≡ files.config)
            × ((out.dotenv ≡ files.dotenv)
                ⊎ ((w : Written) × (prepare lib m existing files ≡ ok w)
                    × (out.dotenv ≡ some (dotenv_text w.master))))
      go (err c) same h = let kept : files ≡ out = cc in rw (← kept) (refl, inl refl)
      go (ok v) same h = elim (Option-cases m.write_dotenv) [
        | inr (c, broken) ↦
            let kept : files ≡ out = cc (rw broken at h) in rw (← kept) (refl, inl refl)
        | inl wrote ↦ elim (Option-cases m.save_config) [
          | inl saved_too ↦ absurd (cc (rw (wrote, saved_too) at h))
          | inr (c, broken) ↦
              let half : record { dotenv = some (dotenv_text v.master); config = files.config }
                  ≡ out =
                cc (rw (wrote, broken) at h) in
              rw (← half) (refl, inr (v, same, refl))
        ]
      ]
