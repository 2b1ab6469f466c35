-- ===== src/Queue/Runner/Finish.antt =====
-- What one job leaves behind, whatever its process and other programs do.
use mathlib.Core.Option
use localharness.Prelude.{
  ◌∙◌, ℕ, ◌≡◌, refl, ap, Bool, true, false, none, some, String, if◌then◌else◌, arith, ==_iff,
  Bool-cases, inl, inr, ℤ,
}
use localharness.Table.{find_row-update_row}
use localharness.Queue.{
  Job, Host, State, done, failed, cancelled, get, write_job, has_flag, drop_flag, settle_cancelled,
  stored_columns,
}
use localharness.Queue.Runner.{
  Exit, exit_code, is_zero, begun, finished_job, settled, ended, run_one,
}

pub get-write_job :
    (job : Job) (h : Host)
    → get job.id (write_job job h) ≡ Option.map (stored_columns job) (get job.id h)
unfolding get write_job
get-write_job job h = ground (
  arith,
  find_row-update_row (λ j. j.id) job.id job.id (stored_columns job) h.jobs (λ x. refl),
  ==_iff job.id job.id,
)

-- The state that a job ends in: cancelled if its flag is there when its process ends, else by the
-- exit code.
abbrev pub end_state : Bool → ℤ → State
end_state true rc = cancelled
end_state false rc = if is_zero rc then done else failed

pub get-write_job-none :
    (job : Job) (h : Host) → get job.id h ≡ none → get job.id (write_job job h) ≡ none
get-write_job-none job h e = rw (get-write_job job h, e)

module _ (strftime : ℕ → String) (log_path : ℕ → String) (child : Job → Host → Exit × Host)
    (job : Job) where
  get-ended-some :
      (exit : Exit) (h : Host) (row : Job)
      → get job.id h ≡ some row
      → (row' : Job) × (get job.id (ended strftime log_path child job exit h) ≡ some row')
        × (row'.state ≡ end_state (has_flag job.id h.cancel_flags) (exit_code exit))
        × (row'.rc ≡ some (exit_code exit))
        × (row'.finished ≡ some h.clock)
  unfolding settle_cancelled
  get-ended-some exit h row found = elim (Bool-cases (has_flag job.id h.cancel_flags)) [
    | inl e ↦ (
      stored_columns (settled strftime log_path child job exit h) row,
      rw e (
          get-write_job (settled strftime log_path child job exit h) (drop_flag job.id h)
          ∙ ap (Option.map (stored_columns (settled strftime log_path child job exit h)))
              (unfold get in found)),
      rw e,
      refl,
      refl,
    )
    | inr e ↦ (
      stored_columns (finished_job strftime log_path child job exit h) row,
      rw e (
          get-write_job (finished_job strftime log_path child job exit h) h
          ∙ ap (Option.map (stored_columns (finished_job strftime log_path child job exit h)))
              found),
      rw e,
      refl,
      refl,
    )
  ]

  get-ended-none :
      (exit : Exit) (h : Host)
      → get job.id h ≡ none
      → get job.id (ended strftime log_path child job exit h) ≡ none
  unfolding settle_cancelled
  get-ended-none exit h gone = elim (Bool-cases (has_flag job.id h.cancel_flags)) [
    | inl e ↦ rw e (
        get-write_job-none (settled strftime log_path child job exit h) (drop_flag job.id h)
          (unfold get in gone))
    | inr e ↦ rw e (get-write_job-none (finished_job strftime log_path child job exit h) h gone)
  ]

module _ (strftime : ℕ → String) (log_path : ℕ → String) (child : Job → Host → Exit × Host)
    (job : Job) (h : Host) where
  -- The host when the process has ended.
  abbrev pub after_child : Exit × Host
  after_child =
      child (begun strftime log_path child job h)
        (drop_flag job.id (write_job (begun strftime log_path child job h) h))

  abbrev pub flagged : Bool
  flagged = has_flag job.id after_child.1.cancel_flags

  -- If the job's row is still there when its process ends, `run_one` leaves it in exactly the end
  -- state, with the exit code (127 if the process could not start) and a finishing time; a row
  -- that was deleted meanwhile does not come back.
  pub run_one_lem :
      ((row : Job)
        → get job.id after_child.1 ≡ some row
        → (row' : Job) × (get job.id (run_one strftime log_path child job h) ≡ some row')
          × (row'.state ≡ end_state flagged (exit_code after_child.0))
          × (row'.rc ≡ some (exit_code after_child.0))
          × (row'.finished ≡ some after_child.1.clock))
      × (get job.id after_child.1 ≡ none
          → get job.id (run_one strftime log_path child job h) ≡ none)
  unfolding run_one
  run_one_lem =
      let job' = begun strftime log_path child job h in
      (
        get-ended-some strftime log_path child job' after_child.0 after_child.1,
        get-ended-none strftime log_path child job' after_child.0 after_child.1,
      )
