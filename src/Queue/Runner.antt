-- ===== src/Queue/Runner.antt =====
-- The runner of harness/workqueue.py: `run_one`, `run_pending` and the runner lock.
pub mod Finish
pub mod Drain
use mathlib.Core.Option
use localharness.Prelude.{
  ℕ, zero, suc, Bool, true, false, Option, none, some, List, [], ◌∷◌, String, or_else,
  if◌then◌else◌, ℤ, pos, negsuc,
}
use localharness.Queue.{
  Job, Host, running, done, failed, get, write_job, has_flag, drop_flag, pending_jobs, recover,
  settle_cancelled, settled_job, unsaid,
}

-- How the child process ended, or that it could not be started (`OSError`).
pub data Exit : Type 0 where
  exited : ℤ → Exit
  no_start : Exit

abbrev exit_code : Exit → ℤ
exit_code (exited rc) = rc
exit_code no_start = pos 127

abbrev is_zero : ℤ → Bool
is_zero (pos zero) = true
is_zero _ = false

-- `child` starts a job's process, waits for it, and does to the host what that process and all
-- others do meanwhile. `log_path` names a job's log.
module _ (strftime : ℕ → String) (log_path : ℕ → String) (child : Job → Host → Exit × Host) where
  abbrev begun : Job → Host → Job
  begun job h = record job { state = running; started = some h.clock; log = log_path job.id }

  abbrev timed : Job → Exit → Host → Job
  timed job exit h = record job { rc = some (exit_code exit); finished = some h.clock }

  abbrev finished_job : Job → Exit → Host → Job
  finished_job job exit h = record (timed job exit h) {
    state = if is_zero (exit_code exit) then done else failed;
  }

  abbrev settled : Job → Exit → Host → Job
  settled job exit h =
      settled_job strftime (timed job exit h) unsaid (some (exit_code exit)) (drop_flag job.id h)

  -- After the process: a cancel flag turns the result into a cancellation.
  abbrev ended : Job → Exit → Host → Host
  ended job exit h =
      if has_flag job.id h.cancel_flags
      then settle_cancelled strftime (timed job exit h) unsaid (some (exit_code exit))
          (drop_flag job.id h)
      else write_job (finished_job job exit h) h

  unfoldable pub run_one : Job → Host → Host
  unfolding get write_job settle_cancelled
  run_one job₀ h =
      let job = begun job₀ h in
      let (exit, h') = child job (drop_flag job.id (write_job job h)) in ended job exit h'

  -- What `run_one` returns: the row, or the job as it was kept in memory where the row is gone.
  abbrev ran : Job → Host → Job
  ran job h = or_else (get job.id h) job

  -- The loop of `run_pending`, on fuel; `none` means that the fuel ran out.
  module _ (gate : Host → Bool) where
    unfoldable pub run_loop : ℕ → Host → Option (List Job × Host)
    run_loop zero h = none
    run_loop (suc n) h = elim (pending_jobs h) [
      | [] ↦ some ([], h)
      | job ∷ rest ↦ elim (gate h) [
        | false ↦ some ([], h)
        | true ↦ let h' = run_one job h in Option.map (λ r. (ran job h' ∷ r.0, r.1)) (run_loop n h')
      ]
    ]

    -- One runner at a time: `[]` where another holds the lock.
    unfoldable pub run_pending : ℕ → Host → Option (List Job × Host)
    run_pending fuel h =
        if h.runner_locked
        then some ([], h)
        else Option.map (λ r. (r.0, record r.1 { runner_locked = false }))
            (run_loop fuel (recover (record h { runner_locked = true })))
