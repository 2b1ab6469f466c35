-- ===== src/Queue/Runner/Drain.antt =====
-- The runner empties the queue when nobody else writes to it.
use localharness.Prelude.{
  ℕ, zero, suc, ◌≤◌, ◌<◌, ◌≡◌, refl, sym, ◌∙◌, Bool, true, false, Option, some, List, [], ◌∷◌,
  String, arith, length, Bool-cases, ◌==◌, ==_iff, inl, inr,
}
use localharness.Prelude.Sort.{length-sorted}
use localharness.Table.{
  select, update_where, is_any-sorted, length-select-update_row-le, length-select-update_row-lt,
}
use localharness.Queue.{
  Job, Host, pending, running, runs_before, in_state_here, pending_jobs, order, write_job, has_flag,
  drop_flag, settle_cancelled, settled_job, stored_columns, recover, interrupted,
}
use localharness.Queue.Runner.{
  Exit, ended, finished_job, settled, begun, ran, run_one, run_loop, run_pending,
}

-- How many jobs wait for this machine's worker.
unfoldable pub waiting : Host → ℕ
waiting h = length (select (in_state_here pending h.machine) h.jobs)

length-pending_jobs : (h : Host) → length (pending_jobs h) ≡ waiting h
unfolding pending_jobs waiting
length-pending_jobs h = length-sorted runs_before _

write_job-waiting :
    (job : Job) (h : Host)
    → ((m : Option ℕ) (row : Job) → in_state_here pending m (stored_columns job row) ≡ false)
    → waiting (write_job job h) ≤ waiting h
unfolding waiting write_job
write_job-waiting job h out =
    length-select-update_row-le (λ j. j.id) (in_state_here pending h.machine) job.id
      (stored_columns job) h.jobs (out h.machine)

waiting_eq : (a b : Host) → a.jobs ≡ b.jobs → a.machine ≡ b.machine → waiting a ≡ waiting b
unfolding waiting
waiting_eq a b e f = rw (e, f)

-- What `_recover` fails was marked running, so it was not waiting.
recover-waiting : (h : Host) → waiting (recover (record h { runner_locked = true })) ≤ waiting h
unfolding waiting recover
recover-waiting h = go h.jobs
  where
    go :
        (js : List Job)
        → length (
            select
              (in_state_here pending h.machine)
              (update_where (in_state_here running h.machine) interrupted js))
          ≤ length (select (in_state_here pending h.machine) js)
    go [] = omega arith
    go (j ∷ js) = ground (arith, go js)

-- A child process and its company that leave the job table and the machine's row alone.
pub record IsQuiet (child : Job → Host → Exit × Host) : Type 0 where
  pub jobs_kept : (job : Job) (h : Host) → (child job h).1.jobs ≡ h.jobs
  pub machine_kept : (job : Job) (h : Host) → (child job h).1.machine ≡ h.machine

module _ (strftime : ℕ → String) (log_path : ℕ → String) (child : Job → Host → Exit × Host) where
  finished_out :
      (job : Job) (h : Host) (exit : Exit) (m : Option ℕ) (row : Job)
      → in_state_here pending m
          (stored_columns (finished_job strftime log_path child job exit h) row)
        ≡ false
  finished_out job h exit m row = ground arith

  ended-waiting :
      (job : Job) (exit : Exit) (h : Host)
      → waiting (ended strftime log_path child job exit h) ≤ waiting h
  unfolding settle_cancelled settled_job waiting
  ended-waiting job exit h = elim (Bool-cases (has_flag job.id h.cancel_flags)) [
    | inl e ↦ rw e (
        write_job-waiting (settled strftime log_path child job exit h) (drop_flag job.id h)
          (λ m row. refl))
    | inr e ↦ rw e (
        write_job-waiting (finished_job strftime log_path child job exit h) h
          (finished_out job h exit))
  ]

  -- The runner's first write takes the job off the list.
  begun-waiting :
      (h : Host) (job : Job) (rest : List Job)
      → pending_jobs h ≡ job ∷ rest
      → waiting (drop_flag job.id (write_job (begun strftime log_path child job h) h)) < waiting h
  unfolding waiting write_job pending_jobs order
  begun-waiting h job rest e =
      length-select-update_row-lt (λ j. j.id) (in_state_here pending h.machine) job.id
        (stored_columns (begun strftime log_path child job h)) h.jobs (λ row. refl)
        (sym (is_any-sorted runs_before (λ j. j.id == job.id) _)
          ∙ rw (e, (==_iff job.id job.id).1 refl))

  module _ (quiet : IsQuiet child) where
    -- Running the first job in run order takes it off the waiting list.
    run_one-waiting :
        (h : Host) (job : Job) (rest : List Job)
        → pending_jobs h ≡ job ∷ rest
        → waiting (run_one strftime log_path child job h) < waiting h
    unfolding run_one
    run_one-waiting h job rest e =
        let job' = begun strftime log_path child job h in
        let start = drop_flag job.id (write_job job' h) in
        let kept =
          waiting_eq (child job' start).1 start (quiet.jobs_kept job' start)
            (quiet.machine_kept job' start) in
        omega (
          arith,
          ended-waiting job' (child job' start).0 (child job' start).1,
          kept,
          begun-waiting h job rest e,
        )

    module _ (gate : Host → Bool) (open_gate : (h : Host) → gate h ≡ true) where
      -- With the gate open, more fuel than jobs waiting lets the loop end with none waiting; it
      -- ran at most as many as waited.
      run_loop-drains :
          (fuel : ℕ) (h : Host)
          → waiting h < fuel
          → (jobs : List Job) × (h' : Host) × (run_loop strftime log_path child gate fuel h
              ≡ some (jobs, h'))
            × (pending_jobs h' ≡ [])
            × (length jobs ≤ waiting h)
      unfolding run_loop
      run_loop-drains zero h lt = absurd (omega arith)
      run_loop-drains (suc fuel) h lt = go (run_loop-drains fuel) (pending_jobs h) refl
        where
          go :
              ((k : Host)
                → waiting k < fuel
                → (jobs : List Job) × (k' : Host) × (run_loop strftime log_path child gate fuel k
                    ≡ some (jobs, k'))
                  × (pending_jobs k' ≡ [])
                  × (length jobs ≤ waiting k))
              → (todo : List Job) → pending_jobs h ≡ todo
              → (jobs : List Job) × (h' : Host) × (run_loop strftime log_path child gate
                    (suc fuel)
                    h
                  ≡ some (jobs, h'))
                × (pending_jobs h' ≡ [])
                × (length jobs ≤ waiting h)
          go ih [] e = ([], h, rw (run_loop, e), e, omega arith)
          go ih (job ∷ rest) e =
              let h' = run_one strftime log_path child job h in
              let less = run_one-waiting h job rest e in
              let (jobs, end, eq, empty, bound) = ih h' (omega arith) in
              (
                ran strftime log_path child job h' ∷ jobs,
                end,
                rw (run_loop, e, open_gate h, eq),
                empty,
                omega arith,
              )

      run_pending_free :
          (fuel : ℕ) (h : Host) (jobs : List Job) (end : Host)
          → h.runner_locked ≡ false
          → run_loop strftime log_path child gate fuel (recover (record h { runner_locked = true }))
            ≡ some (jobs, end)
          → run_pending strftime log_path child gate fuel h
            ≡ some (jobs, record end { runner_locked = false })
      unfolding run_pending
      run_pending_free fuel h jobs end free eq = ground arith

      -- Where the jobs' processes leave the job table alone, the runner's lock is free and the
      -- gate stays open, fuel above the number of jobs waiting lets `run_pending` return: it ran
      -- at most that many, none waits any more, and the lock is free again.
      pub run_pending-drains :
          (fuel : ℕ) (h : Host)
          → h.runner_locked ≡ false
          → waiting h < fuel
          → (jobs : List Job) × (h' : Host) × (run_pending strftime log_path child gate fuel h
              ≡ some (jobs, h'))
            × (pending_jobs h' ≡ [])
            × (h'.runner_locked ≡ false)
            × (length jobs ≤ waiting h)
      run_pending-drains fuel h free lt =
          let start = recover (record h { runner_locked = true }) in
          let same : waiting start ≤ waiting h = recover-waiting h in
          let (jobs, end, eq, empty, bound) = run_loop-drains fuel start (omega arith) in
          (
            jobs,
            record end { runner_locked = false },
            run_pending_free fuel h jobs end free eq,
            unfold pending_jobs in empty,
            refl,
            omega arith,
          )
