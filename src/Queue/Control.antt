-- ===== src/Queue/Control.antt =====
-- What operators and callers do to the queue of harness/workqueue.py: cancelling, the pause flag
-- and the memory gate, and the stamp that links a stored run to its job.
pub mod Cancel
pub mod Ids
use localharness.Prelude.{
  ℕ, Bool, true, false, not, Option, none, some, List, [], ◌∷◌, String, ltb, ◌==◌, is_none, or_else,
  if◌then◌else◌,
}
use localharness.Table.{update_row, delete_where}
use localharness.Queue.{
  State, pending, running, done, failed, cancelled, Job, Run, Host, Result, ok, err, no_process,
  state_eq, get, is_pending_id, only_pending, set_flag, How, settle_cancelled,
}

-- The pid that a job's pid file names.
abbrev pub lookup_pid : ℕ → List (ℕ × ℕ) → Option ℕ
lookup_pid id [] = none
lookup_pid id ((j, pid) ∷ files) = if j == id then some pid else lookup_pid id files

-- `_pid_of`: only a live process counts. `alive` asks the operating system.
unfoldable pub pid_of : (ℕ → Bool) → ℕ → Host → Option ℕ
pid_of alive id h = elim (lookup_pid id h.pid_files) [
  | none ↦ none
  | some pid ↦ if alive pid then some pid else none
]

abbrev dropped : Job → Result (Unit {0}) × Host → Result Job × Host
dropped job (ok _, h) = (ok job, h)
dropped job (err e, h) = (err e, h)

-- The error of a missing job is raised before there is a job to return.
abbrev refused : Result (Unit {0}) × Host → Result Job × Host → Result Job × Host
refused (ok _, h) other = other
refused (err e, h) other = (err e, h)

-- `stop` is `stop_group`: it signals the group, waits, and lets the rest of the host go on meanwhile.
module _ (strftime : ℕ → String) (alive : ℕ → Bool) (stop : ℕ → Host → How × Host) where
  abbrev pub stop_running : Job → ℕ → Host → Result Job × Host
  stop_running job pid h =
      let (how, h') = stop pid (set_flag job.id h) in
      let h'' = settle_cancelled strftime job how none h' in
      (ok (or_else (get job.id h'') job), h'')

  abbrev cancel_running : Job → Option ℕ → Host → Result Job × Host
  cancel_running job none h = (err (no_process job.id), h)
  cancel_running job (some pid) h = stop_running job pid h

  abbrev drop_pending : ℕ → Host → Result (Unit {0}) × Host
  drop_pending id h = only_pending id (delete_where (is_pending_id id)) h

  abbrev cancel_found : ℕ → Option Job → Host → Result Job × Host
  cancel_found id none h = refused (drop_pending id h) (err (no_process id), h)
  cancel_found id (some job) h =
      if state_eq job.state running
      then cancel_running job (pid_of alive job.id h) h
      else dropped job (drop_pending id h)

  unfoldable pub cancel : ℕ → Host → Result Job × Host
  cancel id h = cancel_found id (get id h) h

unfoldable pub pause : Host → Host
pause h = record h { paused = true }

unfoldable pub resume : Host → Host
resume h = record h { paused = false }

-- Why the gate is open or shut.
pub data Why : Type 0 where
  paused_by_hand normal unknown : Why
  pressure : ℕ → Why

-- harness/pressure.py: `alarming`, past the level NORMAL. An unknown level is not alarming.
abbrev pub alarming : Option ℕ → Bool
alarming none = false
alarming (some level) = ltb 1 level

-- `gate`, at a sampled memory pressure level.
unfoldable pub gate : Option ℕ → Host → Bool × Why
gate level h =
    if h.paused
    then (false, paused_by_hand)
    else if alarming level
    then (false, pressure (or_else level 0))
    else (true, if is_none level then unknown else normal)

-- `link_run`, from the job id in the environment; `none` where the variable holds no number.
abbrev stamp : ℕ → Run → Run
stamp key r = record r { job_id = some key }

abbrev link_found : Option Job → ℕ → ℕ → Host → Bool × Host
link_found none key run_id h = (false, h)
link_found (some _) key run_id h =
    (true, record h { runs = update_row (λ r. r.id) run_id (stamp key) h.runs })

unfoldable pub link_run : Option ℕ → Option ℕ → Host → Bool × Host
link_run none run_id h = (false, h)
link_run (some key) none h = (false, h)
link_run (some key) (some run_id) h = link_found (get key h) key run_id h
