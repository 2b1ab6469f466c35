-- ===== src/Queue/Examples.antt =====
-- Tests and concrete instances for harness/workqueue.py.
use localharness.Prelude.{
  ℕ, ◌≤◌, ◌<◌, ◌≡◌, ◌≢◌, refl, Bool, true, false, none, some, List, [], ◌∷◌, String, arith, ℤ, pos,
  length,
}
use localharness.Prelude.Sort.{sorted, insert_sorted}
use localharness.Table.{find_row, update_row}
use localharness.Queue.{
  State, pending, running, done, cancelled, Job, Host, ok, Request, add, pending_jobs, current, get,
  only_pending, set_priority, write_job, recover, How, term, settled_job, settle_cancelled,
  has_space, order,
}
use localharness.Queue.Runner.{Exit, exited, run_one, run_loop, run_pending}
use localharness.Queue.Runner.Finish.{run_one_lem}
use localharness.Queue.Runner.Drain.{waiting, IsQuiet, run_pending-drains}
use localharness.Queue.Control.{cancel, pid_of}
use localharness.Queue.Control.Cancel.{AreUnique, cancel_waiting, cancel_active}
use localharness.Queue.Control.Ids.{IsNumbered}

program : Unit {0}
unfolding sorted insert_sorted find_row update_row add pending_jobs current get only_pending
    set_priority write_job recover settled_job settle_cancelled has_space order run_one run_loop
    run_pending waiting cancel pid_of
program = tt

abbrev pub job : ℕ → ℤ → State → Job
job id priority state = record {
  id = id;
  title = "eval";
  kind = "command";
  output = "";
  priority = priority;
  argv = "run" ∷ [];
  cwd = "/repo";
  state = state;
  added = 10;
  started = none;
  finished = none;
  rc = none;
  log = "";
  note = "";
  requested_by = "cli";
  machine_id = some 1;
}

abbrev pub host : List Job → Host
host js = record {
  jobs = js;
  sequence = 3;
  runs = [];
  paused = false;
  cancel_flags = [];
  pid_files = (2, 77) ∷ [];
  runner_locked = false;
  machine = some 1;
  clock = 100;
}

abbrev three : Host
three = host (job 1 (pos 0) pending ∷ job 2 (pos 0) running ∷ job 3 (pos 5) pending ∷ [])

abbrev two : Host
two = host (job 1 (pos 0) pending ∷ job 3 (pos 5) pending ∷ [])

abbrev strftime : ℕ → String
strftime t = "now"

abbrev log_path : ℕ → String
log_path i = "log"

-- A child that exits with 0 and leaves everything else alone.
abbrev quick : Job → Host → Exit × Host
quick j h = (exited (pos 0), h)

pending_jobs-three : pending_jobs three ≡ job 3 (pos 5) pending ∷ job 1 (pos 0) pending ∷ []
unfolding program
pending_jobs-three = refl

three-AreUnique : AreUnique three.jobs
three-AreUnique = ground arith

three-IsNumbered : IsNumbered three
three-IsNumbered = ground arith

two-get : get 3 two ≡ some (job 3 (pos 5) pending)
unfolding program
two-get = refl

get-three : get 1 three ≡ some (job 1 (pos 0) pending)
unfolding program
get-three = refl

get-active : get 2 three ≡ some (job 2 (pos 0) running)
unfolding program
get-active = refl

run_one_lem_example :
    (row : Job) × (get 3 (run_one strftime log_path quick (job 3 (pos 5) pending) two) ≡ some row)
    × (row.state ≡ done)
    × (row.rc ≡ some (pos 0))
    × (row.finished ≡ some 100)
unfolding program
run_one_lem_example = (run_one_lem strftime log_path quick (job 3 (pos 5) pending) two).0 _ refl

quick-IsQuiet : IsQuiet quick
quick-IsQuiet = record { jobs_kept = λ j h. refl; machine_kept = λ j h. refl }

two-waiting : waiting two < 5
unfolding program
two-waiting = omega arith

run_pending-drains_example :
    (jobs : List Job) × (h' : Host) × (run_pending strftime log_path quick (λ h. true) 5 two
      ≡ some (jobs, h'))
    × (pending_jobs h' ≡ [])
    × (h'.runner_locked ≡ false)
    × (length jobs ≤ waiting two)
run_pending-drains_example =
    run_pending-drains strftime log_path quick quick-IsQuiet (λ h. true) (λ h. refl) 5 two refl
      two-waiting

abbrev alive : ℕ → Bool
alive pid = true

abbrev stop : ℕ → Host → How × Host
stop pid h = (term, h)

cancel_waiting_example :
    ((cancel strftime alive stop 1 three).0 ≡ ok (job 1 (pos 0) pending))
    × (get 1 (cancel strftime alive stop 1 three).1 ≡ none)
    × ((other : ℕ) → other ≢ 1 → get other (cancel strftime alive stop 1 three).1 ≡ get other three)
cancel_waiting_example =
    (cancel_waiting strftime alive stop 1 three three-AreUnique).2 (job 1 (pos 0) pending) get-three
      refl

live-pid : pid_of alive 2 three ≡ some 77
unfolding program
live-pid = refl

cancel_active_example :
    (row : Job) × (get 2 (cancel strftime alive stop 2 three).1 ≡ some row)
    × (row.state ≡ cancelled)
    × (row.finished ≢ none)
unfolding program
cancel_active_example =
    ((cancel_active strftime alive stop three (job 2 (pos 0) running) get-active refl).1 77
        live-pid).0
      (job 2 (pos 0) running) get-active

abbrev request : Request
request = record {
  argv = "python" ∷ "-m" ∷ "evals.run" ∷ [];
  title = "";
  cwd = "";
  kind = "command";
  output = "";
  priority = pos 2;
  requested_by = "cli";
}

abbrev exists : String → Bool
exists s = false
