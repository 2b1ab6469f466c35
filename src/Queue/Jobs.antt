-- ===== src/Queue/Jobs.antt =====
-- The rows of harness/workqueue.py, its machine, and what its functions raise.
use localharness.Prelude.{ℕ, Bool, true, false, Option, List, String, ℤ}

pub data State : Type 0 where
  pending running done failed cancelled : State

pub record Job : Type 0 where
  pub id : ℕ
  pub title : String
  pub kind : String
  pub output : String
  pub priority : ℤ
  pub argv : List String
  pub cwd : String
  pub state : State
  pub added : ℕ
  pub started : Option ℕ
  pub finished : Option ℕ
  pub rc : Option ℤ
  pub log : String
  pub note : String
  pub requested_by : String
  pub machine_id : Option ℕ

pub record Run : Type 0 where
  pub id : ℕ
  pub job_id : Option ℕ

-- The store's two tables with SQLite's AUTOINCREMENT counter, the files under `queue/`, the runner
-- lock, this machine's row id, and the time.
pub record Host : Type 0 where
  pub jobs : List Job
  pub sequence : ℕ
  pub runs : List Run
  pub paused : Bool
  pub cancel_flags : List ℕ
  pub pid_files : List (ℕ × ℕ)
  pub runner_locked : Bool
  pub machine : Option ℕ
  pub clock : ℕ

abbrev pub state_eq : State → State → Bool
state_eq pending pending = true
state_eq running running = true
state_eq done done = true
state_eq failed failed = true
state_eq cancelled cancelled = true
state_eq _ _ = false

-- What the functions raise.
pub data Error : Type 0 where
  needs_command starts_with_option whole_command_line : Error
  no_job : ℕ → Error
  not_pending : ℕ → State → Error
  no_process : ℕ → Error

pub data Result {ℓ} (A : Type ℓ) : Type ℓ where
  ok : A → Result A
  err : Error → Result A
