-- ===== src/Queue.antt =====
-- harness/workqueue.py: the job queue and its runner. The rows of the tables `jobs` and `runs`
-- stand in the order of their ids. A job's id is the number that `label` prints, and a stamp is
-- the second that it names, so `_iso` and `_epoch` are the identity here. A process that a job
-- starts, and whatever other programs do to the queue meanwhile, is a parameter.
mod Jobs
pub mod Order
pub mod Runner
pub mod Control
pub mod Examples
use Prim.Native.Char.{code}
use text.Mathlib.Text.{starts_with}
use localharness.Prelude.{
  ℕ, zero, suc, ◌+◌, ◌-◌, ◌≤◌, Bool, true, false, ◌&&◌, ◌||◌, not, Option, none, some, List, [],
  ◌∷◌, ◌++◌, String, ltb, leb, ltb_ℤ, ◌==◌, str_eq, is_none, or_else, if◌then◌else◌, ℤ, pos, negsuc,
  map,
}
use Prim.Native.String.{◌++◌ as append}
use localharness.Prelude.Sort.{sorted}
use localharness.Table.{find_row, update_row, select, is_any, update_where, delete_where}
use mathlib.Core.List.{get_last?}
unfoldable pub use Jobs.*

-- `any(c.isspace() for c in first)`, over the ASCII white space.
unfoldable pub has_space : String → Bool
has_space String.[] = false
has_space (String.◌∷◌ c s) =
    let n = code c in (n == 32 || (leb 9 n && leb n 13) || (leb 28 n && leb n 31)) || has_space s

-- The words after the first, each behind a blank: `" ".join(argv)` is the first word and these.
abbrev join_words : List String → String
join_words [] = ""
join_words (w ∷ []) = w
join_words (w ∷ ws) = append w (append " " (join_words ws))

-- What a caller of `add` says about a job.
pub record Request : Type 0 where
  pub argv : List String
  pub title : String
  pub cwd : String
  pub kind : String
  pub output : String
  pub priority : ℤ
  pub requested_by : String

abbrev or_text : String → String → String
or_text s d = if str_eq s "" then d else s

abbrev pub new_job : String → Request → Host → Job
new_job here r h = record {
  id = suc h.sequence;
  title = or_text r.title (join_words r.argv);
  kind = r.kind;
  output = r.output;
  priority = r.priority;
  argv = r.argv;
  cwd = or_text r.cwd here;
  state = pending;
  added = h.clock;
  started = none;
  finished = none;
  rc = none;
  log = "";
  note = "";
  requested_by = r.requested_by;
  machine_id = h.machine;
}

-- `exists` is `os.path.exists`, `here` is `os.getcwd()`.
unfoldable pub add : (String → Bool) → String → Request → Host → Result Job × Host
unfolding has_space
add exists here r h = elim r.argv [
  | [] ↦ (err needs_command, h)
  | first ∷ words ↦
      if starts_with first "-"
      then (err starts_with_option, h)
      else if has_space first && not (exists first)
      then (err whole_command_line, h)
      else (
        ok (new_job here r h),
        record h { jobs = h.jobs ++ new_job here r h ∷ []; sequence = suc h.sequence },
      )
]

-- Run order: higher priority first, then the order added.
abbrev pub runs_before : Job → Job → Bool
runs_before a b =
    ltb_ℤ b.priority a.priority || (not (ltb_ℤ a.priority b.priority) && ltb a.id b.id)

unfoldable pub order : List Job → List Job
order jobs = sorted runs_before jobs

-- `_here`: the rows that this machine's worker owns.
abbrev pub is_here : Option ℕ → Option ℕ → Bool
is_here machine none = true
is_here none (some m) = false
is_here (some mid) (some m) = m == mid

abbrev pub in_state_here : State → Option ℕ → Job → Bool
in_state_here s machine j = state_eq j.state s && is_here machine j.machine_id

unfoldable pub pending_jobs : Host → List Job
unfolding order
pending_jobs h = order (select (in_state_here pending h.machine) h.jobs)

-- The job this machine's worker is running: the newest, if rows name several.
unfoldable pub current : Host → Option Job
current h = get_last? (select (in_state_here running h.machine) h.jobs)

unfoldable pub get : ℕ → Host → Option Job
get id h = find_row (λ j. j.id) id h.jobs

-- Seconds that each finished, successful job with this title took.
abbrev duration_of : String → Job → List ℕ
duration_of title j =
    if state_eq j.state done && str_eq j.title title
    then elim j.started [
      | none ↦ []
      | some a ↦ elim j.finished [ none ↦ [] | some b ↦ if leb a b then (b - a) ∷ [] else [] ]
    ]
    else []

unfoldable pub durations : String → List Job → List ℕ
durations title [] = []
durations title (j ∷ js) = duration_of title j ++ durations title js

-- The rows that `WHERE id = ? AND state = 'pending'` finds.
abbrev pub is_pending_id : ℕ → Job → Bool
is_pending_id id j = j.id == id && state_eq j.state pending

-- `_only_pending`: an id is a primary key, so the statement changes one row or none.
abbrev why_not : ℕ → Option Job → Error
why_not id none = no_job id
why_not id (some job) = not_pending id job.state

unfoldable pub only_pending : ℕ → (List Job → List Job) → Host → Result (Unit {0}) × Host
unfolding get
only_pending id change h =
    if is_any (is_pending_id id) h.jobs
    then (ok tt, record h { jobs = change h.jobs })
    else (err (why_not id (get id h)), h)

abbrev returning : ℕ → Result (Unit {0}) × Host → Result (Option Job) × Host
returning id (ok _, h) = (ok (get id h), h)
returning id (err e, h) = (err e, h)

unfoldable pub set_priority : ℕ → ℤ → Host → Result (Option Job) × Host
unfolding only_pending
set_priority id priority h =
    returning id
      (only_pending id (update_where (is_pending_id id) (λ j. record j { priority = priority })) h)

-- `_write`: the mutable columns of a job, at the row with its id.
abbrev pub stored_columns : Job → Job → Job
stored_columns job row = record row {
  state = job.state;
  started = job.started;
  finished = job.finished;
  rc = job.rc;
  log = job.log;
  note = job.note;
  priority = job.priority;
}

unfoldable pub write_job : Job → Host → Host
write_job job h = record h { jobs = update_row (λ j. j.id) job.id (stored_columns job) h.jobs }

abbrev pub has_flag : ℕ → List ℕ → Bool
has_flag id [] = false
has_flag id (f ∷ fs) = f == id || has_flag id fs

abbrev without_flag : ℕ → List ℕ → List ℕ
without_flag id [] = []
without_flag id (f ∷ fs) = let rest = without_flag id fs in if f == id then rest else f ∷ rest

abbrev pub drop_flag : ℕ → Host → Host
drop_flag id h = record h { cancel_flags = without_flag id h.cancel_flags }

abbrev set_flag : ℕ → Host → Host
set_flag id h = record h { cancel_flags = id ∷ h.cancel_flags }

-- `_recover`: what the runner finds marked running was cut off.
abbrev pub interrupted : Job → Job
interrupted j = record j { state = failed; note = "interrupted; add it again to retry" }

unfoldable pub recover : Host → Host
recover h = record h { jobs = update_where (in_state_here running h.machine) interrupted h.jobs }

-- How a process group was stopped; `unsaid` is the empty text.
pub data How : Type 0 where
  term kill gone unsaid : How

abbrev said : How → String
said term = "stopped on request"
said kill = "killed after the grace period"
said gone = "had already exited"
said unsaid = "stopped"

abbrev is_unsaid : How → Bool
is_unsaid unsaid = true
is_unsaid _ = false

-- `strftime` is the C library's.
module _ (strftime : ℕ → String) where
  abbrev cancel_note : How → Host → String
  cancel_note how h =
      append "cancelled by soh jobs cancel at " (append (strftime h.clock) (append "; " (said how)))

  abbrev settled_note : How → Option Job → Host → String
  settled_note how none h = cancel_note how h
  settled_note how (some stored) h =
      if is_unsaid how && state_eq stored.state cancelled then stored.note else cancel_note how h

  -- The job that `_settle_cancelled` stores.
  unfoldable pub settled_job : Job → How → Option ℤ → Host → Job
  unfolding get
  settled_job job how rc h = record job {
    state = cancelled;
    finished = some (or_else job.finished h.clock);
    note = settled_note how (get job.id h) h;
    rc = elim rc [ none ↦ job.rc | some c ↦ some c ];
  }

  unfoldable pub settle_cancelled : Job → How → Option ℤ → Host → Host
  unfolding settled_job write_job
  settle_cancelled job how rc h = write_job (settled_job job how rc h) h
