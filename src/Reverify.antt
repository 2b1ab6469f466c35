-- ===== src/Reverify.antt =====
-- harness/reverify.py: the re-run of a served model, what it is judged to show, and when it is due.
-- The wording of a judgement's detail is left out.
pub mod Settled
pub mod Due
pub mod Once
pub mod Checked
pub mod Examples
use localharness.Prelude.{
  ℕ, zero, suc, ◌+◌, ◌-◌, Bool, true, false, ◌&&◌, ◌||◌, not, is_none, Option, none, some, List, [],
  ◌∷◌, ◌++◌, map, String, ltb, leb, ◌==◌, str_eq, if◌then◌else◌,
}
use localharness.Dict.{lookup, remove}
use localharness.Counter.{bump, counted_from, most_common}
use localharness.Table.{select, is_any}
use localharness.Paired.{
  Row, Cell, count_cells, shared_cells, lookup_cell, cell_p, head_to_head, ratio_leb, alpha,
}
use localharness.Reasons.{reason_of}
use localharness.Queue.{Job, State, pending, running}

pub data Outcome : Type 0 where
  passed failed regressed cancelled unrun : Outcome

-- One result row of a run.
pub record Result : Type 0 where
  pub candidate : String
  pub case_id : String
  pub passed : Bool
  pub failure_class : String

-- A row of `reverifications`; its outcome is none while it is the empty text.
pub record Reverification : Type 0 where
  pub id : ℕ
  pub lane : String
  pub candidate_id : Option ℕ
  pub spec : String
  pub incumbent : String
  pub job_id : Option ℕ
  pub baseline_run_id : Option ℕ
  pub queued_at : ℕ
  pub outcome : Option Outcome
  pub reason : String
  pub failure_class : String
  pub run_id : Option ℕ
  pub settled_at : Option ℕ

-- What `judge` reads of the store: the newest run of a job, a candidate's rows in a run, and the
-- candidate of a spec.
pub record Results : Type 0 where
  pub run_of : ℕ → Option ℕ
  pub rows : ℕ → Option ℕ → List Result
  pub candidate_of : String → Option ℕ

pub record Judged : Type 0 where
  pub outcome : Outcome
  pub reason : String
  pub failure_class : String
  pub run_id : Option ℕ

abbrev pub judged : Outcome → String → String → Option ℕ → Judged
judged outcome reason failure_class run_id = record {
  outcome = outcome;
  reason = reason;
  failure_class = failure_class;
  run_id = run_id;
}

abbrev pub times_seen : String → List (String × ℕ) → ℕ
times_seen case seen = elim (lookup case seen) [ some n ↦ n | none ↦ 0 ]

-- `_paired`'s cells: the key is the case and how often it has come, this time included.
abbrev pub cells_from : List (String × ℕ) → List Result → List ((String × ℕ) × Bool)
cells_from seen [] = []
cells_from seen (r ∷ rs) =
    let now = bump r.case_id seen in
    ((r.case_id, times_seen r.case_id now), r.passed) ∷ cells_from now rs

abbrev pub is_lost : Bool → Option Bool → Bool
is_lost after (some true) = not after
is_lost after _ = false

-- The rows of the re-run whose cell was passed before and is not now.
abbrev pub lost_from : List ((String × ℕ) × Bool) → List (String × ℕ) → List Result → List Result
lost_from before seen [] = []
lost_from before seen (r ∷ rs) =
    let now = bump r.case_id seen in
    let rest = lost_from before now rs in
    if is_lost r.passed (lookup_cell (r.case_id, times_seen r.case_id now) before)
    then r ∷ rest
    else rest

abbrev pub paired_cell : List Result → List Result → Cell
paired_cell before after =
    let a = cells_from [] before in
    let b = cells_from [] after in
    let lost = count_cells true false a b in
    let gained = count_cells false true a b in
    record {
      candidate = "";
      lost = lost;
      gained = gained;
      unchanged = shared_cells a b - lost - gained;
    }

-- `_paired`: the cell, and the rows lost.
unfoldable pub paired_runs : List Result → List Result → Cell × List Result
unfolding bump lookup_cell count_cells shared_cells
paired_runs before after = (paired_cell before after, lost_from (cells_from [] before) [] after)

abbrev pub first_key : List (String × ℕ) → String
first_key [] = ""
first_key ((k, n) ∷ d) = k

-- `_class_of`: the commonest class of the rows that did not pass.
unfoldable pub class_of : List Result → String
unfolding counted_from remove
class_of rows = first_key (
    most_common
      (remove "" (counted_from [] (map (λ r. r.failure_class) (select (λ r. not r.passed) rows)))))

-- `_reason`: a word that the table lacks is about the candidate.
unfoldable pub class_reason : String → String
class_reason cls = if str_eq (reason_of cls) "" then "candidate" else reason_of cls

abbrev pub is_any_passed : List Result → Bool
is_any_passed rows = is_any (λ r. r.passed) rows

abbrev pub compared : Result → Row
compared r = record { candidate = r.candidate; case_id = r.case_id; passed = r.passed }

abbrev pub name_in : List Result → String
name_in [] = ""
name_in (r ∷ rs) = r.candidate

-- Whether the served candidate lost to its own last pass, beyond the paired noise.
unfoldable pub lost_to_itself : Cell → Bool
lost_to_itself c = ltb c.gained c.lost && ratio_leb (cell_p c) alpha

-- Whether the incumbent, run beside it, now beats it.
unfoldable pub beaten : List Result → List Result → Bool
beaten mine [] = false
beaten mine (t ∷ ts) =
    let c = head_to_head (map compared (mine ++ t ∷ ts)) (name_in mine) t.candidate in
    ltb c.lost c.gained && ratio_leb (cell_p c) alpha

abbrev pub baseline_rows : Results → Reverification → Option (List Result)
baseline_rows store rv = elim rv.baseline_run_id [
  | none ↦ none
  | some b ↦ if b == 0 then none else some (store.rows b rv.candidate_id)
]

abbrev pub incumbent_rows : Results → Reverification → ℕ → List Result
incumbent_rows store rv rid =
    if str_eq rv.incumbent ""
    then []
    else (elim (store.candidate_of rv.incumbent) [ none ↦ [] | some i ↦ store.rows rid (some i) ])

-- The comparisons of `judge`, for a run with a row that passed.
abbrev pub against_incumbent : List Result → List Result → ℕ → Judged
against_incumbent mine theirs rid =
    if beaten mine theirs
    then judged regressed "candidate" "" (some rid)
    else judged passed "candidate" "" (some rid)

abbrev pub against_baseline : Option (List Result) → List Result → List Result → ℕ → Judged
against_baseline none mine theirs rid = against_incumbent mine theirs rid
against_baseline (some before) mine theirs rid =
    let got = paired_runs before mine in
    if lost_to_itself got.0
    then judged regressed (class_reason (class_of got.1)) (class_of got.1) (some rid)
    else against_incumbent mine theirs rid

abbrev pub none_passed : List Result → ℕ → Judged
none_passed mine rid =
    let cls = class_of mine in
    let why = class_reason cls in
    judged (if str_eq why "harness" then unrun else failed) why cls (some rid)

abbrev pub has_rows : List Result → Bool
has_rows [] = false
has_rows (_ ∷ _) = true

unfoldable pub judge_run : Results → Reverification → ℕ → Judged
judge_run store rv rid =
    let mine = store.rows rid rv.candidate_id in
    if not (has_rows mine)
    then judged unrun "harness" "" (some rid)
    else if not (is_any_passed mine)
    then none_passed mine rid
    else against_baseline (baseline_rows store rv) mine (incumbent_rows store rv rid) rid

-- `judge`: the job is none where it is gone.
unfoldable pub judge : Results → Reverification → Option Job → Judged
judge store rv none = judged cancelled "harness" "" none
judge store rv (some job) = elim (store.run_of job.id) [
  | none ↦ judged unrun "harness" "" none
  | some rid ↦ judge_run store rv rid
]

abbrev pub is_waiting : Option Job → Bool
is_waiting none = false
is_waiting (some j) = elim j.state [ pending ↦ true | running ↦ true | _ ↦ false ]

abbrev pub settled_row : Reverification → Judged → ℕ → Reverification
settled_row rv j now = record {
  id = rv.id;
  lane = rv.lane;
  candidate_id = rv.candidate_id;
  spec = rv.spec;
  incumbent = rv.incumbent;
  job_id = rv.job_id;
  baseline_run_id = rv.baseline_run_id;
  queued_at = rv.queued_at;
  outcome = some j.outcome;
  reason = j.reason;
  failure_class = j.failure_class;
  run_id = j.run_id;
  settled_at = some now;
}

abbrev pub job_of : (ℕ → Option Job) → Option ℕ → Option Job
job_of get none = none
job_of get (some id) = get id

-- `settle` with its write: the table, and the rows that it settled. `get` is `workqueue.get`.
unfoldable pub settle :
    Results → (ℕ → Option Job) → ℕ → List Reverification → List Reverification × List Reverification
settle store get now [] = ([], [])
settle store get now (rv ∷ rvs) =
    let rest = settle store get now rvs in
    let job = job_of get rv.job_id in
    let row = settled_row rv (judge store rv job) now in
    if not (is_none rv.outcome) || is_waiting job
    then (rv ∷ rest.0, rest.1)
    else (row ∷ rest.0, row ∷ rest.1)
