-- ===== src/Reverify/Examples.antt =====
-- Tests and concrete instances for harness/reverify.py.
use localharness.Prelude.{
  length, pos, ℕ, ◌≡◌, refl, Bool, true, false, Option, none, some, List, [], ◌∷◌, String, All,
  ◌==◌, if◌then◌else◌,
}
use localharness.Prelude.Sort.{insert_sorted, sorted}
use localharness.Dict.{lookup, put, remove}
use localharness.Counter.{bump, counted_from}
use localharness.Paired.{
  comb, tail, sign_test, cell_p, count_cells, shared_cells, lookup_cell, head_to_head, passes_from,
  count_pairs, shared,
}
use localharness.Queue.{Job, State, done, pending}
use localharness.Reverify.{
  Result, Reverification, Results, regressed, judge, judge_run, settle, paired_runs, class_of,
  class_reason, lost_to_itself, beaten,
}
use localharness.Newest.{last_of}
use localharness.Table.{max_id}
use localharness.Reverify.Due.{
  Item, World, moved, baseline, latest, triggers, skip, found, is_due, queue_each, queue_due, check,
}
use localharness.Reverify.Checked.{check-check}
use localharness.Reverify.Settled.{
  is_sound, ran, worse, newest, IsSettled, judge_lem, settle-settle,
}

program : Unit {0}
unfolding last_of max_id moved baseline latest triggers skip found is_due queue_each queue_due check
    insert_sorted sorted lookup put remove bump counted_from comb tail sign_test cell_p count_cells
    shared_cells lookup_cell head_to_head passes_from count_pairs shared judge judge_run settle
    paired_runs class_of class_reason lost_to_itself beaten
program = tt

abbrev job : State → Job
job state = record {
  id = 5;
  title = "reverify code: m";
  kind = "";
  output = "";
  priority = pos 0;
  argv = [];
  cwd = "";
  state = state;
  added = 0;
  started = none;
  finished = none;
  rc = none;
  log = "";
  note = "";
  requested_by = "reverify";
  machine_id = none;
}

abbrev row : String → Bool → Result
row case ok = record {
  candidate = "m";
  case_id = case;
  passed = ok;
  failure_class = if ok then "" else "server_dead";
}

abbrev with_first : Bool → List Result
with_first b =
    row "c1" b ∷ row "c2" b ∷ row "c3" b ∷ row "c4" b ∷ row "c5" b ∷ row "c6" b ∷ row "c7" true ∷ []

-- Run 1 is the baseline, run 2 the re-run.
abbrev store : Results
store = record { run_of = λ j. some 2; rows = λ r c. with_first (r == 1); candidate_of = λ s. none }

abbrev queued : Reverification
queued = record {
  id = 1;
  lane = "code";
  candidate_id = some 3;
  spec = "m";
  incumbent = "";
  job_id = some 5;
  baseline_run_id = some 1;
  queued_at = 50;
  outcome = none;
  reason = "";
  failure_class = "";
  run_id = none;
  settled_at = none;
}

-- Six cells lost to a dead server, with one case passed, are a regression, whose reason is the
-- harness.
lost_to_the_harness : judge store queued (some (job done)) ≡ record {
  outcome = regressed;
  reason = "harness";
  failure_class = "server_dead";
  run_id = some 2;
}
unfolding program
lost_to_the_harness = refl

judge_lem_example :
    is_sound
      (ran store queued (newest store (some (job done))))
      (worse store queued (newest store (some (job done))))
      (judge store queued (some (job done)))
    ≡ true
judge_lem_example = judge_lem store queued (some (job done))

abbrev get : ℕ → Option Job
get id = some (job done)

settle-settle_example :
    All (IsSettled store get) (settle store get 100 (queued ∷ [])).0
    × (settle store get 200 (settle store get 100 (queued ∷ [])).0
        ≡ ((settle store get 100 (queued ∷ [])).0, []))
settle-settle_example = settle-settle store store get 100 200 (queued ∷ [])

abbrev world : World
world = record {
  store = store;
  runs = λ i. record { id = 1; generated_at = some 0; versions = ("mlx", "1") ∷ [] } ∷ [];
  current = ("mlx", "2") ∷ [];
  used = λ i. none;
  job_id = λ i. 9;
  get = λ id. some (job (if id == 9 then pending else done));
  normal = λ lane. lane;
  now = 90000;
}

abbrev code_item : Item
code_item = record {
  lane = "code";
  candidate_id = some 3;
  spec = "m";
  incumbent = "";
  runtimes = "mlx" ∷ [];
  days = 7;
}

queued_once : length (check world "" false (code_item ∷ []) []) ≡ 1
unfolding program
queued_once = refl

other_lane : check world "web" false (code_item ∷ []) [] ≡ []
unfolding program
other_lane = refl

-- The job of the re-run that the table starts with is done.
check-check_example :
    check world "" false (code_item ∷ []) (check world "" false (code_item ∷ []) (queued ∷ []))
    ≡ check world "" false (code_item ∷ []) (queued ∷ [])
check-check_example = check-check world (λ i. refl) "" false (code_item ∷ []) (queued ∷ [])
