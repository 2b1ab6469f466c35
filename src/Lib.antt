-- ===== src/Lib.antt =====
-- localharness runs local models: it finds candidates, screens and measures them, adopts winners
-- and serves them through a gateway. This library models the parts of the Python package that hold
-- its state machines and its decisions.
--
-- How the parts interact. A candidate's verdicts move its state up the discovery ladder
-- (harness/memory_store); a first run's verdict is harness/screen.py's. The runs that produce the
-- evidence are jobs of one queue per machine (harness/workqueue.py). Two candidates are compared by
-- a paired test over result rows (harness/paired.py) on a holdout (harness/holdout.py) with a
-- planned repeat (harness/power.py); a knob's values are swept through the queue and judged by the
-- same test (harness/sweeps.py). The weights that runs load are recorded in harness/downloads.py,
-- deleted by harness/disk.py where no alias, default or adoption needs them, and guarded by
-- harness/memory.py, whose reserve harness/ramp.py measures; runs that load models hold one lock
-- per machine (harness/exclusive.py). The comparison's outcome, or a person's answers
-- (harness/human.py), is an adoption or a loss, and the adoptions say what a lane serves
-- (harness/adopt.py). What is adopted reaches the gateway by harness/gateway_switch.py, and is run
-- again by harness/reverify.py. What a run loaded into llama-server is given back by
-- harness/router.py.
--
-- Which file models which part:
--   Prelude, Table, Dict, Newest, Counter, Text: shared names; lists and integers over the native
--     numbers, a stable sort; tables with an integer key and their SELECT, UPDATE and DELETE;
--     Python's `dict` and `Counter`, `partition` and `split`; the newest row of a list.
--   Ladder: transition_refused, fold and retest_eligible of harness/memory_store/transitions.py with
--     the vocabularies of schema.py. Ladder.Store: _write, _schedule_retest and state_audit over the
--     tables `proposals` and `verdicts`, other writers between its rounds being a parameter.
--     Ladder.Decide: decide, decide_or_skip, retract, and harness/memory_store/retests.py.
--   Reasons: the failure classes of harness/reasons.py, first and classify.
--   Revisit: until_met, revisitable and requeue_revisitable of harness/memory_store/revisit.py, over
--     the verdict writer of Ladder.
--   Queue: harness/workqueue.py. A Host holds the tables, the files under `queue/` and the runner
--     lock. Queue.Runner is run_one and run_pending, Queue.Control is cancel, pause, resume, gate and
--     link_run.
--   Paired: harness/paired.py. A p-value is the exact fraction that the source rounds to a float.
--   Lock: held and try_held of harness/exclusive.py, one process's actions as steps of a World.
--   Gates: better, _summary, paired_p, _gates and decide of harness/adopt.py, with order_key of
--     harness/winners.py. Served: _resolve, fit, current and default_for of harness/adopt.py over a
--     Store of adoptions, candidates, results and machines.
--   Record: record and _schema_guard of harness/adopt.py, over the Db of Ladder and the Store of
--     Served.
--   Human: tally, decided and lane_verdict of harness/human.py with decide_by_hand of
--     harness/adopt.py. Lanes: canonical, testable_in and serves of harness/lanes.py.
--   Gateway: wait_then_restart and unresolved of harness/gateway_switch.py; Gateway.Switch is switch
--     with its attempts, its record and the restored config.
--   Sweeps: decide of harness/sweeps.py; Sweeps.Settle is _skip, judge and settle.
--   Power: cases_needed, plan and within_budget of harness/power.py, over powers in ten-thousandths.
--   Holdout: assign and Split.side of harness/holdout.py. Ramp: harness/ramp.py. Downloads:
--     harness/downloads.py. Memory: the guard of harness/memory.py.
--   Disk: the group of an entry, safe_to_delete and plan of harness/disk.py; Disk.Delete is _remove,
--     delete, record, clear_incomplete and clean; Disk.Keep is keepers with what a spec loads, and
--     Disk.Keep.Classify _classify and inventory. The file system is the interface Files, and what its
--     documentation says of unlink and rmtree is the record IsFaithful.
--   Router: release, settle and Watch of harness/router.py over a Server that is an interface.
--   Reverify: judge and settle of harness/reverify.py, over the jobs of Queue and the test of Paired;
--     Reverify.Due is triggers, _skip, plan and check.
--   Screen: load_until and the tables of harness/screen.py; Screen.Outcome is decide_class and outcome.
-- The modules below each of these are named for what they prove; Rows, Jobs and Tables hold data, and
-- the Examples tests.
--
-- Bounds and fuel. Times, sizes and float amounts are natural numbers of one unit. `_write` has its
-- own eight rounds. The loops of run_pending, wait_then_restart and ramp's run take fuel, and each has a
-- theorem that enough fuel lets it return: more than the jobs waiting, more rounds than the first
-- that comes after the longest wait, more than the cap in units. The other loops are over lists.
--
-- Not modelled: processes, signals, files and HTTP themselves, which are parameters with the answers
-- that the code reads; the SQL engine, whose statements are list functions; the probability
-- computations of harness/power.py in floats, the correlation of repeats among them; the summaries of
-- evals/core.py, and the regular expressions that read prose; the kernel's file lock, whose laws are
-- the record Flock; the walk of a directory in harness/disk.py; the wording of most messages; and
-- the parts of the repository that render, fetch, prompt or evaluate.
pub mod Prelude
pub mod Table
pub mod Newest
pub mod Dict
pub mod Counter
pub mod Lock
pub mod Ladder
pub mod Text
pub mod Reasons
pub mod Revisit
pub mod Queue
pub mod Served
pub mod Record
pub mod Paired
pub mod Lanes
pub mod Human
pub mod Gates
pub mod Gateway
pub mod Sweeps
pub mod Ramp
pub mod Downloads
pub mod Disk
pub mod Screen
pub mod Router
pub mod Reverify
pub mod Power
pub mod Holdout
pub mod Memory
