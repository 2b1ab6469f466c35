-- ===== src/Queue/Order.antt =====
-- The order in which harness/workqueue.py runs what waits.
use mathlib.Core.List.{Perm}
use localharness.Prelude.{arith}
use localharness.Prelude.Sort.{IsOrder, IsSorted, sorted-IsSorted, sorted-perm}
use localharness.Table.{select}
use localharness.Queue.{Host, pending, runs_before, in_state_here, pending_jobs}

pub runs_before-IsOrder : IsOrder runs_before
runs_before-IsOrder = record {
  asymmetric = λ a b h. ground arith;
  composes = λ a b c h k. ground arith;
}

-- The run list holds each pending job of this machine as often as the table does, and none stands
-- behind one that runs before it: higher priority first, the smaller id first on a tie.
pub pending_jobs-IsSorted :
    (h : Host)
    → Perm (pending_jobs h) (select (in_state_here pending h.machine) h.jobs)
      × IsSorted runs_before (pending_jobs h)
unfolding pending_jobs
pending_jobs-IsSorted h = (
  sorted-perm runs_before _,
  sorted-IsSorted runs_before runs_before-IsOrder (select (in_state_here pending h.machine) h.jobs),
)
