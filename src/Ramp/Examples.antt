-- ===== src/Ramp/Examples.antt =====
-- Tests and concrete instances for harness/ramp.py.
use localharness.Prelude.{
  ℕ, zero, suc, ◌+◌, ◌*◌, ◌≤◌, ◌<◌, ◌≡◌, refl, Option, none, some, String, arith, length,
}
use localharness.Table.{select}
use localharness.Ramp.{
  Sample, Report, run, run_from, last_normal, stop, cap, free_below_floor, pressed,
}
use localharness.Ramp.Bounds.{is_normal, run_lem}

program : Unit {0}
unfolding run run_from last_normal stop
program = tt

abbrev allocate : ℕ → Option String
allocate i = none

-- Free memory falls by a fifth with each step.
abbrev sample : ℕ → Sample
sample zero = record { free_pct = some 80; level = some 1; swapouts = some 5 }
sample (suc zero) = record { free_pct = some 40; level = some 1; swapouts = some 5 }
sample (suc (suc n)) = record { free_pct = some 8; level = some 1; swapouts = some 5 }

abbrev base : Sample
base = record { free_pct = some 90; level = some 1; swapouts = some 5 }

run-floor :
    (r : Report) × (run 2 20 10 allocate base sample 21 ≡ some r)
    × (r.stopped ≡ pressed free_below_floor)
    × (r.held ≡ 6)
    × (last_normal 2 r ≡ 4)
unfolding program
run-floor = (_, refl, refl, refl, refl)

run_lem_example :
    (r : Report) × (run 2 20 10 allocate base sample 21 ≡ some r)
    × (r.held ≤ 20)
    × (r.held ≡ length r.steps * 2)
    × (last_normal 2 r ≡ length (select (is_normal 2 20 10 allocate base sample) r.steps) * 2)
    × (r.stopped ≡ cap → 20 < r.held + 2)
run_lem_example = run_lem 2 20 10 allocate base sample 21 (omega arith) (omega arith)
