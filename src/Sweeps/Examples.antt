-- ===== src/Sweeps/Examples.antt =====
-- Tests and concrete instances for harness/sweeps.py.
use mathlib.Core.Option
use localharness.Prelude.{
  ℕ, ◌≡◌, ◌⊎◌, refl, Bool, true, false, none, some, List, [], ◌∷◌, String, str_eq, pos, ◌==◌,
  if◌then◌else◌,
}
use localharness.Table.{find_row}
use localharness.Paired.{alpha, sign_test, comb, tail, count_cells, lookup_cell}
use localharness.Queue.{Host, get, done}
use localharness.Queue.Examples.{host, job}
use localharness.Sweeps.{Row, stats_of, best_of, cost_of, cheapest, decide, cells_from}
use localharness.Sweeps.Settle.{
  Sweep, waiting, settle_one, settle_one_lem, IsFinished, IsConcluded, any_busy,
}

program : Unit {0}
unfolding sign_test comb tail count_cells lookup_cell stats_of best_of cost_of cheapest decide
    cells_from get find_row settle_one
program = tt

abbrev row : String → Bool → ℕ → Row
row c p s = record { case_id = c; passed = p; seconds = s }

abbrev outcomes : String → List Row
outcomes v =
    if str_eq v "low"
    then row "a" true 1 ∷ row "a" false 1 ∷ []
    else if str_eq v "high"
    then row "a" true 9 ∷ row "a" true 9 ∷ []
    else []

abbrev values : List String
values = "low" ∷ "middle" ∷ "high" ∷ []

-- One lost cell is no evidence, so the cheaper value is chosen.
decide-low : Option.map (λ c. c.value) (decide values outcomes alpha).0 ≡ some "low"
unfolding program
decide-low = refl

abbrev sweep : Sweep
sweep = record {
  id = 1;
  lane = "code";
  jobs = ("low", 1) ∷ ("high", 2) ∷ [];
  outcome = waiting;
  choice = none;
  cost = [];
  settled_at = none;
}

abbrev rows : ℕ → List Row
rows id = if id == 1 then outcomes "low" else outcomes "high"

abbrev finished : Host
finished = host (job 1 (pos 0) done ∷ job 2 (pos 0) done ∷ [])

settle_one_lem_example :
    let t : Sweep = settle_one values rows alpha 50 finished sweep in
    ((t ≡ sweep) × (sweep.outcome ≡ waiting → any_busy finished sweep.jobs ≡ true))
    ⊎ ((sweep.outcome ≡ waiting) × IsFinished finished sweep.jobs × IsConcluded 50 finished sweep t)
settle_one_lem_example = settle_one_lem values rows alpha 50 finished sweep
