-- ===== src/Power/Examples.antt =====
-- Tests and concrete instances for harness/power.py.
use localharness.Prelude.{ℕ, ◌*◌, min, ◌≡◌, refl, Bool, true, false, some, leb}
use localharness.Power.{
  first_from, any_from, best_from, cases_needed, Plan, reached, short_plan, plan, repeat_within,
  projected_seconds,
}

program : Unit {0}
unfolding first_from any_from best_from cases_needed short_plan plan repeat_within projected_seconds
program = tt

-- Power grows by 15 points with a repeat, up to 90.
abbrev power : ℕ → ℕ
power r = min (r * 1500) 9000

plan-six : (plan power 8000 16 true 0 true true).repeat ≡ 6
unfolding program
plan-six = refl

abbrev reaches : ℕ → ℕ → Bool
reaches k r = leb 40 (k * r)

needs-three : cases_needed true reaches true 16 2 ≡ some 3
unfolding program
needs-three = refl

abbrev sixteen : Plan
sixteen = record {
  repeat = 16;
  power = 8200;
  target = 8000;
  capped = false;
  stochastic = true;
  why = reached;
}

within-two : repeat_within false sixteen 20 (some 60) 7200 ≡ 3
unfolding program
within-two = refl
