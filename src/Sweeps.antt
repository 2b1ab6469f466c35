-- ===== src/Sweeps.antt =====
-- harness/sweeps.py: the values of a knob swept through the queue, and the cheapest value that the
-- paired test cannot tell from the best. Seconds are natural numbers of one unit.
pub mod Chosen
pub mod Settle
pub mod Examples
use localharness.Prelude.{
  ℕ, zero, suc, ◌+◌, ◌-◌, ◌*◌, min, Bool, true, false, ◌&&◌, ◌||◌, not, Option, none, some, List,
  [], ◌∷◌, ◌++◌, map, String, ltb, leb, ◌==◌, length, str_eq, if◌then◌else◌,
}
use localharness.Table.{select, is_any}
use localharness.Paired.{Ratio, ratio_leb, sign_test, count_cells}

-- A result row, as far as the decision reads it; a missing time is 0.
pub record Row : Type 0 where
  pub case_id : String
  pub passed : Bool
  pub seconds : ℕ

abbrev pub occurrences : String → List String → ℕ
occurrences c [] = 0
occurrences c (d ∷ ds) = if str_eq d c then suc (occurrences c ds) else occurrences c ds

-- `_cells`: the key of a row is its case and how many rows of that case there are up to it.
unfoldable pub cells_from : List String → List Row → List ((String × ℕ) × Bool)
cells_from seen [] = []
cells_from seen (r ∷ rs) =
    ((r.case_id, suc (occurrences r.case_id seen)), r.passed) ∷ cells_from (r.case_id ∷ seen) rs

abbrev pub cells : List Row → List ((String × ℕ) × Bool)
cells rows = cells_from [] rows

abbrev passes : List Row → ℕ
passes [] = 0
passes (r ∷ rs) = if r.passed then suc (passes rs) else passes rs

abbrev total_seconds : List Row → ℕ
total_seconds [] = 0
total_seconds (r ∷ rs) = r.seconds + total_seconds rs

-- One entry of `stats`.
pub record Swept : Type 0 where
  pub value : String
  pub passed : ℕ
  pub n : ℕ
  pub seconds : ℕ
  pub rows : List Row

abbrev pub swept : String → List Row → Swept
swept v rows = record {
  value = v;
  passed = passes rows;
  n = length rows;
  seconds = total_seconds rows;
  rows = rows;
}

-- `stats`, in the order of the values: a value without rows has no entry.
unfoldable pub stats_of : List String → (String → List Row) → List Swept
stats_of [] outcomes = []
stats_of (v ∷ vs) outcomes =
    let rest = stats_of vs outcomes in
    elim (outcomes v) [ [] ↦ rest | r ∷ rs ↦ swept v (r ∷ rs) ∷ rest ]

-- More passes, then fewer seconds: on a tie the value that stands first is the better.
abbrev pub beats : Swept → Swept → Bool
beats a b = ltb b.passed a.passed || ((a.passed == b.passed) && ltb a.seconds b.seconds)

unfoldable pub best_of : Swept → List Swept → Swept
best_of s [] = s
best_of s (t ∷ ts) = best_of (if beats t s then t else s) ts

-- A row of the cost table, less its `best` mark, which `best_of` gives.
pub record Cost : Type 0 where
  pub value : String
  pub passed : ℕ
  pub n : ℕ
  pub seconds : ℕ
  pub lost : ℕ
  pub gained : ℕ
  pub p : Ratio
  pub tied : Bool

unfoldable pub cost_of : Ratio → Swept → Swept → Cost
cost_of alpha best s =
    let base = cells best.rows in
    let mine = cells s.rows in
    let lost = count_cells true false base mine in
    let gained = count_cells false true base mine in
    let p = sign_test (min lost gained) (lost + gained) in
    record {
      value = s.value;
      passed = s.passed;
      n = s.n;
      seconds = s.seconds;
      lost = lost;
      gained = gained;
      p = p;
      tied = not (ltb gained lost && ratio_leb p alpha);
    }

unfoldable pub cheapest : Cost → List Cost → Cost
cheapest c [] = c
cheapest c (d ∷ ds) = cheapest (if ltb d.seconds c.seconds then d else c) ds

abbrev cheapest_of : List Cost → Option Cost
cheapest_of [] = none
cheapest_of (c ∷ cs) = some (cheapest c cs)

abbrev pub table_of : Ratio → Swept → List Swept → List Cost
table_of alpha s ss = map (cost_of alpha (best_of s ss)) (s ∷ ss)

abbrev choose : Ratio → List Swept → Option Cost × List Cost
choose alpha [] = (none, [])
choose alpha (s ∷ ss) =
    (cheapest_of (select (λ c. c.tied) (table_of alpha s ss)), table_of alpha s ss)

-- The chosen value with its costs, none where no value has rows, and the cost table.
unfoldable pub decide : List String → (String → List Row) → Ratio → Option Cost × List Cost
unfolding stats_of best_of cost_of cheapest
decide values outcomes alpha = choose alpha (stats_of values outcomes)
