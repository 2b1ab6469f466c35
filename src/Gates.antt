-- ===== src/Gates.antt =====
-- harness/adopt.py, the half that decides, with the order of harness/winners.py: whether a challenger
-- replaces a lane's incumbent. A summary's floats are counted in whole units. `summarize` of
-- one candidate's rows (evals/core.py), a metric's direction (its METRIC_DIRECTION) and the design effect of repeats
-- (the correlation of harness/power.py, a fraction here) are parameters; a verdict's texts are a list
-- of reasons, without the note on a method's cost.
pub mod Adopts
pub mod Examples
use localharness.Prelude.{
  ℕ, ◌+◌, ◌-◌, ◌*◌, ◌/◌, min, Bool, true, false, ◌&&◌, ◌||◌, not, Option, none, some, List, [], ◌∷◌,
  ◌++◌, String, ltb, leb, ◌==◌, str_eq, is_none, if◌then◌else◌, or_else, ℤ, pos, negsuc, ltb_ℤ,
}
use localharness.Prelude.Sort.{sorted}
use localharness.Table.{select}
use localharness.Paired.{
  Ratio, one, ratio_leb, alpha, sign_test, Row, Cell, discordant, cell_p, head_to_head,
}
use localharness.Holdout.{Split, Side, on_holdout, on_dev, neither, side}
use localharness.Power.{Plan, enough}

pub data Direction : Type 0 where
  higher lower neutral : Direction

pub record Summary : Type 0 where
  pub candidate : String
  pub pass_rate : ℕ
  pub metrics : List (String × ℤ)
  pub median_s : ℕ

abbrev pub negated : ℤ → ℤ
negated (pos ℕ.zero) = pos 0
negated (pos (ℕ.suc n)) = negsuc n
negated (negsuc n) = pos (ℕ.suc n)

-- Python's order of tuples.
unfoldable pub tuple_ltb : List ℤ → List ℤ → Bool
tuple_ltb [] [] = false
tuple_ltb [] (b ∷ bs) = true
tuple_ltb (x ∷ xs) [] = false
tuple_ltb (x ∷ xs) (y ∷ ys) = let rest = tuple_ltb xs ys in ltb_ℤ x y || (not (ltb_ℤ y x) && rest)

abbrev ranked_value : Direction → ℤ → List ℤ → List ℤ
ranked_value neutral v rest = rest
ranked_value higher v rest = v ∷ rest
ranked_value lower v rest = negated v ∷ rest

abbrev ranked : (String → Direction) → List (String × ℤ) → List ℤ
ranked direction [] = []
ranked direction ((name, v) ∷ rest) = ranked_value (direction name) v (ranked direction rest)

module _ (text_before : String → String → Bool) (direction : String → Direction) where
  abbrev pub by_name : List (String × ℤ) → List (String × ℤ)
  by_name metrics = sorted (λ a b. text_before a.0 b.0) metrics

  -- order_key: the pass rate, the metrics and the median, which is negated.
  abbrev pub ranks : Summary → List ℤ
  ranks row = ranked direction (by_name row.metrics)

  -- order_key(challenger) > order_key(incumbent)
  unfoldable pub better : Summary → Summary → Bool
  unfolding sorted tuple_ltb
  better incumbent challenger =
      ltb incumbent.pass_rate challenger.pass_rate
      || ((incumbent.pass_rate == challenger.pass_rate)
          && (tuple_ltb (ranks incumbent) (ranks challenger)
              || (not (tuple_ltb (ranks challenger) (ranks incumbent))
                  && ltb challenger.median_s incumbent.median_s)))

-- int(n / d) and math.ceil(n / d).
abbrev pub over : ℕ → Ratio → ℕ
over n d = n * d.den / d.num

abbrev pub over_up : ℕ → Ratio → ℕ
over_up n d = (n * d.den + (d.num - 1)) / d.num

-- What `paired_p` gives: the cell, and the cells gained and lost that its p-value counts.
pub record Paired_ : Type 0 where
  pub cell : Cell
  pub gained : ℕ
  pub lost : ℕ

abbrev pub p_value : Paired_ → Ratio
p_value c = sign_test (min c.gained c.lost) (c.gained + c.lost)

-- Why a verdict is what it is.
pub data Reason : Type 0 where
  not_better no_rows no_shared_case not_established beats : Reason
  worse underpowered : Reason
  dev_note split_note : Reason

-- `dev`: the cells gained and lost, and the p-value, of the dev side.
pub record Evidence : Type 0 where
  pub split : Option Split
  pub dev : Option (ℕ × ℕ × Ratio)
  pub power : Option Plan

pub record Verdict : Type 0 where
  pub incumbent : String
  pub challenger : String
  pub adopt : Bool
  pub why : List Reason
  pub is_underpowered : Bool
  pub evidence : Evidence

abbrev pub same_side : Side → Side → Bool
same_side on_holdout on_holdout = true
same_side on_dev on_dev = true
same_side neither neither = true
same_side _ _ = false

abbrev pub rows_on : Split → Side → List Row → List Row
rows_on split on rows = select (λ r. same_side (side split r.case_id) on) rows

abbrev pub is_empty {ℓ} : {A : Type ℓ} → List A → Bool
is_empty [] = true
is_empty (x ∷ xs) = false

-- What evals/core.py, its table and the rows' correlation give.
pub record Measures : Type 0 where
  pub text_before : String → String → Bool
  pub direction : String → Direction
  pub summarize : List Row → Summary
  pub design_effect : List Row → Ratio

abbrev pub is_too_small : Option Split → Bool
is_too_small none = false
is_too_small (some split) = split.too_small

abbrev pub short_of_power : Option Plan → Bool
short_of_power none = false
short_of_power (some plan) = not (enough plan)

abbrev pub notes : Option Split → Option (ℕ × ℕ × Ratio) → List Reason
notes split dev =
    (if is_none dev then [] else dev_note ∷ [])
    ++ (if is_too_small split then split_note ∷ [] else [])

-- The rows of one candidate.
abbrev pub own_rows : String → List Row → List Row
own_rows name rows = select (λ r. str_eq r.candidate name) rows

abbrev named : String → Summary → Summary
named name s = record {
  candidate = name;
  pass_rate = s.pass_rate;
  metrics = s.metrics;
  median_s = s.median_s;
}

module _ (ms : Measures) where
  abbrev pub summary_over : String → List Row → Option Summary
  summary_over name [] = none
  summary_over name (r ∷ rs) = some (named name (ms.summarize (r ∷ rs)))

  -- `_summary`
  abbrev pub summary : List Row → String → Option Summary
  summary rows name = summary_over name (own_rows name rows)

  -- Repeats count as one piece of evidence where the design effect is above 1.
  unfoldable pub paired_p : List Row → String → String → Paired_
  unfolding head_to_head sign_test
  paired_p rows incumbent challenger =
      let cell = head_to_head rows incumbent challenger in
      let deff = ms.design_effect rows in
      if leb deff.num deff.den
      then record { cell = cell; gained = cell.gained; lost = cell.lost }
      else record { cell = cell; gained = over cell.gained deff; lost = over_up cell.lost deff }

  -- `_worse`: a significant loss, on the cell's own counts and the p-value of the effective ones.
  unfoldable pub is_worse : List Row → String → String → Bool
  unfolding paired_p
  is_worse rows incumbent challenger =
      let got = paired_p rows incumbent challenger in
      not (leb got.cell.lost got.cell.gained) && ratio_leb (p_value got) alpha

  -- `_gates`: whether to adopt, and why.
  unfoldable pub gates : Summary → Summary → List Row → String → String → Bool × Reason
  unfolding better paired_p
  gates incumbent challenger rows name_i name_c =
      let got = paired_p rows name_i name_c in
      if not (better ms.text_before ms.direction incumbent challenger)
      then (false, not_better)
      else if is_empty rows
      then (false, no_rows)
      else if (discordant got.cell == 0) && (got.cell.unchanged == 0)
      then (false, no_shared_case)
      else if not (ratio_leb (p_value got) alpha)
      then (false, not_established)
      else (true, beats)

  -- What the two gates read once the split is applied.
  pub record Read : Type 0 where
    pub rows : List Row
    pub incumbent : Summary
    pub challenger : Summary
    pub dev : Option (ℕ × ℕ × Ratio)

  abbrev pub dev_cell : List Row → String → String → Option (ℕ × ℕ × Ratio)
  unfolding paired_p
  dev_cell rows name_i name_c =
      let got = paired_p rows name_i name_c in
      if is_empty rows then none else some (got.cell.gained, got.cell.lost, p_value got)

  abbrev pub read_through : Option Split → Summary → Summary → List Row → Read
  read_through none incumbent challenger rows = record {
    rows = rows;
    incumbent = incumbent;
    challenger = challenger;
    dev = none;
  }
  read_through (some split) incumbent challenger rows =
      let held = rows_on split on_holdout rows in
      if is_empty rows
      then record { rows = rows; incumbent = incumbent; challenger = challenger; dev = none }
      else record {
        rows = held;
        incumbent = or_else (summary held incumbent.candidate) incumbent;
        challenger = or_else (summary held challenger.candidate) challenger;
        dev = dev_cell (rows_on split on_dev rows) incumbent.candidate challenger.candidate;
      }

  -- `decide`
  unfoldable pub decide : Summary → Summary → List Row → Option Split → Option Plan → Verdict
  unfolding gates is_worse
  decide incumbent challenger rows split plan =
      let name_i = incumbent.candidate in
      let name_c = challenger.candidate in
      let read = read_through split incumbent challenger rows in
      let (adopts, why) = gates read.incumbent read.challenger read.rows name_i name_c in
      let lost = not (is_empty read.rows) && not adopts && is_worse read.rows name_i name_c in
      let weak = not lost && not adopts && short_of_power plan && not (is_empty read.rows) in
      record {
        incumbent = name_i;
        challenger = name_c;
        adopt = adopts;
        why =
            why ∷ (if lost then worse ∷ [] else if weak then underpowered ∷ [] else [])
            ++ notes split read.dev;
        is_underpowered = weak;
        evidence = record { split = split; dev = read.dev; power = plan };
      }
