-- ===== src/Gates/Examples.antt =====
-- Tests and concrete instances for the gates of an adoption.
use localharness.Prelude.{
  ℕ, ◌*◌, ◌/◌, ◌≡◌, refl, Bool, true, false, none, some, List, [], ◌∷◌, ◌++◌, String, length, ◌&&◌,
  ◌==◌,
}
use localharness.Prelude.Sort.{sorted, insert_sorted}
use localharness.Table.{select}
use localharness.Dict.{lookup, put}
use localharness.Paired.{
  one, Row, sign_test, comb, tail, head_to_head, passes_from, shared, count_pairs, ratio_leb, alpha,
  discordant,
}
use localharness.Holdout.{Split, base_id, side, on_holdout}
use localharness.Power.{Plan, reached}
use localharness.Gates.{
  Summary, Measures, higher, better, tuple_ltb, paired_p, p_value, is_worse, gates, decide, rows_on,
  is_empty,
}
use localharness.Gates.Adopts.{decide-adopts, decide-holdout}

program : Unit {0}
unfolding sign_test comb tail head_to_head passes_from shared lookup put count_pairs sorted
    insert_sorted base_id side better tuple_ltb paired_p is_worse gates decide
program = tt

-- One row of each of the numbered cases.
abbrev ran : String → Bool → List String → List Row
ran name passed [] = []
ran name passed (c ∷ cs) =
    record { candidate = name; case_id = c; passed = passed } ∷ ran name passed cs

abbrev six : List String
six = "a" ∷ "b" ∷ "c" ∷ "d" ∷ "e" ∷ "f" ∷ []

-- The share of a candidate's rows that passed, in thousandths.
abbrev pass_rate_of : List Row → Summary
pass_rate_of rows = record {
  candidate = "";
  pass_rate = length (select (λ r. r.passed) rows) * 1000 / length rows;
  metrics = [];
  median_s = 1;
}

abbrev measures : Measures
measures = record {
  text_before = λ a b. false;
  direction = λ name. higher;
  summarize = pass_rate_of;
  design_effect = λ rows. one;
}

abbrev rated : String → ℕ → Summary
rated name rate = record { candidate = name; pass_rate = rate; metrics = []; median_s = 1 }

abbrev won : List Row
won = ran "old" false six ++ ran "new" true six

abbrev split : Split
split = record { lane = "code"; dev = "z" ∷ []; holdout = six; too_small = false }

adopted : (decide measures (rated "old" 0) (rated "new" 1000) won none none).adopt ≡ true
unfolding program
adopted = refl

decide-adopts_example :
    (better measures.text_before measures.direction (rated "old" 0) (rated "new" 1000) ≡ true)
    × (is_empty won ≡ false)
    × (((discordant (paired_p measures won "old" "new").cell == 0)
          && ((paired_p measures won "old" "new").cell.unchanged == 0))
        ≡ false)
    × (ratio_leb (p_value (paired_p measures won "old" "new")) alpha ≡ true)
decide-adopts_example =
    (decide-adopts measures (rated "old" 0) (rated "new" 1000) won none none).0 adopted

-- A plan that falls short, and a comparison of one case.
abbrev short : Plan
short = record {
  repeat = 1;
  power = 2000;
  target = 8000;
  capped = false;
  stochastic = true;
  why = reached;
}

abbrev one_case : List Row
one_case = ran "old" false ("a" ∷ []) ++ ran "new" true ("a" ∷ [])

weak :
    (decide measures (rated "old" 0) (rated "new" 1000) one_case none (some short)).is_underpowered
    ≡ true
unfolding program
weak = refl

-- The dev side's case is lost, and does not bear on the decision.
abbrev with_dev : List Row
with_dev = won ++ ran "old" true ("z" ∷ []) ++ ran "new" false ("z" ∷ [])

same_holdout : rows_on split on_holdout won ≡ rows_on split on_holdout with_dev
unfolding program
same_holdout = refl

decide-holdout_example :
    (decide measures (rated "old" 0) (rated "new" 1000) won (some split) none).adopt
    ≡ (decide measures (rated "old" 142) (rated "new" 857) with_dev (some split) (some short)).adopt
decide-holdout_example =
    decide-holdout measures (rated "old" 0) (rated "new" 1000) (rated "old" 142) (rated "new" 857)
      won with_dev split none (some short) refl refl same_holdout

-- The paired gate has two sides: a challenger that lost all six shared cases is adopted where its
-- rows on cases that the incumbent never ran put its pass rate ahead.
abbrev more : List String
more = "1" ∷ "2" ∷ "3" ∷ "4" ∷ "5" ∷ "6" ∷ "7" ∷ "8" ∷ []

abbrev lost_all : List Row
lost_all =
    ran "old" true six
    ++ ran "old" false ("y" ∷ "z" ∷ "w" ∷ "v" ∷ "u" ∷ "t" ∷ "s" ∷ [])
    ++ ran "new" false six
    ++ ran "new" true more

adopted_on_a_loss :
    (decide measures (rated "old" 461) (rated "new" 571) lost_all none none).adopt ≡ true
unfolding program
adopted_on_a_loss = refl
