-- ===== src/Paired/Examples.antt =====
-- Tests and concrete instances for harness/paired.py.
use localharness.Prelude.{◌≡◌, refl, true, false, List, [], ◌∷◌}
use localharness.Dict.{lookup, put}
use localharness.Paired.{
  Row, Cell, sign_test, comb, tail, cell_p, verdict, differs, head_to_head, passes_from, shared,
  count_pairs,
}

program : Unit {0}
unfolding sign_test comb tail cell_p verdict head_to_head passes_from shared lookup put count_pairs
program = tt

-- The case of the module's own comment: 5 lost against 2 gained is p = 0.45.
sign_test-two_of_seven : sign_test 2 7 ≡ record { num = 58; den = 128 }
unfolding program
sign_test-two_of_seven = refl

abbrev six_lost : Cell
six_lost = record { candidate = "model"; lost = 6; gained = 0; unchanged = 3 }

six_lost-differs : verdict six_lost ≡ differs
unfolding program
six_lost-differs = refl

abbrev rows : List Row
rows =
    record { candidate = "old"; case_id = "a"; passed = true }
    ∷ record { candidate = "new"; case_id = "a"; passed = false }
    ∷ record { candidate = "old"; case_id = "b"; passed = false }
    ∷ record { candidate = "new"; case_id = "b"; passed = true }
    ∷ record { candidate = "new"; case_id = "c"; passed = true }
    ∷ []

head_to_head-rows :
    head_to_head rows "old" "new"
    ≡ record { candidate = "new"; lost = 1; gained = 1; unchanged = 0 }
unfolding program
head_to_head-rows = refl
