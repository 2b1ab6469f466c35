-- ===== src/Holdout/Examples.antt =====
-- Tests and concrete instances for harness/holdout.py.
use localharness.Prelude.{ℕ, ◌≡◌, refl, Bool, false, List, [], ◌∷◌, String}
use localharness.Prelude.Sort.{sorted, insert_sorted}
use localharness.Holdout.{assign, base_id, side, on_dev}

program : Unit {0}
unfolding assign sorted insert_sorted base_id side
program = tt

abbrev text_before : String → String → Bool
text_before a b = false

abbrev draws : List (ℕ × String)
draws =
    (900000000000000, "a")
    ∷ (1, "b")
    ∷ (200000000000000, "c")
    ∷ (3, "d")
    ∷ (250000000000000, "e")
    ∷ (260000000000000, "f")
    ∷ (270000000000000, "g")
    ∷ []

draws-enough : (assign text_before "code" draws).too_small ≡ false
unfolding program
draws-enough = refl

repeat-side : side (assign text_before "code" draws) "a#2" ≡ on_dev
unfolding program
repeat-side = refl
