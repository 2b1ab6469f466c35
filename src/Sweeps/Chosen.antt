-- ===== src/Sweeps/Chosen.antt =====
-- The value that harness/sweeps.py chooses.
use localharness.Prelude.{◌≤◌, ◌≡◌, true, List, [], ◌∷◌, arith, All}
use localharness.Sweeps.{Cost, cheapest}

-- The costs that are no cheaper than a bound, among those that are tied.
abbrev pub NoCheaper : Cost → List Cost → Type 0
NoCheaper c ds = All (λ d. d.tied ≡ true → c.seconds ≤ d.seconds) ds

cheapest-le : (c : Cost) (cs : List Cost) → (cheapest c cs).seconds ≤ c.seconds
unfolding cheapest
cheapest-le c [] = omega arith
cheapest-le c (d ∷ ds) = ground (arith, cheapest-le d ds, cheapest-le c ds)
