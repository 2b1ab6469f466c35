-- ===== src/Served/Examples.antt =====
-- Tests and concrete instances for the adoptions that a lane serves.
use localharness.Prelude.{◌≡◌, ◌≢◌, refl, Option, true, false, some, [], ◌∷◌, String}
use localharness.Table.{find_row, max_id}
use localharness.Dict.{lookup, put, remove}
use localharness.Newest.{IsNewest}
use localharness.Prelude.Sort.{sorted, insert_sorted}
use localharness.Served.{
  measured, by_hand, Adoption, Candidate, Store, Joined, older, visible, joined, is_reference, fit,
  resolve, resolve_rows, or_fallback, default_for, peak, is_over,
}
use localharness.Served.Lane.{serves, default_for_lem}

program : Unit {0}
unfolding find_row max_id lookup put remove sorted insert_sorted joined is_reference fit resolve
    resolve_rows default_for
program = tt

abbrev lower : String → String
lower s = s

-- Machine 1 measured a small model, and then somebody adopted a large one by hand for all machines.
abbrev small : Adoption
small = record {
  id = 1;
  lane = "code";
  candidate_id = 1;
  machine_id = some 1;
  how = measured;
  all_machines = false;
  adopted_at = 100;
  verdict_id = some 1;
}

abbrev large : Adoption
large = record {
  id = 2;
  lane = "code";
  candidate_id = 2;
  machine_id = some 2;
  how = by_hand;
  all_machines = true;
  adopted_at = 200;
  verdict_id = some 2;
}

abbrev small_model : Candidate
small_model = record { id = 1; spec = "org/small"; size_bytes = 1000 }

abbrev shop : Store
shop = record {
  adoptions = large ∷ small ∷ [];
  candidates = small_model ∷ record { id = 2; spec = "org/large"; size_bytes = 0 } ∷ [];
  results = record { candidate_id = 2; machine_id = some 2; passed = true; peak_kb = 9000 } ∷ [];
  machines = record { id = 1; ceiling_kb = 8000 } ∷ record { id = 2; ceiling_kb = 64000 } ∷ [];
  detected_kb = 8000;
}

here_small : default_for lower "code" "typed" (some shop) (1 ∷ []) ≡ "org/small"
unfolding program
here_small = refl

there_large : default_for lower "code" "typed" (some shop) (2 ∷ []) ≡ "org/large"
unfolding program
there_large = refl

elsewhere_typed : default_for lower "web" "typed" (some shop) (1 ∷ []) ≡ "typed"
unfolding program
elsewhere_typed = refl

told_of_large :
    lookup "code" (resolve shop (1 ∷ [])).1
    ≡ some (record { row = large; spec = "org/large" }, is_over (peak 9000))
unfolding program
told_of_large = refl

code_named : ◌≢◌ {A = String} "code" ""
code_named e = absurd cc

default_for_lem_example :
    (newest : Option Joined) × (IsNewest older
        (serves shop (1 ∷ []) "code")
        (visible shop (1 ∷ []))
        newest
      × (default_for lower "code" "typed" (some shop) (1 ∷ []) ≡ or_fallback newest "typed"))
default_for_lem_example = default_for_lem lower "code" "typed" shop (1 ∷ []) code_named

own_model : is_reference "org/small" ≡ false
unfolding program
own_model = refl

small_known : find_row (λ c. c.id) 1 shop.candidates ≡ some small_model
unfolding program
small_known = refl
