-- ===== src/Record/Examples.antt =====
-- Tests and concrete instances for the recording of a verdict.
use localharness.Prelude.{ℕ, ◌≡◌, refl, true, false, none, some, [], ◌∷◌, ◌++◌, String, ◌&&◌, not}
use localharness.Prelude.Sort.{sorted, insert_sorted}
use localharness.Table.{find_row, update_row, max_id}
use localharness.Dict.{lookup, put, remove}
use localharness.Ladder.{transition_refused}
use localharness.Ladder.Store.{
  Db, find_verdict, write, write_rounds, restates, moved, schedule_retest, insert_verdict,
  delete_verdict, due_after, count_after, next_after,
}
use localharness.Ladder.Decide.{decide, decided, looks_like_path}
use localharness.Ladder.Examples.{one_named}
use localharness.Served.{
  measured, by_hand, Adoption, Candidate, Store, is_reference, joined, fit, resolve, resolve_rows,
  current, is_by_hand,
}
use localharness.Record.{
  Settled, Answers, recorded, held_back, record_, guarded, row_of, machine_of,
}
use localharness.Record.Closes.{record_lem}

program : Unit {0}
unfolding sorted insert_sorted find_row update_row max_id lookup put remove transition_refused write
    write_rounds restates moved schedule_retest insert_verdict delete_verdict due_after count_after
    next_after decide looks_like_path is_reference joined fit resolve resolve_rows record_ guarded
program = tt

abbrev model : Candidate
model = record { id = 1; spec = "org/model"; size_bytes = 9000 }

abbrev shop : Store
shop = record {
  adoptions = [];
  candidates = model ∷ [];
  results = [];
  machines = record { id = 1; ceiling_kb = 8 } ∷ [];
  detected_kb = 8;
}

abbrev answers : Answers
answers = record {
  normal = λ lane. lane;
  ensure = λ spec s. (some 1, s);
  proposal_of = λ spec s. "org/model";
  enforces_schema = λ spec. false;
  detail = λ v. v.lane;
  machine = some 1;
  now = 2000;
}

abbrev alone : ℕ → Db → Db
alone n db = db

abbrev win : String → Settled
win lane = record {
  lane = lane;
  challenger = "org/model";
  adopts = true;
  how = measured;
  failure_class = "";
  all_machines = false;
  held = false;
}

abbrev by_a_person : Settled
by_a_person = record {
  lane = "music";
  challenger = "org/model";
  adopts = true;
  how = by_hand;
  failure_class = "";
  all_machines = true;
  held = false;
}

abbrev after : Db
after = (decide alone "org/model" (row_of answers alone (win "code") 1 none) none true one_named).1

-- A by-hand adoption of a model over the ceiling is held back, and a schema lane's win on an engine
-- that enforces no schema is recorded and not served.
too_large : (record_ answers alone by_a_person "" none one_named shop).0 ≡ held_back
unfolding program
too_large = refl

no_schema : (record_ answers alone (win "claims") "" none one_named shop).2.adoptions ≡ []
unfolding program
no_schema = refl

still_adopted : (guarded answers alone "" (win "code")).adopts ≡ true
unfolding program
still_adopted = refl

fits_here :
    (is_by_hand (guarded answers alone "" (win "code")).how && not (fit shop 1 (some 1)).ok) ≡ false
unfolding program
fits_here = refl

wrote :
    decide alone "org/model"
      (row_of answers alone (guarded answers alone "" (win "code")) 1 none)
      none
      true
      one_named
    ≡ (decided 1, after)
unfolding program
wrote = refl

written_here : machine_of (find_verdict (some 1) after.verdicts) ≡ some 1
unfolding program
written_here = refl

known : find_row (λ c. c.id) 1 shop.candidates ≡ some model
unfolding program
known = refl

own_model : is_reference model.spec ≡ false
unfolding program
own_model = refl

-- `decide` restates the first win, whose adoption is stored, so that the second record of it inserts
-- no row: the lane goes on serving the model that was adopted in between.
abbrev in_between : Adoption
in_between = record {
  id = 2;
  lane = "code";
  candidate_id = 2;
  machine_id = some 1;
  how = measured;
  all_machines = false;
  adopted_at = 3000;
  verdict_id = some 2;
}

abbrev shop_of_two : Store
shop_of_two = record {
  adoptions =
      (record_ answers alone (win "code") "" none one_named shop).2.adoptions ++ in_between ∷ [];
  candidates = model ∷ record { id = 2; spec = "org/other"; size_bytes = 100 } ∷ [];
  results = [];
  machines = [];
  detected_kb = 8;
}

recorded_again : (record_ answers alone (win "code") "" none after shop_of_two).0 ≡ recorded 1
unfolding program
recorded_again = refl

serves_the_other :
    lookup "code"
      (current (record_ answers alone (win "code") "" none after shop_of_two).2 (1 ∷ []))
    ≡ some (record { row = in_between; spec = "org/other" })
unfolding program
serves_the_other = refl

record_lem_example :
    (new : Adoption) × (new.candidate_id ≡ 1)
    × ((record_ answers alone (win "code") "" none one_named shop).0 ≡ recorded 1)
    × (lookup
          (guarded answers alone "" (win "code")).lane
          (current (record_ answers alone (win "code") "" none one_named shop).2 (1 ∷ []))
        ≡ some (record { row = new; spec = "org/model" }))
record_lem_example =
    record_lem answers alone (win "code") "" none one_named after shop shop 1 model 1 1 [] refl
      still_adopted refl refl fits_here wrote written_here tt refl known own_model
