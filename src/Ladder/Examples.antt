-- ===== src/Ladder/Examples.antt =====
-- Tests and concrete instances for harness/memory_store/transitions.py and retests.py.
use localharness.Prelude.{
  ℕ, ◌≤◌, ◌≡◌, refl, true, false, Option, none, some, List, [], ◌∷◌, String, arith, ◌↔◌, inl,
}
use localharness.Prelude.Sort.{sorted, insert_sorted}
use localharness.Table.{find_row, update_row, max_id}
use localharness.Ladder.{
  Outcome, Tier, Event, Standing, measured, declined, queued, inspect, screen, measure, other,
  retest, fold_from, fold_step, transition_refused, fold, is_blank, retest_eligible, in_terminal,
  ladder,
}
use localharness.Ladder.Fold.{Allowed, fold_from-in_terminal, transition_refused-eq-none}
use localharness.Ladder.Store.{
  Row, Proposal, Db, find_proposal, write, restates, write_rounds, moved, schedule_retest,
  insert_verdict, delete_verdict, events_of, due_after, count_after, next_after, wrote,
}
use localharness.Ladder.Store.Sound.{IsSound}
use localharness.Ladder.Store.Retry.{IsPolite, write-IsSound}
use localharness.Ladder.Decide.{decide, due_retests}
use localharness.Ladder.Decide.Kept.{decide-IsSound}

program : Unit {0}
unfolding fold fold_from fold_step transition_refused find_row update_row max_id write restates
    write_rounds moved schedule_retest insert_verdict delete_verdict events_of due_after count_after
    next_after retest_eligible is_blank sorted insert_sorted due_retests
program = tt

abbrev history : Standing
history = record { state = some declined; tier = screen }

abbrev later : List Event
later =
    record { outcome = queued; tier = inspect; reopen = none }
    ∷ record { outcome = measured; tier = measure; reopen = none }
    ∷ []

refused_requeue : fold_from history later ≡ record { state = some measured; tier = measure }
unfolding program
refused_requeue = refl

fold_from-in_terminal_example :
    (in_terminal (fold_from history later).state ≡ true)
    × (ladder screen ≤ ladder (fold_from history later).tier)
fold_from-in_terminal_example = fold_from-in_terminal history later refl (refl, (refl, tt))

retest-allowed : transition_refused (some declined) screen queued inspect (some retest) ≡ none
unfolding program
retest-allowed = refl

transition_refused-eq-none_example :
    (transition_refused (some declined) screen queued inspect (some retest) ≡ none)
    ↔ Allowed (some declined) screen queued inspect (some retest)
transition_refused-eq-none_example =
    transition_refused-eq-none (some declined) screen queued inspect (some retest)

abbrev pub named : Proposal
named = record {
  id = 4;
  name = "org/model";
  state = none;
  state_verdict_id = none;
  retest_count = 0;
  next_retest_at = none;
}

abbrev pub one_named : Db
one_named = record { proposals = named ∷ []; verdicts = [] }

abbrev declining : Row
declining = record {
  outcome = declined;
  tier = screen;
  detail = "failed the screen";
  run_path = "";
  run_id = none;
  score = none;
  decided_at = 1000;
  until = "";
  machine_id = some 1;
  candidate_id = none;
  reason = "candidate";
}

same_proposal : (q : ℕ) (p : Proposal) → find_proposal q one_named.proposals ≡ some p → named ≡ p
unfolding find_row
same_proposal q p h = ground arith

empty_history : (q : ℕ) → fold (events_of q []) ≡ record { state = none; tier = other "" }
unfolding program
empty_history q = refl

pub one_named-IsSound : IsSound one_named
one_named-IsSound = record {
  linked = λ q p h. rw (← same_proposal q p h) (inl (refl, refl));
  folded = λ q p h. rw (← same_proposal q p h) (empty_history q);
}

pub alone-IsPolite : IsPolite (λ n db. db)
alone-IsPolite = record { keeps_sound = λ n db s. s; keeps_verdicts = λ n db i v e. e }

write-IsSound_example : IsSound (write (λ n db. db) 4 declining none false one_named).1
write-IsSound_example =
    write-IsSound (λ n db. db) alone-IsPolite 4 declining none false one_named one_named-IsSound

abbrev after_decline : Db
after_decline = (write (λ n db. db) 4 declining none false one_named).1

write_declined : (write (λ n db. db) 4 declining none false one_named).0 ≡ wrote 1
unfolding program
write_declined = refl

found_named : find_proposal 4 one_named.proposals ≡ some named
unfolding find_row
found_named = refl

decide-IsSound_example : IsSound (decide (λ n db. db) "org/model" declining none false one_named).1
decide-IsSound_example =
    decide-IsSound (λ n db. db) alone-IsPolite "org/model" declining none false one_named
      one_named-IsSound

abbrev sentence : ℕ → Option Outcome → Tier → String
sentence n state tier = "retest"

-- The rejection comes due a week after it was decided.
due_after_a_week : due_retests 605799 after_decline ≡ []
unfolding program
due_after_a_week = refl
