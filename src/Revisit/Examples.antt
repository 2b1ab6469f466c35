-- ===== src/Revisit/Examples.antt =====
-- Tests and concrete instances for verdicts that may be asked again.
use localharness.Prelude.{◌≡◌, refl, true, false, none, some, [], ◌∷◌, String}
use localharness.Dict.{lookup}
use localharness.Table.{find_row, update_row, max_id}
use localharness.Ladder.{declined, screen, transition_refused}
use localharness.Ladder.Store.{
  Row, Db, write, write_rounds, restates, moved, schedule_retest, insert_verdict, delete_verdict,
  due_after, count_after, next_after,
}
use localharness.Ladder.Decide.{decide, retract, looks_like_path}
use localharness.Ladder.Examples.{one_named}
use localharness.Text.{before_char, after_char, has_char, split}
use localharness.Revisit.{
  Facts, digits_from, digits, version_tuple, tuple_ltb, text_ltb, matches, until_met, revisitable,
  requeue_rows, requeue_revisitable,
}

program : Unit {0}
unfolding before_char after_char has_char split digits_from digits version_tuple tuple_ltb text_ltb
    matches until_met lookup revisitable requeue_rows requeue_revisitable find_row update_row max_id
    write write_rounds restates moved schedule_retest insert_verdict delete_verdict due_after
    count_after next_after decide retract transition_refused looks_like_path
program = tt

abbrev same : String → String
same s = s

abbrev facts : Facts
facts = record {
  runtimes = "mlx,llamacpp";
  memory_gb = some 32;
  ceiling_gb = some 24;
  versions = ("mlx-lm", "0.31.10") ∷ [];
  limits = ("timeout", 600) ∷ [];
  last_commit = "2026-11-20T10:00:00";
}

runtime_there : until_met same digits "runtime:cuda|mlx" facts ≡ true
unfolding program
runtime_there = refl

runtime_missing : until_met same digits "runtime:cuda" facts ≡ false
unfolding program
runtime_missing = refl

-- 0.31.10 comes after 0.31.9.
version_newer : until_met same digits "version:mlx-lm>0.31.9" facts ≡ true
unfolding program
version_newer = refl

limit_raised : until_met same digits "limit:timeout>600" facts ≡ false
unfolding program
limit_raised = refl

committed_since : until_met same digits "commit_after:2026-11-01" facts ≡ true
unfolding program
committed_since = refl

no_date : until_met same digits "commit_after:last Tuesday" facts ≡ false
unfolding program
no_date = refl

ceiling_high : until_met same digits "ceiling_gb:>20" facts ≡ true
unfolding program
ceiling_high = refl

-- A model that was declined for its size, and waits for a higher ceiling.
abbrev too_big : Row
too_big = record {
  outcome = declined;
  tier = screen;
  detail = "too big";
  run_path = "";
  run_id = none;
  score = none;
  decided_at = 1000;
  until = "ceiling_gb:>20";
  machine_id = some 1;
  candidate_id = none;
  reason = "machine";
}

abbrev waiting : Db
waiting = (write (λ n db. db) 4 too_big none false one_named).1

requeued :
    (requeue_revisitable same digits (some 1) (λ n db. db) 2000 facts waiting).0
    ≡ some ("org/model" ∷ [])
unfolding program
requeued = refl

asked_once :
    (requeue_revisitable same digits
      (some 1)
      (λ n db. db)
      3000
      facts
      (requeue_revisitable same digits (some 1) (λ n db. db) 2000 facts waiting).1).0
    ≡ some []
unfolding program
asked_once = refl
