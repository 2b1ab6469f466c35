-- ===== src/Ladder/Store.antt =====
-- The writer of harness/memory_store/transitions.py: `_write`, `_schedule_retest`, `decide`,
-- `retract` and `state_audit`, over the rows of the tables `proposals` and `verdicts`. Rows stand in
-- the order of their ids. Columns that no code here reads (rubric, judge, sizes) are left out, and
-- times are whole seconds. A score is a float in the source; the code only asks whether it is there.
mod Rows
pub mod Sound
pub mod Retry
use mathlib.Core.Option
use localharness.Prelude.{
  ℕ, zero, suc, ◌+◌, ◌*◌, ◌<◌, Bool, true, false, ◌&&◌, not, Option, none, some, List, [], ◌∷◌,
  ◌++◌, String, ltb, ◌==◌, str_eq, is_none, or_else, if◌then◌else◌,
}
use text.Mathlib.Text.{starts_with}
use localharness.Ladder.{
  Outcome, measured, declined, broken, queued, ignored, screened, Tier, inspect, judge, fetch,
  screen, measure, adopt, other, Reopen, retraction, retest, Refusal, transition_refused,
  retest_eligible, Event, fold, Standing,
}
use localharness.Table.{max_id, find_row, update_row}
unfoldable pub use Rows.*

-- A deterministic tier that restates the state it holds.
abbrev same_fact : Option Verdict → Row → Bool
same_fact none row = false
same_fact (some v) row =
    tier_eq v.tier row.tier
    && outcome_eq v.outcome row.outcome
    && str_eq v.detail row.detail
    && is_none v.score
    && str_eq v.run_path ""
    && falsy v.run_id

unfoldable pub restates : Option ℕ → Option Verdict → Row → Option Reopen → Bool
restates id held row reopen =
    not (falsy id)
    && is_none reopen
    && is_none row.score
    && str_eq row.run_path ""
    && falsy row.run_id
    && same_fact held row

-- _schedule_retest
unfoldable pub due_after : Row → ℕ → Option ℕ
due_after row spent =
    if retest_eligible (some row.outcome) row.tier row.until && ltb spent retests
    then some (row.decided_at + retest_after_seconds)
    else none

unfoldable pub count_after : Option Reopen → ℕ → ℕ
count_after (some retest) spent = spent + 1
count_after _ spent = spent

unfoldable pub next_after : Row → Option Reopen → ℕ → Option ℕ
unfolding due_after
next_after row (some retest) spent = none
next_after row _ spent = due_after row spent

abbrev pub reschedule : Row → Option Reopen → Proposal → Proposal
reschedule row reopen p = record p {
  retest_count = count_after reopen p.retest_count;
  next_retest_at = next_after row reopen p.retest_count;
}

unfoldable pub schedule_retest : Db → ℕ → Row → Option Reopen → Db
unfolding count_after next_after
schedule_retest db pid row reopen = record db {
  proposals = update_row (λ p. p.id) pid (reschedule row reopen) db.proposals;
}

-- What `_write` returns or raises.
pub data Written : Type 0 where
  wrote : ℕ → Written
  illegal : Refusal → Written
  must_say_why no_proposal kept_moving : Written

-- The verdict that an attempt inserts.
abbrev pub new_verdict : ℕ → ℕ → Row → Option ℕ → Option Reopen → Verdict
new_verdict vid pid row held reopen = record {
  id = vid;
  proposal_id = some pid;
  row = row;
  reopens = elim reopen [ none ↦ none | some _ ↦ held ];
  reopen_kind = reopen;
}

-- UPDATE proposals … WHERE id = ? AND COALESCE(state_verdict_id, 0) = ?: whether a row is changed.
abbrev unmoved : Option ℕ → Option Proposal → Bool
unmoved held none = false
unmoved held (some p) = or_else p.state_verdict_id 0 == or_else held 0

abbrev pub move_state : Outcome → ℕ → Proposal → Proposal
move_state outcome vid p = record p { state = some outcome; state_verdict_id = some vid }

-- INSERT INTO verdicts; DELETE FROM verdicts WHERE id = ?
unfoldable pub insert_verdict : Db → Verdict → Db
insert_verdict db v = record db { verdicts = db.verdicts ++ v ∷ [] }

abbrev without_id : ℕ → List Verdict → List Verdict
without_id vid [] = []
without_id vid (v ∷ vs) = if v.id == vid then without_id vid vs else v ∷ without_id vid vs

unfoldable pub delete_verdict : Db → ℕ → Db
delete_verdict db vid = record db { verdicts = without_id vid db.verdicts }

-- The insert, the guarded update, and the schedule: the store after an attempt that moved the state.
unfoldable pub moved : Db → ℕ → Row → Option ℕ → Option Reopen → ℕ → Db
unfolding insert_verdict schedule_retest
moved db pid row held reopen vid =
    let db' = insert_verdict db (new_verdict vid pid row held reopen) in
    schedule_retest
      (record db' {
        proposals = update_row (λ p. p.id) pid (move_state row.outcome vid) db'.proposals;
      })
      pid row reopen

-- `others n` is what other writers commit between the read and the insert of an attempt.
module _ (others : ℕ → Db → Db) (pid : ℕ) (row : Row) (reopen : Option Reopen) where
  -- The rest of one attempt, once the move is allowed against `held`. `again` is the next round.
  abbrev insert_or : Option ℕ → Db → (Db → Written × Db) → Written × Db
  insert_or held db again =
      let vid = suc (max_id (λ v. v.id) db.verdicts) in
      if unmoved held (find_proposal pid db.proposals)
      then (wrote vid, moved db pid row held reopen vid)
      else again (delete_verdict (insert_verdict db (new_verdict vid pid row held reopen)) vid)

  abbrev attempt : ℕ → Option Proposal → Db → (Db → Written × Db) → Written × Db
  attempt n none db again = (no_proposal, db)
  attempt n (some p) db again =
      let held = find_verdict p.state_verdict_id db.verdicts in
      if restates p.state_verdict_id held row reopen
      then (wrote (or_else p.state_verdict_id 0), db)
      else elim (transition_refused p.state (tier_of held) row.outcome row.tier reopen) [
        | some why ↦ (illegal why, db)
        | none ↦ insert_or p.state_verdict_id (others n db) again
      ]

  -- `for _ in range(8)`; the argument is the rounds left.
  unfoldable pub write_rounds : ℕ → Db → Written × Db
  write_rounds zero db = (kept_moving, db)
  write_rounds (suc n) db = attempt n (find_proposal pid db.proposals) db (λ d. write_rounds n d)

  -- `why` is the reason of a reopen; `blank_why` is whether stripping leaves nothing of it.
  unfoldable pub write : Bool → Db → Written × Db
  unfolding write_rounds
  write blank_why db =
      if not (is_none reopen) && blank_why then (must_say_why, db) else write_rounds 8 db

-- state_audit: before reopen kinds were a column, a retraction was only its prose.
abbrev pub event_kind : Verdict → Option Reopen
event_kind v = elim v.reopen_kind [
  | some kind ↦ some kind
  | none ↦ if starts_with v.detail "retracted:" then some retraction else none
]

abbrev pub event_of : Verdict → Event
event_of v = record { outcome = v.outcome; tier = v.tier; reopen = event_kind v }

abbrev pub is_about : ℕ → Option ℕ → Bool
is_about pid none = false
is_about pid (some q) = q == pid

unfoldable pub events_of : ℕ → List Verdict → List Event
events_of pid [] = []
events_of pid (v ∷ vs) =
    if is_about pid v.proposal_id then event_of v ∷ events_of pid vs else events_of pid vs

-- Whether `state_audit` lists the proposal under `folds_differently`.
abbrev option_outcome_eq : Option Outcome → Option Outcome → Bool
option_outcome_eq none none = true
option_outcome_eq (some a) (some b) = outcome_eq a b
option_outcome_eq _ _ = false

unfoldable pub folds_differently : Db → Proposal → Bool
folds_differently db p = not (option_outcome_eq (fold (events_of p.id db.verdicts)).state p.state)
