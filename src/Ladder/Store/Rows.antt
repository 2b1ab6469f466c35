-- ===== src/Ladder/Store/Rows.antt =====
-- The rows that harness/memory_store/transitions.py writes, and their look-ups.
use localharness.Prelude.{ℕ, ◌*◌, Bool, true, false, Option, none, some, List, String, ◌==◌, str_eq}
use localharness.Ladder.{
  Outcome, measured, declined, broken, queued, ignored, screened, Tier, inspect, judge, fetch,
  screen, measure, adopt, other, Reopen,
}
use localharness.Table.{find_row}

abbrev pub retest_after_seconds : ℕ
retest_after_seconds = 7 * 86400

abbrev pub retests : ℕ
retests = 3

-- What `decide` hands to `_write`.
pub record Row : Type 0 where
  pub outcome : Outcome
  pub tier : Tier
  pub detail : String
  pub run_path : String
  pub run_id : Option ℕ
  pub score : Option ℕ
  pub decided_at : ℕ
  pub until : String
  pub machine_id : Option ℕ
  pub candidate_id : Option ℕ
  pub reason : String

pub record Verdict : Type 0 where
  pub id : ℕ
  pub proposal_id : Option ℕ
  pub row : Row
  pub open row use *
  pub reopens : Option ℕ
  pub reopen_kind : Option Reopen

pub record Proposal : Type 0 where
  pub id : ℕ
  pub name : String
  pub state : Option Outcome
  pub state_verdict_id : Option ℕ
  pub retest_count : ℕ
  pub next_retest_at : Option ℕ

pub record Db : Type 0 where
  pub proposals : List Proposal
  pub verdicts : List Verdict

-- A row id in a test: `None` and 0 are false.
abbrev pub falsy : Option ℕ → Bool
falsy none = true
falsy (some n) = n == 0

abbrev pub outcome_eq : Outcome → Outcome → Bool
outcome_eq measured measured = true
outcome_eq declined declined = true
outcome_eq broken broken = true
outcome_eq queued queued = true
outcome_eq ignored ignored = true
outcome_eq screened screened = true
outcome_eq _ _ = false

abbrev pub tier_eq : Tier → Tier → Bool
tier_eq inspect inspect = true
tier_eq judge judge = true
tier_eq fetch fetch = true
tier_eq screen screen = true
tier_eq measure measure = true
tier_eq adopt adopt = true
tier_eq (other a) (other b) = str_eq a b
tier_eq _ _ = false

abbrev pub find_verdict : Option ℕ → List Verdict → Option Verdict
find_verdict none vs = none
find_verdict (some i) vs = find_row (λ v. v.id) i vs

abbrev pub find_proposal : ℕ → List Proposal → Option Proposal
find_proposal pid ps = find_row (λ p. p.id) pid ps

-- The tier of the verdict that holds a state; the empty text where the join finds none.
abbrev pub tier_of : Option Verdict → Tier
tier_of none = other ""
tier_of (some v) = v.tier
