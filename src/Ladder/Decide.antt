-- ===== src/Ladder/Decide.antt =====
-- `decide`, `decide_or_skip` and `retract` of harness/memory_store/transitions.py, and
-- harness/memory_store/retests.py. Times are whole seconds. The sentence that a retest writes as
-- its detail is made by a parameter: it formats values that stand in the store anyway.
pub mod Kept
use text.Mathlib.Text.{starts_with, find?}
use localharness.Prelude.{
  ℕ, suc, ◌+◌, Bool, true, false, ◌&&◌, ◌||◌, not, Option, none, some, List, [], ◌∷◌, ◌++◌, String,
  ltb, leb, ◌==◌, str_eq, is_none, or_else, if◌then◌else◌,
}
use localharness.Prelude.Sort.{sorted}
use localharness.Ladder.{
  Outcome, queued, Tier, inspect, Reopen, retraction, retest, Refusal, retest_eligible,
}
use localharness.Table.{max_id}
use localharness.Ladder.Store.{
  Row, Verdict, Proposal, Db, retests, falsy, outcome_eq, tier_eq, find_verdict, insert_verdict,
  write, Written,
}
use localharness.Ladder.Store

abbrev pub contains_text : List String → String → Bool
contains_text [] s = false
contains_text (t ∷ ts) s = str_eq t s || contains_text ts s

-- reasons.REASONS
abbrev pub reasons : List String
reasons =
    "candidate" ∷ "harness" ∷ "runtime" ∷ "machine" ∷ "memory" ∷ "limit" ∷ "upstream" ∷ "reopened"
    ∷ []

-- An absolute POSIX path begins with the slash that the second test looks for.
unfoldable pub looks_like_path : String → Bool
looks_like_path path = not (is_none (find? path "/")) || not (is_none (find? path "\\"))

pub data Decided : Type 0 where
  decided : ℕ → Decided
  illegal : Refusal → Decided
  must_say_why unknown_reason not_a_path no_such_name kept_moving : Decided

abbrev from_written : Written → Decided
from_written (Store.wrote vid) = decided vid
from_written (Store.illegal why) = illegal why
from_written Store.must_say_why = must_say_why
from_written Store.no_proposal = no_such_name
from_written Store.kept_moving = kept_moving

abbrev pub find_name : String → List Proposal → Option Proposal
find_name name [] = none
find_name name (p ∷ ps) = if str_eq p.name name then some p else find_name name ps

-- The newest verdict about a candidate: ORDER BY id DESC LIMIT 1.
abbrev newest_about : Option ℕ → List Verdict → Option Verdict
newest_about cid [] = none
newest_about cid (v ∷ vs) = elim (newest_about cid vs) [
  | some w ↦ some w
  | none ↦
      if not (is_none cid)
        && or_else v.candidate_id 0 == or_else cid 0
        && not (is_none v.candidate_id)
      then some v
      else none
]

-- A candidate no proposal names: whether its newest verdict already says this.
abbrev repeated : Option Verdict → Row → Option ℕ
repeated none row = none
repeated (some v) row =
    if tier_eq v.tier row.tier
      && outcome_eq v.outcome row.outcome
      && str_eq v.detail row.detail
      && is_none v.score
      && str_eq v.run_path ""
      && falsy v.run_id
    then some v.id
    else none

-- A verdict on a candidate alone.
abbrev pub candidate_verdict : ℕ → Row → Verdict
candidate_verdict vid row = record {
  id = vid;
  proposal_id = none;
  row = row;
  reopens = none;
  reopen_kind = none;
}

abbrev decide_candidate_as : Row → Db → Option ℕ → Decided × Db
decide_candidate_as row db (some id) = (decided id, db)
decide_candidate_as row db none =
    let vid = suc (max_id (λ v. v.id) db.verdicts) in
    (decided vid, insert_verdict db (candidate_verdict vid row))

abbrev decide_candidate : Row → Db → Decided × Db
decide_candidate row db =
    let bare = is_none row.score && str_eq row.run_path "" && falsy row.run_id in
    decide_candidate_as row db
      (if bare then repeated (newest_about row.candidate_id db.verdicts) row else none)

-- A named reopen is recorded as such.
abbrev with_reason : Option Reopen → Row → Row
with_reason none row = row
with_reason (some _) row = record row { reason = "reopened" }

module _ (others : ℕ → Db → Db) where
  abbrev decide_named : String → Row → Option Reopen → Bool → Option Proposal → Db → Decided × Db
  decide_named name row reopen blank_why (some p) db =
      let (w, db') = write others p.id row reopen blank_why db in (from_written w, db')
  decide_named name row reopen blank_why none db =
      if not (falsy row.candidate_id) && str_eq name ""
      then decide_candidate row db
      else (no_such_name, db)

  -- `blank_why` is whether the reason of the reopen is blank.
  unfoldable pub decide : String → Row → Option Reopen → Bool → Db → Decided × Db
  unfolding looks_like_path
  decide name row₀ reopen blank_why db =
      let row = with_reason reopen row₀ in
      if not (str_eq row.reason "") && not (contains_text reasons row.reason)
      then (unknown_reason, db)
      else if not (str_eq row.run_path "") && not (looks_like_path row.run_path)
      then (not_a_path, db)
      else decide_named name row reopen blank_why (find_name name db.proposals) db

  -- `None` stands for a refused move; any other error leaves the loop.
  abbrev pub decide_or_skip : String → Row → Option Reopen → Bool → Db → Option ℕ × Db
  decide_or_skip name row reopen blank_why db =
      let (d, db') = decide name row reopen blank_why db in
      (elim d [ decided vid ↦ some vid | _ ↦ none ], db')

  -- The row that a retraction writes: `queued` at `inspect` unless the caller says otherwise.
  unfoldable pub retract : String → Row → Bool → Db → Decided × Db
  retract name row blank_why db = decide name row (some retraction) blank_why db

-- One row of the join of `due_retests`.
pub record Due : Type 0 where
  pub id : ℕ
  pub name : String
  pub state : Option Outcome
  pub retest_count : ℕ
  pub next_retest_at : ℕ
  pub tier : Tier

abbrev is_due : ℕ → Proposal → Verdict → ℕ → Bool
is_due now p v at =
    leb at now && ltb p.retest_count retests && retest_eligible p.state v.tier v.until

abbrev due_of : ℕ → Proposal → Option Verdict → Option ℕ → List Due
due_of now p (some v) (some at) =
    if is_due now p v at
    then record {
      id = p.id;
      name = p.name;
      state = p.state;
      retest_count = p.retest_count;
      next_retest_at = at;
      tier = v.tier;
    }
      ∷ []
    else []
due_of now p _ _ = []

abbrev due_rows : ℕ → List Verdict → List Proposal → List Due
due_rows now vs [] = []
due_rows now vs (p ∷ ps) =
    due_of now p (find_verdict p.state_verdict_id vs) p.next_retest_at ++ due_rows now vs ps

-- ORDER BY next_retest_at, id
abbrev pub due_before : Due → Due → Bool
due_before a b =
    ltb a.next_retest_at b.next_retest_at || (a.next_retest_at == b.next_retest_at && ltb a.id b.id)

unfoldable pub due_retests : ℕ → Db → List Due
due_retests now db = sorted due_before (due_rows now db.verdicts db.proposals)

-- What a retest writes.
abbrev retest_row :
    (sentence : ℕ → Option Outcome → Tier → String) (machine : Option ℕ) → ℕ → Due → Row
retest_row sentence machine now r = record {
  outcome = queued;
  tier = inspect;
  detail = sentence (r.retest_count + 1) r.state r.tier;
  run_path = "";
  run_id = none;
  score = none;
  decided_at = now;
  until = "";
  machine_id = machine;
  candidate_id = none;
  reason = "";
}

module _ (sentence : ℕ → Option Outcome → Tier → String) (machine : Option ℕ) (others : ℕ → Db → Db)
    (now : ℕ) where
  -- The loop of `reopen_due_retests`: the names reopened, and the store.
  unfoldable pub reopen_rows : List Due → Db → List String × Db
  unfolding decide
  reopen_rows [] db = ([], db)
  reopen_rows (r ∷ rs) db =
      let (done, db') =
        decide_or_skip others r.name (retest_row sentence machine now r) (some retest) false db in
      let (names, db'') = reopen_rows rs db' in
      (elim done [ some _ ↦ r.name ∷ names | none ↦ names ], db'')

  unfoldable pub reopen_due_retests : Db → List String × Db
  unfolding reopen_rows
  reopen_due_retests db = reopen_rows (due_retests now db) db
