-- ===== src/Reverify/Due.antt =====
-- When harness/reverify.py queues a re-run: `moved`, `baseline`, `triggers`, `_skip`, `plan` and
-- `check`. What a lane serves, the runs of a candidate here, newest first, the days of a
-- lane, the queue's jobs and the answers of harness/usage.py are parameters; `normal` strips a
-- text and lowers its case.
use Prim.Native.String.{◌++◌ as append}
use localharness.Prelude.{
  ℕ, suc, ◌+◌, ◌*◌, Bool, true, false, ◌&&◌, ◌||◌, not, is_none, Option, none, some, List, [], ◌∷◌,
  ◌++◌, map, String, ltb, ◌==◌, str_eq, if◌then◌else◌,
}
use localharness.Dict.{lookup}
use localharness.Newest.{last_of}
use localharness.Table.{select, max_id, is_any}
use localharness.Lanes.{canonical}
use localharness.Queue.{Job}
use localharness.Reverify.{
  Outcome, failed, regressed, unrun, Reverification, Results, is_any_passed, settle,
}

-- FLAGGED
abbrev pub is_flagged : Option Outcome → Bool
is_flagged (some failed) = true
is_flagged (some regressed) = true
is_flagged (some unrun) = true
is_flagged _ = false

-- What a lane serves, the version keys that it watches, and the lane's days.
pub record Item : Type 0 where
  pub lane : String
  pub candidate_id : Option ℕ
  pub spec : String
  pub incumbent : String
  pub runtimes : List String
  pub days : ℕ

pub record Run : Type 0 where
  pub id : ℕ
  pub generated_at : Option ℕ
  pub versions : List (String × String)

abbrev pub recorded : Option String → Option String
recorded none = none
recorded (some v) = if str_eq v "" then none else some v

abbrev pub change : String → Option String → Option String → List String
change k (some a) (some b) =
    if str_eq a b then [] else append k (append " " (append a (append " -> " b))) ∷ []
change k _ _ = []

unfoldable pub moved : List (String × String) → List (String × String) → List String → List String
moved before after [] = []
moved before after (k ∷ ks) =
    change k (recorded (lookup k before)) (recorded (lookup k after)) ++ moved before after ks

abbrev pub same_id : Option ℕ → Option ℕ → Bool
same_id none none = true
same_id (some a) (some b) = a == b
same_id _ _ = false

-- `id in _flagged_runs(conn)`
abbrev pub is_flagged_run : List Reverification → ℕ → Bool
is_flagged_run rows id = is_any (λ r. is_flagged r.outcome && same_id r.run_id (some id)) rows

abbrev pub serves_baseline : Results → List Reverification → Option ℕ → Run → Bool
serves_baseline store rows cid run =
    not (is_flagged_run rows run.id)
    && not (is_none run.generated_at)
    && is_any_passed (store.rows run.id cid)

-- `baseline`, for a candidate that has an id.
abbrev pub baseline_in : Results → List Reverification → Option ℕ → List Run → Option Run
baseline_in store rows cid [] = none
baseline_in store rows cid (r ∷ rs) =
    let rest = baseline_in store rows cid rs in
    if serves_baseline store rows cid r then some r else rest

unfoldable pub baseline : Results → List Reverification → Option ℕ → List Run → Option Run
baseline store rows none runs = none
baseline store rows (some cid) runs = baseline_in store rows (some cid) runs

abbrev pub is_about : Item → Reverification → Bool
is_about item r = str_eq r.lane item.lane && same_id r.candidate_id item.candidate_id

-- `_latest`
unfoldable pub latest : List Reverification → Item → Option Reverification
latest rows item = last_of (is_about item) rows

-- VERSIONS, AGE, USAGE
pub data Trigger : Type 0 where
  versions : String → Trigger
  age usage : Trigger

abbrev pub is_old : ℕ → ℕ → Option ℕ → Bool
is_old now days none = true
is_old now days (some at) = ltb (at + days * 86400) now

abbrev pub from_base : ℕ → List (String × String) → Item → Option Run → List Trigger
from_base now current item none = age ∷ []
from_base now current item (some run) =
    map versions (moved run.versions current item.runtimes)
    ++ (if is_old now item.days run.generated_at then age ∷ [] else [])

abbrev pub from_use : Option ℕ → Option Reverification → List Trigger
from_use none last = []
from_use (some switched) none = usage ∷ []
from_use (some switched) (some r) = if ltb r.queued_at switched then usage ∷ [] else []

-- `triggers`: `used` is when the switch was after which real use regressed.
unfoldable pub triggers :
    ℕ → List (String × String) → Item → Option Run → Option ℕ → Option Reverification → List Trigger
triggers now current item base used last = from_base now current item base ++ from_use used last

pub data Skip : Type 0 where
  already_queued nothing_moved waiting_for_a_person : Skip

abbrev pub has_triggers : List Trigger → Bool
has_triggers [] = false
has_triggers (_ ∷ _) = true

abbrev pub is_recent : ℕ → ℕ → Option ℕ → Bool
is_recent now days none = ltb now (days * 86400)
is_recent now days (some at) = ltb now (at + days * 86400)

unfoldable pub skip : Option Reverification → Item → List Trigger → ℕ → Option Skip
skip none item found now = if has_triggers found then none else some nothing_moved
skip (some last) item found now =
    if is_none last.outcome
    then some already_queued
    else if not (has_triggers found)
    then some nothing_moved
    else if is_flagged last.outcome && is_recent now item.days last.settled_at
    then some waiting_for_a_person
    else none

-- What `plan` and `check` are given, besides the rows and the items.
pub record World : Type 0 where
  pub store : Results
  pub runs : Item → List Run
  pub current : List (String × String)
  pub used : Item → Option ℕ
  pub job_id : Item → ℕ
  pub get : ℕ → Option Job
  pub normal : String → String
  pub now : ℕ

unfoldable pub found : World → List Reverification → Item → List Trigger
found w rows item =
    triggers w.now w.current item (baseline w.store rows item.candidate_id (w.runs item))
      (w.used item) (latest rows item)

-- entry["triggers"] and not entry["skip"], of the entry that `plan` makes of an item.
unfoldable pub is_due : World → List Reverification → Item → Bool
is_due w rows item =
    has_triggers (found w rows item)
    && is_none (skip (latest rows item) item (found w rows item) w.now)

abbrev pub base_id : Option Run → Option ℕ
base_id none = none
base_id (some r) = some r.id

abbrev pub queued_row : World → List Reverification → ℕ → Item → Reverification
queued_row w rows id item = record {
  id = id;
  lane = item.lane;
  candidate_id = item.candidate_id;
  spec = item.spec;
  incumbent = item.incumbent;
  job_id = some (w.job_id item);
  baseline_run_id = base_id (baseline w.store rows item.candidate_id (w.runs item));
  queued_at = w.now;
  outcome = none;
  reason = "";
  failure_class = "";
  run_id = none;
  settled_at = none;
}

-- The rows that `check` inserts: all are planned on the rows as they stood, the first id is next.
unfoldable pub queue_each : World → List Reverification → ℕ → List Item → List Reverification
queue_each w rows next [] = []
queue_each w rows next (item ∷ items) = elim (is_due w rows item) [
  | true ↦ queued_row w rows next item ∷ queue_each w rows (suc next) items
  | false ↦ queue_each w rows next items
]

-- The rows after the loop of `check` over the entries of `plan`.
unfoldable pub queue_due : World → List Item → List Reverification → List Reverification
queue_due w items rows = rows ++ queue_each w rows (suc (max_id (λ r. r.id) rows)) items

-- The items that `plan` does not pass over.
abbrev pub planned : String → List Item → List Item
planned want items = select (λ i. str_eq want "" || str_eq i.lane want) items

-- `check`: the rows after it.
unfoldable pub check :
    World
    → (lane : String) → (dry_run : Bool) → List Item
    → List Reverification
    → List Reverification
unfolding settle queue_due
check w lane dry_run items rows =
    if dry_run
    then rows
    else queue_due w (planned (canonical w.normal lane) items) (settle w.store w.get w.now rows).0
