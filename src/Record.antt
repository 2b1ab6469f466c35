-- ===== src/Record.antt =====
-- `record` of harness/adopt.py: a verdict of the gates, or of a person, is written on the ladder, and
-- an adoption becomes a row that the lane is served from. What harness/candidates.py and
-- harness/serving.py answer are parameters, and so are the texts; the columns that only explain a
-- verdict, and the gateway's refresh, are left out.
pub mod Closes
pub mod Guards
pub mod Examples
use localharness.Prelude.{
  ℕ, Bool, true, false, ◌&&◌, ◌||◌, not, Option, none, some, List, [], ◌∷◌, String, str_eq,
  if◌then◌else◌,
}
use localharness.Ladder.{Outcome, measured, declined, broken, queued, adopt}
use localharness.Ladder.Store.{Db, Row, Verdict, find_verdict}
use localharness.Ladder.Decide.{Decided, decided, decide}
use localharness.Reasons.{Class, classes, is_member}
use localharness.Served.{
  How, is_by_hand, Adoption, Store, is_reference, fit, new_adoption, insert_adoption,
}

-- The fields of a Verdict that `record` reads.
pub record Settled : Type 0 where
  pub lane : String
  pub challenger : String
  pub adopts : Bool
  pub how : How
  pub failure_class : String
  pub all_machines : Bool
  pub held : Bool

-- It raised Held or ValueError, `decide` raised, or the verdict was written.
pub data Recorded : Type 0 where
  held_back no_runner : Recorded
  refused : Decided → Recorded
  recorded : ℕ → Recorded

-- SCHEMA_LANES of harness/gateway.py
abbrev pub schema_lanes : List String
schema_lanes = "decide" ∷ "claims" ∷ []

abbrev pub or_challenger : String → Settled → String
or_challenger spec v = if str_eq spec "" then v.challenger else spec

-- A verdict of no adoption, for the reason of a class.
abbrev pub unadopted : String → Settled → Settled
unadopted failure_class v = record {
  lane = v.lane;
  challenger = v.challenger;
  adopts = false;
  how = v.how;
  failure_class = failure_class;
  all_machines = false;
  held = false;
}

abbrev pub outcome_named : String → Outcome
outcome_named name =
    if str_eq name "queued" then queued else if str_eq name "broken" then broken else declined

-- CLASSES.get(failure_class, …)
abbrev pub class_of : List Class → String → Outcome × String
class_of [] c = (declined, if str_eq c "underpowered" then "limit" else "candidate")
class_of (k ∷ ks) c = if str_eq k.name c then (outcome_named k.outcome, k.reason) else class_of ks c

abbrev pub machine_of : Option Verdict → Option ℕ
machine_of none = none
machine_of (some v) = v.machine_id

-- What the calls of `record` answer: `candidates.ensure` with the store after it, the name of the
-- candidate's proposal, whether the spec's engine enforces a schema, and the detail.
pub record Answers : Type 0 where
  pub normal : String → String
  pub ensure : String → Store → Option ℕ × Store
  pub proposal_of : String → Store → String
  pub enforces_schema : String → Bool
  pub detail : Settled → String
  pub machine : Option ℕ
  pub now : ℕ

module _ (an : Answers) (others : ℕ → Db → Db) where
  -- A reference model is never adopted.
  abbrev pub without_reference : String → Settled → Settled
  unfolding is_reference
  without_reference spec v =
      if is_reference v.challenger || is_reference spec then unadopted "" v else v

  -- `_schema_guard`
  abbrev pub schema_guard : String → Settled → Settled
  schema_guard spec v =
      if not v.adopts
        || (not (is_member (an.normal v.lane) schema_lanes) || an.enforces_schema spec)
      then v
      else unadopted "refused_by_gateway" v

  unfoldable pub guarded : String → Settled → Settled
  unfolding without_reference
  guarded spec v = schema_guard (or_challenger spec v) (without_reference spec v)

  abbrev pub row_of : Settled → ℕ → Option ℕ → Row
  row_of v candidate run_id =
      let (outcome, reason) = class_of classes v.failure_class in
      record {
        outcome = if v.adopts then measured else outcome;
        tier = adopt;
        detail = an.detail v;
        run_path = "";
        run_id = run_id;
        score = none;
        decided_at = an.now;
        until = "";
        machine_id = an.machine;
        candidate_id = some candidate;
        reason = reason;
      }

  -- From the verdict that `decide` wrote.
  abbrev pub serve : Settled → ℕ → Decided × Db → Store → Recorded × Db × Store
  serve v candidate (decided vid, db) s =
      if v.adopts
      then (
        recorded vid,
        db,
        insert_adoption
            (new_adoption (an.normal v.lane) candidate
              (machine_of (find_verdict (some vid) db.verdicts)) v.how v.all_machines an.now vid
              s.adoptions)
            s,
      )
      else (recorded vid, db, s)
  serve v candidate (d, db) s = (refused d, db, s)

  abbrev pub record_as : Settled → String → Option ℕ → Option ℕ × Store → Db → Recorded × Db × Store
  unfolding decide fit
  record_as v spec run_id (none, s) db = (no_runner, db, s)
  record_as v spec run_id (some candidate, s) db =
      if v.adopts && (is_by_hand v.how && not (fit s candidate an.machine).ok)
      then (held_back, db, s)
      else serve v candidate
          (decide others (an.proposal_of spec s) (row_of v candidate run_id) none true db) s

  unfoldable pub record_ : Settled → String → Option ℕ → Db → Store → Recorded × Db × Store
  unfolding guarded record_as
  record_ v spec run_id db s =
      if v.held
      then (held_back, db, s)
      else record_as (guarded spec v) (or_challenger spec v) run_id
          (an.ensure (or_challenger spec v) s) db
