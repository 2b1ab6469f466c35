-- ===== src/Ladder.antt =====
-- harness/memory_store/transitions.py and the vocabularies of harness/memory_store/schema.py: the
-- states of a proposal, the tiers of the discovery ladder and the transition table. A text column
-- that holds a word of a fixed vocabulary is an enumeration; `other` is any word outside it.
pub mod Fold
pub mod Store
pub mod Decide
pub mod Examples
use Prim.Native.Char.{code}
use localharness.Prelude.{
  ℕ, Bool, true, false, ◌&&◌, ◌||◌, Option, none, some, List, [], ◌∷◌, String, ltb, leb, ◌==◌,
  is_none, if◌then◌else◌,
}

-- VERDICTS: what can happen to a proposal. A state is `none` before the first verdict.
pub data Outcome : Type 0 where
  measured declined broken queued ignored screened : Outcome

-- A tier; a verdict may carry the empty text, or a word that the ladder does not rank.
pub data Tier : Type 0 where
  inspect judge fetch screen measure adopt : Tier
  other : String → Tier

-- The kind of a named reopen. `none` of `Option Reopen` is the empty text.
pub data Reopen : Type 0 where
  retraction retest : Reopen
  other : String → Reopen

-- Why the table refuses a move.
pub data Refusal : Type 0 where
  not_a_reopen cannot_reopen would_reopen comes_before : Refusal

abbrev pub is_terminal : Outcome → Bool
is_terminal measured = true
is_terminal declined = true
is_terminal broken = true
is_terminal ignored = true
is_terminal _ = false

abbrev pub is_waypoint : Outcome → Bool
is_waypoint queued = true
is_waypoint screened = true
is_waypoint _ = false

-- LADDER.get(tier, 0)
abbrev pub ladder : Tier → ℕ
ladder inspect = 0
ladder judge = 1
ladder fetch = 2
ladder screen = 3
ladder measure = 4
ladder adopt = 5
ladder (other _) = 0

-- REOPENS[RETEST]: the states that a retest may reopen.
abbrev pub in_retest_states : Option Outcome → Bool
in_retest_states (some broken) = true
in_retest_states (some declined) = true
in_retest_states _ = false

-- state in TERMINAL
abbrev pub in_terminal : Option Outcome → Bool
in_terminal none = false
in_terminal (some o) = is_terminal o

-- The last two tests of `transition_refused`, for a state that holds something.
abbrev held_refused : Outcome → Tier → Outcome → Tier → Option Refusal
held_refused state held outcome tier =
    if is_terminal state && is_waypoint outcome
    then some would_reopen
    else if ltb (ladder tier) (ladder held)
    then some comes_before
    else none

unfoldable pub transition_refused :
    Option Outcome → Tier → Outcome → Tier → Option Reopen → Option Refusal
transition_refused state held outcome tier (some (other _)) = some not_a_reopen
transition_refused state held outcome tier (some retraction) = none
transition_refused state held outcome tier (some retest) =
    if in_retest_states state then none else some cannot_reopen
transition_refused none held outcome tier none = none
transition_refused (some queued) held outcome tier none = none
transition_refused (some state) held outcome tier none = held_refused state held outcome tier

pub record Event : Type 0 where
  pub outcome : Outcome
  pub tier : Tier
  pub reopen : Option Reopen

-- The state and the tier that holds it.
pub record Standing : Type 0 where
  pub state : Option Outcome
  pub tier : Tier

abbrev pub fresh : Standing
fresh = record { state = none; tier = other "" }

unfoldable pub fold_step : Standing → Event → Standing
fold_step s e =
    if is_none (transition_refused s.state s.tier e.outcome e.tier e.reopen)
    then record { state = some e.outcome; tier = e.tier }
    else s

-- The loop of `fold`, from a standing already reached.
unfoldable pub fold_from : Standing → List Event → Standing
fold_from s [] = s
fold_from s (e ∷ es) = fold_from (fold_step s e) es

unfoldable pub fold : List Event → Standing
fold es = fold_from fresh es

-- RETEST_TIERS
abbrev pub in_retest_tiers : Tier → Bool
in_retest_tiers screen = true
in_retest_tiers measure = true
in_retest_tiers adopt = true
in_retest_tiers _ = false

-- `not (until or "").strip()`, over the ASCII white space.
unfoldable pub is_blank : String → Bool
is_blank String.[] = true
is_blank (String.◌∷◌ c s) =
    let n = code c in (n == 32 || (leb 9 n && leb n 13) || (leb 28 n && leb n 31)) && is_blank s

unfoldable pub retest_eligible : Option Outcome → Tier → String → Bool
unfolding is_blank
retest_eligible state tier until = in_retest_states state && in_retest_tiers tier && is_blank until
