-- ===== src/Sweeps/Settle.antt =====
-- When harness/sweeps.py settles a sweep, and when it queues another: `_skip`, `judge` and
-- `settle` over the jobs of the work queue.
use localharness.Prelude.{
  ℕ, ◌+◌, ◌*◌, ◌≡◌, ◌≢◌, ◌⊎◌, refl, Bool, true, false, ◌&&◌, ◌||◌, not, Option, none, some, List,
  [], ◌∷◌, String, arith, ltb, str_eq, if◌then◌else◌, All, Bool-cases, inl, inr, or_else,
}
use localharness.Paired.{Ratio}
use localharness.Queue.{State, pending, running, cancelled, state_eq, Job, Host, get}
use localharness.Sweeps.{Row, Cost, decide}

-- The outcome column: `waiting` is the empty text of a sweep that is not settled.
pub data Outcome : Type 0 where
  waiting chosen unrun cancelled_all : Outcome

pub record Sweep : Type 0 where
  pub id : ℕ
  pub lane : String
  pub jobs : List (String × ℕ)
  pub outcome : Outcome
  pub choice : Option String
  pub cost : List Cost
  pub settled_at : Option ℕ

abbrev is_waiting : Outcome → Bool
is_waiting waiting = true
is_waiting _ = false

-- Why a sweep is not queued.
pub data Skip : Type 0 where
  already_queued already_swept too_recent : Skip

-- `_skip`; `days` is the lane's reverify period.
unfoldable pub skip : (days : ℕ) → (now : ℕ) → Option Sweep → Option Skip
skip days now none = none
skip days now (some s) = elim s.outcome [
  | waiting ↦ some already_queued
  | chosen ↦ some already_swept
  | unrun ↦ if ltb now (or_else s.settled_at 0 + days * 86400) then some too_recent else none
  | cancelled_all ↦
      if ltb now (or_else s.settled_at 0 + days * 86400) then some too_recent else none
]

abbrev pub is_state : State → Option Job → Bool
is_state st none = false
is_state st (some j) = state_eq j.state st

abbrev pub is_busy : Host → ℕ → Bool
is_busy h id = is_state pending (get id h) || is_state running (get id h)

abbrev pub any_busy : Host → List (String × ℕ) → Bool
any_busy h [] = false
any_busy h ((v, id) ∷ js) = is_busy h id || any_busy h js

abbrev pub all_cancelled : Host → List (String × ℕ) → Bool
all_cancelled h [] = true
all_cancelled h ((v, id) ∷ js) = is_state cancelled (get id h) && all_cancelled h js

abbrev has_jobs : List (String × ℕ) → Bool
has_jobs [] = false
has_jobs (_ ∷ _) = true

-- The stored rows of a value's run, none of them where its job stored no run; a later
-- job of the same value counts.
abbrev pub rows_for : (ℕ → List Row) → List (String × ℕ) → String → List Row
rows_for rows [] v = []
rows_for rows ((w, id) ∷ js) v =
    let rest = rows_for rows js v in
    elim rest [ r ∷ rs ↦ r ∷ rs | [] ↦ if str_eq w v then rows id else [] ]

abbrev with_outcome : ℕ → Sweep → Outcome → Option String → List Cost → Sweep
with_outcome now s o c cost = record {
  id = s.id;
  lane = s.lane;
  jobs = s.jobs;
  outcome = o;
  choice = c;
  cost = cost;
  settled_at = some now;
}

abbrev concluded : ℕ → Host → Sweep → Option Cost × List Cost → Sweep
concluded now h s (some c, table) = with_outcome now s chosen (some c.value) table
concluded now h s (none, table) =
    with_outcome now s (if has_jobs s.jobs && all_cancelled h s.jobs then cancelled_all else unrun)
      none []

-- `judge` and the UPDATE of one sweep; `values` are those that its knob declares.
unfoldable pub settle_one : List String → (ℕ → List Row) → Ratio → ℕ → Host → Sweep → Sweep
settle_one values rows alpha now h s =
    if is_waiting s.outcome && not (any_busy h s.jobs)
    then concluded now h s (decide values (rows_for rows s.jobs) alpha)
    else s

unfoldable pub settle :
    (Sweep → List String) → (ℕ → List Row) → Ratio → ℕ → Host → List Sweep → List Sweep
unfolding settle_one
settle values rows alpha now h [] = []
settle values rows alpha now h (s ∷ ss) =
    settle_one (values s) rows alpha now h s ∷ settle values rows alpha now h ss

-- A sweep that is settled has jobs that have all finished.
abbrev pub IsFinished : Host → List (String × ℕ) → Type 0
IsFinished h js = All (λ j. is_busy h j.1 ≡ false) js

or-false : (a b : Bool) → (a || b) ≡ false → (a ≡ false) × (b ≡ false)
or-false true b e = cc
or-false false b e = (refl, e)

any_busy-false : (h : Host) (js : List (String × ℕ)) → any_busy h js ≡ false → IsFinished h js
any_busy-false h [] e = tt
any_busy-false h ((v, id) ∷ js) e =
    let both = or-false (is_busy h id) (any_busy h js) e in (both.0, any_busy-false h js both.1)

is_waiting-eq : (o : Outcome) → is_waiting o ≡ true → o ≡ waiting
is_waiting-eq waiting e = refl
is_waiting-eq chosen e = cc
is_waiting-eq unrun e = cc
is_waiting-eq cancelled_all e = cc

-- What a sweep that has just been settled says.
abbrev pub IsConcluded : ℕ → Host → Sweep → Sweep → Type 0
IsConcluded now h s t =
    (t.outcome ≢ waiting)
    × (t.settled_at ≡ some now)
    × (t.outcome ≡ cancelled_all → all_cancelled h s.jobs ≡ true)

concluded_lem :
    (now : ℕ) (h : Host) (s : Sweep) (got : Option Cost × List Cost)
    → IsConcluded now h s (concluded now h s got)
concluded_lem now h s (some c, table) = (λ e. cc, refl, λ e. cc)
concluded_lem now h s (none, table) =
    elim (Bool-cases (has_jobs s.jobs && all_cancelled h s.jobs)) [
      | inl e ↦ rw e (λ f. cc, refl, λ f. ground arith)
      | inr e ↦ rw e (λ f. cc, refl, λ f. cc)
    ]

-- Either a sweep is left as it is, and one of its jobs is pending or running if it was waiting; or
-- it was waiting, all its jobs have finished, and it is settled now, as cancelled only when all
-- its jobs were cancelled.
pub settle_one_lem :
    (values : List String) (rows : ℕ → List Row) (alpha : Ratio) (now : ℕ) (h : Host) (s : Sweep)
    → let t : Sweep = settle_one values rows alpha now h s in
      ((t ≡ s) × (s.outcome ≡ waiting → any_busy h s.jobs ≡ true))
      ⊎ ((s.outcome ≡ waiting) × IsFinished h s.jobs × IsConcluded now h s t)
unfolding settle_one
settle_one_lem values rows alpha now h s =
    elim (Bool-cases (is_waiting s.outcome && not (any_busy h s.jobs))) [
      | inl e ↦ rw e (
          inr (
            is_waiting-eq s.outcome (ground arith),
            any_busy-false h s.jobs (ground arith),
            concluded_lem now h s (decide values (rows_for rows s.jobs) alpha),
          ))
      | inr e ↦ rw e (inl (refl, λ w. ground arith))
    ]
