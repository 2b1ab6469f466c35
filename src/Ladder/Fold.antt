-- ===== src/Ladder/Fold.antt =====
-- What the transition table of harness/memory_store/transitions.py promises about a history.
use localharness.Prelude.{
  ◌≤◌, ◌≡◌, refl, true, false, ◌⊎◌, ◌↔◌, Option, none, some, List, [], ◌∷◌, ◌++◌, arith,
}
use localharness.Ladder.{
  Outcome, measured, declined, broken, queued, Tier, Reopen, retraction, retest, is_terminal,
  is_waypoint, ladder, transition_refused, Event, Standing, fold_step, fold_from, in_terminal,
  other,
}

-- No event of the history is a named reopen.
abbrev pub NoReopen : List Event → Type 0
NoReopen [] = Unit
NoReopen (e ∷ es) = (e.reopen ≡ none) × NoReopen es

settled_table :
    (state : Option Outcome) (held : Tier) (outcome : Outcome) (tier : Tier)
    → in_terminal state ≡ true
    → transition_refused state held outcome tier none ≡ none
    → (is_terminal outcome ≡ true) × (ladder held ≤ ladder tier)
unfolding transition_refused
settled_table none held outcome tier t h = cc
settled_table (some measured) held outcome tier t h = ground arith
settled_table (some _) held outcome tier t h = ground arith

fold_step-in_terminal :
    (s : Standing) (e : Event)
    → in_terminal s.state ≡ true
    → e.reopen ≡ none
    → (in_terminal (fold_step s e).state ≡ true) × (ladder s.tier ≤ ladder (fold_step s e).tier)
unfolding fold_step
fold_step-in_terminal s e t h = ground (arith, settled_table s.state s.tier e.outcome e.tier)

-- A settled standing stays settled, and its tier never goes back down the ladder, as long as no
-- event is a named reopen.
pub fold_from-in_terminal :
    (s : Standing) (es : List Event)
    → in_terminal s.state ≡ true
    → NoReopen es
    → (in_terminal (fold_from s es).state ≡ true) × (ladder s.tier ≤ ladder (fold_from s es).tier)
unfolding fold_from
fold_from-in_terminal s [] t n = (t, omega arith)
fold_from-in_terminal s (e ∷ es) t n =
    let here = fold_step-in_terminal s e t n.0 in
    let rest = fold_from-in_terminal (fold_step s e) es here.0 n.1 in (rest.0, omega arith)

-- The fold of a longer history is one more step.
pub fold_from-append :
    (s : Standing) (es : List Event) (e : Event)
    → fold_from s (es ++ e ∷ []) ≡ fold_step (fold_from s es) e
unfolding fold_from
fold_from-append s [] e = refl
fold_from-append s (x ∷ es) e = fold_from-append (fold_step s x) es e

-- The moves that are allowed, without the order of the tests.
abbrev pub Allowed : Option Outcome → Tier → Outcome → Tier → Option Reopen → Type 0
Allowed state held outcome tier reopen =
    (reopen ≡ some retraction)
    ⊎ (reopen ≡ some retest) × ((state ≡ some broken) ⊎ (state ≡ some declined))
    ⊎ (reopen ≡ none)
      × ((state ≡ none)
          ⊎ (state ≡ some queued)
          ⊎ ((in_terminal state ≡ true) → is_waypoint outcome ≡ false)
            × (ladder held ≤ ladder tier))

-- The table allows a move exactly when it is a retraction, a retest of a broken or declined state,
-- or no reopen and either nothing is held (no state, or queued), or it neither turns a terminal
-- state into a waypoint nor comes from an earlier rung than the one that holds the state.
pub transition_refused-eq-none :
    (state : Option Outcome) (held : Tier) (outcome : Outcome) (tier : Tier)
    (reopen : Option Reopen)
    → (transition_refused state held outcome tier reopen ≡ none)
      ↔ Allowed state held outcome tier reopen
unfolding transition_refused
transition_refused-eq-none state held outcome tier (some (other k)) = ground arith
transition_refused-eq-none state held outcome tier (some retraction) = ground arith
transition_refused-eq-none none held outcome tier (some retest) = ground arith
transition_refused-eq-none (some o) held outcome tier (some retest) = ground arith
transition_refused-eq-none none held outcome tier none = ground arith
transition_refused-eq-none (some o) held outcome tier none = ground arith
