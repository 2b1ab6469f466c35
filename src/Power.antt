-- ===== src/Power.antt =====
-- harness/power.py: how many repeats a paired run takes. A power is a natural number of
-- ten-thousandths, and the power at a repeat is a parameter, since the source computes it in floats.
pub mod Smallest
pub mod Budget
pub mod Examples
use localharness.Prelude.{
  ℕ, zero, suc, ◌+◌, ◌-◌, ◌*◌, ◌/◌, min, max, Bool, true, false, ◌&&◌, ◌||◌, not, Option, none,
  some, ltb, leb, ◌==◌, if◌then◌else◌, or_else,
}

-- The first of the numbers r, r + 1, …, r + n - 1 that passes a test.
unfoldable pub first_from : (ℕ → Bool) → ℕ → ℕ → Option ℕ
first_from test zero r = none
first_from test (suc n) r = let rest = first_from test n (suc r) in if test r then some r else rest

unfoldable pub any_from : (ℕ → Bool) → ℕ → ℕ → Bool
any_from test zero r = false
any_from test (suc n) r = test r || any_from test n (suc r)

-- The largest power at a repeat from r on.
unfoldable pub best_from : (ℕ → ℕ) → ℕ → ℕ → ℕ
best_from power zero r = 0
best_from power (suc n) r = max (power r) (best_from power n (suc r))

-- MAX_CASES
abbrev pub max_cases : ℕ
max_cases = 2000

-- `cases_needed`, where `reaches k r` says that k cases at repeat r reach the target, and `gains`
-- that the incumbent leaves something to gain.
unfoldable pub cases_needed : Bool → (ℕ → ℕ → Bool) → Bool → (cap : ℕ) → (cases : ℕ) → Option ℕ
unfolding first_from any_from
cases_needed gains reaches stochastic cap cases =
    if (cases == 0) || not gains
    then none
    else first_from (λ k. any_from (reaches k) (if stochastic then cap else 1) 1)
        (suc max_cases - cases) cases

-- MEASURING_REPEAT, FALLBACK_REPEAT
abbrev pub measuring_repeat : ℕ
measuring_repeat = 2

abbrev pub fallback_repeat : ℕ
fallback_repeat = 3

-- Within PLATEAU or PLATEAU_ABS of the best power.
abbrev pub on_plateau : ℕ → ℕ → Bool
on_plateau best got = leb (best * 95) (got * 100) || leb best (got + 100)

-- Why a plan falls short; `reached` is the empty text.
pub data Why : Type 0 where
  reached repeat_adds_none chosen_is_short correlated at_cap : Why

pub record Plan : Type 0 where
  pub repeat : ℕ
  pub power : ℕ
  pub target : ℕ
  pub capped : Bool
  pub stochastic : Bool
  pub why : Why

abbrev pub enough : Plan → Bool
enough p = leb p.target p.power

module _ (power : ℕ → ℕ) (target cap : ℕ) where
  abbrev pub made : Bool → ℕ → Bool → Why → Plan
  made stochastic r capped short = record {
    repeat = r;
    power = power r;
    target = target;
    capped = capped;
    stochastic = stochastic;
    why = if leb target (power r) then reached else short;
  }

  abbrev pub plateau_at : Bool → Option ℕ → ℕ
  plateau_at measured none = cap
  plateau_at measured (some r) = if measured then r else max r (min measuring_repeat cap)

  -- No repeat reaches the target: the plateau of a correlated lane, or the cap.
  unfoldable pub short_plan : (measured : Bool) → (correlated_ : Bool) → Plan
  unfolding first_from best_from
  short_plan measured correlated_ =
      let best = best_from power cap 1 in
      let r = plateau_at measured (first_from (λ i. on_plateau best (power i)) cap 1) in
      if ltb r cap && correlated_ then made true r false correlated else made true cap true at_cap

  abbrev pub found_plan : Bool → Bool → Option ℕ → Plan
  found_plan measured correlated_ none = short_plan measured correlated_
  found_plan measured correlated_ (some r) = made true r false reached

  -- `plan`; the repeat 0 is one that was not chosen.
  unfoldable pub plan :
      (stochastic : Bool) → (repeat : ℕ) → (measured : Bool) → (correlated_ : Bool) → Plan
  unfolding first_from short_plan
  plan stochastic repeat measured correlated_ =
      if not stochastic
      then made false 1 false repeat_adds_none
      else if not (repeat == 0)
      then made true repeat false chosen_is_short
      else found_plan measured correlated_ (first_from (λ r. leb target (power r)) cap 1)

-- projected_seconds, with both candidates.
unfoldable pub projected_seconds : ℕ → ℕ → ℕ → ℕ
projected_seconds cases repeat median_s = cases * repeat * 2 * median_s

-- The repeat of `within_budget`.
unfoldable pub repeat_within : (explicit : Bool) → Plan → ℕ → Option ℕ → ℕ → ℕ
unfolding projected_seconds
repeat_within explicit chosen cases median_s budget_s =
    if explicit || not chosen.stochastic then chosen.repeat else elim median_s [
      | none ↦ min chosen.repeat fallback_repeat
      | some s ↦
          if leb (projected_seconds cases chosen.repeat s) budget_s
          then chosen.repeat
          else max 1
              (min fallback_repeat (min chosen.repeat (budget_s / projected_seconds cases 1 s)))
    ]
