-- ===== src/Gateway.antt =====
-- harness/gateway_switch.py: the gateway restarted when it is quiet, the lane aliases switched to
-- the adopted models with retries, and the record of the switches. Times are natural numbers of
-- one unit; the clock, the gateway's answers and the files it serves are parameters.
pub mod Wait
pub mod Unresolved
pub mod Switch
pub mod Examples
use localharness.Prelude.{
  ℕ, zero, suc, ◌+◌, ◌-◌, Bool, true, false, ◌&&◌, not, Option, none, some, List, [], ◌∷◌, ◌++◌,
  String, ℤ, pos_part, leb, ◌==◌, str_eq, if◌then◌else◌,
}
use localharness.Dict.{lookup, put, remove}

-- What GET /health/backlog comes to: the count is none where it cannot be read as a number.
pub data Reply : Type 0 where
  refused_connection http_error : Reply
  answered : (status : ℕ) → (in_flight_requests : Option ℤ) → Reply

unfoldable pub in_flight : Reply → Option ℕ
in_flight refused_connection = some 0
in_flight http_error = none
in_flight (answered status none) = none
in_flight (answered status (some got)) = if status == 200 then some (pos_part got - 1) else none

pub data How : Type 0 where
  idle forced : How

pub record Got : Type 0 where
  pub how : How
  pub busy : Option ℕ
  pub switched_at : ℕ
  pub round : ℕ

abbrev pub is_quiet : Option ℕ → Bool
is_quiet none = false
is_quiet (some n) = n == 0

abbrev pub quiet_from : ℕ → Option ℕ → ℕ
quiet_from now none = now
quiet_from now (some t) = t

-- The n-th reading of the clock is `clock n`: the start is reading 0, round i takes reading i + 1.
module _ (clock : ℕ → ℕ) (reply : ℕ → Reply) (idle_s max_wait_s : ℕ) where
  abbrev pub stopped : How → ℕ → Got
  stopped how i = record {
    how = how;
    busy = in_flight (reply i);
    switched_at = clock (i + 2);
    round = i;
  }

  -- The rounds of the loop from round i on; the first number bounds how many.
  unfoldable pub wait_from : ℕ → ℕ → Option ℕ → Option Got
  wait_from zero i quiet_since = none
  wait_from (suc fuel) i quiet_since =
      let now = clock (suc i) in
      let since = quiet_from now quiet_since in
      let quiet = is_quiet (in_flight (reply i)) in
      let rest = wait_from fuel (suc i) (if quiet then some since else none) in
      if quiet && leb (since + idle_s) now
      then some (stopped idle i)
      else if leb (clock 0 + max_wait_s) now
      then some (stopped forced i)
      else rest

  unfoldable pub wait_then_restart : ℕ → Option Got
  unfolding wait_from
  wait_then_restart fuel = wait_from fuel 0 none

pub data Outcome : Type 0 where
  switched failed : Outcome

abbrev pub took : Outcome → Bool
took switched = true
took failed = false

-- A row of `gateway_switches`.
pub record Row : Type 0 where
  pub lane : String
  pub old_spec : String
  pub new_spec : String
  pub how : How
  pub requested_at : ℕ
  pub switched_at : ℕ
  pub in_flight_then : Option ℕ
  pub outcome : Outcome
  pub reason : String

-- One lane of `unresolved`.
pub record Failing : Type 0 where
  pub new_spec : String
  pub reason : String
  pub at : ℕ
  pub attempts : ℕ

abbrev pub attempts_of : Option Failing → ℕ
attempts_of none = 0
attempts_of (some f) = f.attempts

unfoldable pub unresolved_from : List (String × Failing) → List Row → List (String × Failing)
unresolved_from d [] = d
unresolved_from d (r ∷ rs) =
    unresolved_from
      (if took r.outcome
        then remove r.lane d
        else put r.lane
            (record {
              new_spec = r.new_spec;
              reason = r.reason;
              at = r.switched_at;
              attempts = suc (attempts_of (lookup r.lane d));
            })
            d)
      rs

unfoldable pub unresolved : List Row → List (String × Failing)
unfolding unresolved_from
unresolved rows = unresolved_from [] rows

-- SELECT new_spec … WHERE lane = ? AND outcome = 'switched' ORDER BY id DESC LIMIT 1
unfoldable pub last_switched : String → List Row → Option String
last_switched lane [] = none
last_switched lane (r ∷ rs) =
    let later = last_switched lane rs in
    elim later [
      | some spec ↦ some spec
      | none ↦ if took r.outcome && str_eq r.lane lane then some r.new_spec else none
    ]

abbrev pub or_model : Option String → String → String
or_model none model = model
or_model (some spec) model = spec

unfoldable pub old_spec : List Row → String → String → String
old_spec rows lane model = or_model (last_switched lane rows) model
