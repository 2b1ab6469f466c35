-- ===== src/Ramp.antt =====
-- harness/ramp.py: memory allocated in steps until the system pushes back. Sizes are natural
-- numbers of one unit; the allocator and the pressure samples are parameters.
pub mod Bounds
pub mod Examples
use localharness.Prelude.{
  ℕ, zero, suc, ◌+◌, ◌-◌, ◌≤◌, Bool, true, false, ◌&&◌, Option, none, some, List, [], ◌∷◌, String,
  ltb, leb, if◌then◌else◌,
}

-- One pressure sample, as far as `_stop` reads it.
pub record Sample : Type 0 where
  pub free_pct : Option ℕ
  pub level : Option ℕ
  pub swapouts : Option ℕ

pub data Why : Type 0 where
  pressure_warn compressor_swapping free_below_floor : Why

-- WARN of harness/pressure.py.
abbrev warn_level : ℕ
warn_level = 2

abbrev at_least : Option ℕ → ℕ → Bool
at_least none n = false
at_least (some l) n = leb n l

abbrev grew : Option ℕ → Option ℕ → Bool
grew none base = false
grew (some now) none = false
grew (some now) (some base) = ltb base now

abbrev at_most : Option ℕ → ℕ → Bool
at_most none n = false
at_most (some l) n = leb l n

-- `_stop`
unfoldable pub stop : Sample → Sample → ℕ → Option Why
stop now base floor_pct =
    if at_least now.level warn_level
    then some pressure_warn
    else if grew now.swapouts base.swapouts
    then some compressor_swapping
    else if at_most now.free_pct floor_pct
    then some free_below_floor
    else none

pub data Stopped : Type 0 where
  cap : Stopped
  allocation_failed : String → Stopped
  pressed : Why → Stopped

pub record Step : Type 0 where
  pub gb : ℕ
  pub now : Sample

pub record Report : Type 0 where
  pub steps : List Step
  pub held : ℕ
  pub stopped : Stopped
  pub warn_at : Option ℕ

abbrev also : Step → Report → Report
also s r = record { steps = s ∷ r.steps; held = r.held; stopped = r.stopped; warn_at = r.warn_at }

abbrev also_opt : Step → Option Report → Option Report
also_opt s none = none
also_opt s (some r) = some (also s r)

-- The report of a loop that stops at once.
abbrev ending : ℕ → Stopped → Report
ending held why = record { steps = []; held = held; stopped = why; warn_at = none }

abbrev warned : ℕ → Why → Report
warned held why = record { steps = []; held = held; stopped = pressed why; warn_at = some held }

-- `allocate i` is the failure of the i-th allocation, and `sample i` what is read after it.
module _ (step_gb cap_gb floor_pct : ℕ) (allocate : ℕ → Option String) (base : Sample)
    (sample : ℕ → Sample) where
  abbrev after_step : ℕ → Step → Option Why → Option Report → Option Report
  after_step held s none rest = also_opt s rest
  after_step held s (some why) rest = some (also s (warned held why))

  abbrev after_allocate : ℕ → ℕ → Option String → Option Report → Option Report
  after_allocate i held (some failure) rest = some (ending held (allocation_failed failure))
  after_allocate i held none rest =
      after_step (held + step_gb) (record { gb = held + step_gb; now = sample i })
        (stop (sample i) base floor_pct) rest

  -- The loop from its i-th round on; the first number bounds its rounds.
  unfoldable pub run_from : ℕ → ℕ → ℕ → Option Report
  run_from zero i held = none
  run_from (suc fuel) i held =
      let rest = run_from fuel (suc i) (held + step_gb) in
      if leb (held + step_gb) cap_gb
      then after_allocate i held (allocate i) rest
      else some (ending held cap)

  unfoldable pub run : ℕ → Option Report
  unfolding run_from
  run fuel = run_from fuel 0 0

-- `last_normal`
unfoldable pub last_normal : ℕ → Report → ℕ
last_normal step_gb r = elim r.warn_at [ none ↦ r.held | some w ↦ w - step_gb ]
