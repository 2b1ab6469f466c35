-- ===== src/Memory.antt =====
-- harness/memory.py: whether a model's weights can be loaded. Sizes are natural numbers of one
-- unit, a quotient rounded down; what the machine, the store and the disk answer is a parameter.
pub mod Guard
pub mod Examples
use localharness.Prelude.{
  ℕ, zero, suc, ◌+◌, ◌-◌, ◌*◌, ◌/◌, min, max, Bool, true, false, ◌&&◌, not, Option, none, some,
  List, [], ◌∷◌, ltb, leb, ◌==◌, if◌then◌else◌, or_else,
}

pub data Kind : Type 0 where
  unified discrete : Kind

pub record Accelerator : Type 0 where
  pub kind : Kind
  pub total_gb : ℕ
  pub available_gb : ℕ

-- GPU_FRACTION is three quarters.
unfoldable pub ceiling_for : Accelerator → ℕ
ceiling_for acc = elim acc.kind [ discrete ↦ acc.total_gb | unified ↦ acc.total_gb * 3 / 4 ]

-- DEFAULT_RESERVE_GB, MIN_RESERVE_GB and DISCRETE_RESERVE_GB, in gigabytes of `gb` units.
unfoldable pub reserve_for : (gb : ℕ) → Accelerator → ℕ
reserve_for gb acc = elim acc.kind [ discrete ↦ 2 * gb | unified ↦ 6 * gb ]

abbrev largest : ℕ → List ℕ → ℕ
largest m [] = m
largest m (n ∷ ns) = largest (max m n) ns

-- `measured_reserve_gb` over the margins that the machine's ramps stored.
unfoldable pub measured_reserve : (gb : ℕ) → List ℕ → ℕ
measured_reserve gb [] = 6 * gb
measured_reserve gb (m ∷ ms) = max (largest m ms) gb

-- `fits`: need ≤ min(available, ceiling) - reserve - resident, where the budget may be negative.
unfoldable pub fits : ℕ → ℕ → ℕ → ℕ → ℕ → Bool
fits need available ceiling resident reserve =
    leb (need + reserve + resident) (min available ceiling)

-- What `check_model` finds out: the size on disk, the width it is loaded at, whether the spec is
-- one that ds4 serves and the resident size of that, and the measured peak.
pub record Facts : Type 0 where
  pub on_disk : Option ℕ
  pub quantize : Option ℕ
  pub is_ds4 : Bool
  pub ds4_resident : Option ℕ
  pub peak : Option ℕ

pub data Checked : Type 0 where
  fitted refused : Checked
  unchecked_ds4 unchecked_unknown : Checked

-- The size on disk, scaled by the width that is loaded: the base width is 16.
abbrev pub scaled : Option ℕ → Option ℕ → Option ℕ
scaled none q = none
scaled (some n) none = some n
scaled (some n) (some q) = if q == 0 then some n else some (n * q / 16)

-- The size after ds4 has been asked; the inner none is that ds4 sizes its own cache.
abbrev pub streamed : Facts → Option ℕ → Option (Option ℕ)
streamed f none = some none
streamed f (some n) =
    if f.is_ds4 then elim f.ds4_resident [ none ↦ none | some r ↦ some (some r) ] else some (some n)

abbrev pub with_peak : Option ℕ → Option ℕ → Option ℕ
with_peak none need = need
with_peak (some p) none = some p
with_peak (some p) (some n) = if ltb n p then some p else some n

abbrev pub judged : ℕ → ℕ → ℕ → ℕ → Option ℕ → Checked
judged available ceiling resident reserve none = unchecked_unknown
judged available ceiling resident reserve (some need) =
    if fits need available ceiling resident reserve then fitted else refused

abbrev pub checked_from : Facts → ℕ → ℕ → ℕ → ℕ → Option (Option ℕ) → Checked
checked_from f available ceiling resident reserve none = unchecked_ds4
checked_from f available ceiling resident reserve (some need) =
    judged available ceiling resident reserve (with_peak f.peak need)

unfoldable pub check_model : Facts → ℕ → ℕ → ℕ → ℕ → Checked
unfolding fits
check_model f available ceiling resident reserve =
    checked_from f available ceiling resident reserve (streamed f (scaled f.on_disk f.quantize))
