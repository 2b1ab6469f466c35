-- ===== src/Served/Tables.antt =====
-- The tables that harness/adopt.py reads, and whether a candidate fits a machine.
use text.Mathlib.Text.{starts_with}
use localharness.Prelude.{
  ℕ, ◌*◌, max, Bool, true, false, ◌&&◌, ◌||◌, not, Option, none, some, List, [], ◌∷◌, String, leb,
  ◌==◌, length, if◌then◌else◌,
}
use localharness.Table.{select, find_row}

pub data How : Type 0 where
  measured by_hand : How

-- A row of `adoptions`.
pub record Adoption : Type 0 where
  pub id : ℕ
  pub lane : String
  pub candidate_id : ℕ
  pub machine_id : Option ℕ
  pub how : How
  pub all_machines : Bool
  pub adopted_at : ℕ
  pub verdict_id : Option ℕ

-- A row of `candidates` and the size of its proposal, 0 where the store has none.
pub record Candidate : Type 0 where
  pub id : ℕ
  pub spec : String
  pub size_bytes : ℕ

-- A row of `results` with the machine of its run.
pub record Ran : Type 0 where
  pub candidate_id : ℕ
  pub machine_id : Option ℕ
  pub passed : Bool
  pub peak_kb : ℕ

pub record Machine : Type 0 where
  pub id : ℕ
  pub ceiling_kb : ℕ

-- `detected_kb` is the ceiling that this machine reports of itself.
pub record Store : Type 0 where
  pub adoptions : List Adoption
  pub candidates : List Candidate
  pub results : List Ran
  pub machines : List Machine
  pub detected_kb : ℕ

-- REFERENCE_PREFIXES
unfoldable pub is_reference : String → Bool
is_reference candidate = starts_with candidate "claude-code:" || starts_with candidate "cloud-"

-- `= ?` in SQL: no row equals NULL.
abbrev pub is_at : Option ℕ → Option ℕ → Bool
is_at none m = false
is_at (some a) none = false
is_at (some a) (some b) = a == b

-- What a need is read from, and how `fit` answers.
pub data Source : Type 0 where
  peak size : ℕ → Source

pub data Why : Type 0 where
  ran_here : (rows : ℕ) (peak_kb : ℕ) → Why
  unknown : Why
  no_ceiling fits is_over : Source → Why

pub record Fit : Type 0 where
  pub ok : Bool
  pub why : Why

abbrev pub max_peak : List Ran → ℕ
max_peak [] = 0
max_peak (r ∷ rs) = max r.peak_kb (max_peak rs)

abbrev pub ceiling_of : Store → Option Machine → ℕ
ceiling_of s none = s.detected_kb
ceiling_of s (some m) = m.ceiling_kb

abbrev pub ceiling : Store → Option ℕ → ℕ
ceiling s none = s.detected_kb
ceiling s (some id) = ceiling_of s (find_row (λ m. m.id) id s.machines)

abbrev pub within : Source → ℕ → Bool
within (peak kb) ceiling_kb = leb kb ceiling_kb
within (size bytes) ceiling_kb = leb bytes (ceiling_kb * 1024)

abbrev pub against : Source → ℕ → Fit
against need ceiling_kb =
    if ceiling_kb == 0
    then record { ok = true; why = no_ceiling need }
    else if within need ceiling_kb
    then record { ok = true; why = fits need }
    else record { ok = false; why = is_over need }

abbrev pub stored_size : Option Candidate → ℕ
stored_size none = 0
stored_size (some c) = c.size_bytes

unfoldable pub fit : Store → ℕ → Option ℕ → Fit
unfolding find_row
fit s candidate_id machine_id =
    let mine = select (λ r. r.candidate_id == candidate_id) s.results in
    let here = select (λ r. is_at r.machine_id machine_id && r.passed) mine in
    let stored = stored_size (find_row (λ c. c.id) candidate_id s.candidates) in
    if not (length here == 0)
    then record { ok = true; why = ran_here (length here) (max_peak here) }
    else if not (max_peak mine == 0)
    then against (peak (max_peak mine)) (ceiling s machine_id)
    else if not (stored == 0)
    then against (size stored) (ceiling s machine_id)
    else record { ok = true; why = unknown }
