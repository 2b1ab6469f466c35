-- ===== src/Served.antt =====
-- harness/adopt.py, the half that is read: which adoption a lane serves on a machine. Memory is
-- counted in KiB and a file's size in bytes; the store's tables are lists, and each query's join is
-- written out.
mod Tables
pub mod Lane
pub mod Adopted
pub mod Examples
use text.Mathlib.Text.{starts_with}
use localharness.Prelude.{
  ℕ, suc, ◌*◌, max, Bool, true, false, ◌&&◌, ◌||◌, not, Option, none, some, List, [], ◌∷◌, ◌++◌,
  String, ltb, leb, ◌==◌, length, str_eq, is_none, if◌then◌else◌, or_else,
}
use localharness.Prelude.Sort.{sorted}
use localharness.Table.{select, is_any, find_row, max_id}
use localharness.Dict.{lookup, put, remove}
unfoldable pub use Tables.*

-- SELECT a.*, c.spec
pub record Joined : Type 0 where
  pub row : Adoption
  pub spec : String

abbrev pub with_spec : Adoption → Option Candidate → List Joined → List Joined
with_spec a none rest = rest
with_spec a (some c) rest = record { row = a; spec = c.spec } ∷ rest

unfoldable pub joined : List Candidate → List Adoption → List Joined
unfolding find_row
joined candidates [] = []
joined candidates (a ∷ rest) =
    with_spec a (find_row (λ c. c.id) a.candidate_id candidates) (joined candidates rest)

-- machine_id IN (…)
abbrev pub is_one_of : Option ℕ → List ℕ → Bool
is_one_of m [] = false
is_one_of m (i ∷ ids) = is_at m (some i) || is_one_of m ids

abbrev pub is_visible : List ℕ → Joined → Bool
is_visible ids j =
    j.row.all_machines || (is_none j.row.machine_id || is_one_of j.row.machine_id ids)

-- ORDER BY a.adopted_at, a.id
abbrev pub older : Joined → Joined → Bool
older a b =
    ltb a.row.adopted_at b.row.adopted_at
    || ((a.row.adopted_at == b.row.adopted_at) && ltb a.row.id b.row.id)

abbrev pub first_id : List ℕ → Option ℕ
first_id [] = none
first_id (i ∷ ids) = some i

abbrev pub is_by_hand : How → Bool
is_by_hand measured = false
is_by_hand by_hand = true

-- The rows of the query, in the order in which the table holds them.
abbrev pub visible : Store → List ℕ → List Joined
visible s ids = select (is_visible ids) (joined s.candidates s.adoptions)

module _ (s : Store) (ids : List ℕ) where
  abbrev pub fit_here : Joined → Fit
  fit_here j = fit s j.row.candidate_id (first_id ids)

  -- The test under which the loop refuses a row that is no reference's.
  abbrev pub is_refused : Joined → Bool
  is_refused j = is_by_hand j.row.how && not (fit_here j).ok

  abbrev pub resolve_row :
      Joined
      → List (String × Joined) × List (String × (Joined × Why))
      → List (String × Joined) × List (String × (Joined × Why))
  resolve_row j (out, refused) =
      if is_reference j.spec
      then (out, refused)
      else if is_refused j
      then (out, put j.row.lane (j, (fit_here j).why) refused)
      else (put j.row.lane j out, remove j.row.lane refused)

  unfoldable pub resolve_rows :
      List Joined
      → List (String × Joined) × List (String × (Joined × Why))
      → List (String × Joined) × List (String × (Joined × Why))
  unfolding is_reference fit put remove
  resolve_rows [] got = got
  resolve_rows (j ∷ js) got = resolve_rows js (resolve_row j got)

  -- `_resolve`
  unfoldable pub resolve : List (String × Joined) × List (String × (Joined × Why))
  unfolding joined resolve_rows sorted
  resolve = resolve_rows (sorted older (visible s ids)) ([], [])

  abbrev pub current : List (String × Joined)
  current = resolve.0

-- `lane_defaults` and the `or fallback` of `default_for`: {**typed, **adopted}.get(key). No store
-- is one that is missing, locked or older than the code.
abbrev pub adopted_spec : Option Store → List ℕ → String → Option Joined
adopted_spec none ids key = none
adopted_spec (some s) ids key = lookup key (current s ids)

abbrev pub or_fallback : Option Joined → String → String
or_fallback none fallback = fallback
or_fallback (some j) fallback = if str_eq j.spec "" then fallback else j.spec

-- `normal` is `lane.strip().lower()`.
unfoldable pub default_for :
    (normal : String → String) → String → String → Option Store → List ℕ → String
unfolding lookup resolve
default_for normal lane fallback store ids =
    if str_eq lane "" then fallback else or_fallback (adopted_spec store ids (normal lane)) fallback

-- The row that `record` inserts. `lane` is stripped and in lower case.
abbrev pub new_adoption :
    (lane : String)
    → (candidate_id : ℕ) → (machine_id : Option ℕ) → How
    → (all_machines : Bool) → (now verdict_id : ℕ) → List Adoption
    → Adoption
new_adoption lane candidate_id machine_id how all_machines now verdict_id table = record {
  id = suc (max_id (λ a. a.id) table);
  lane = lane;
  candidate_id = candidate_id;
  machine_id = machine_id;
  how = how;
  all_machines = all_machines;
  adopted_at = now;
  verdict_id = some verdict_id;
}

abbrev pub add_adoption : Adoption → Store → Store
add_adoption a s = record {
  adoptions = s.adoptions ++ a ∷ [];
  candidates = s.candidates;
  results = s.results;
  machines = s.machines;
  detected_kb = s.detected_kb;
}

-- Whether an adoption of the verdict is stored; NULL is equal to nothing.
abbrev pub is_adopted : Option ℕ → List Adoption → Bool
is_adopted verdict_id rows = is_any (λ b. is_at b.verdict_id verdict_id) rows

-- INSERT OR IGNORE, where verdict_id is UNIQUE: a second adoption of a verdict is not inserted.
abbrev pub insert_adoption : Adoption → Store → Store
insert_adoption a s = if is_adopted a.verdict_id s.adoptions then s else add_adoption a s
