-- ===== src/Screen/Outcome.antt =====
-- `decide_class` and `outcome` of harness/screen.py.
use Prim.Native.String.{◌++◌ as append}
use localharness.Prelude.{
  ℕ, zero, suc, Bool, true, false, ◌&&◌, ◌||◌, not, is_none, Option, none, some, List, [], ◌∷◌,
  String, str_eq, if◌then◌else◌, ℤ, pos, ltb, or_else,
}
use localharness.Prelude.Sort.{sorted}
use localharness.Dict.{lookup}
use localharness.Revisit.{text_ltb}
use localharness.Reasons.{Class, classes, first}
use localharness.Screen.{
  Verdict, CaseRow, no_row, join, first_chars, class_named, total_passed, keys, all_rows,
  classes_in, limits_in, written, first_or_blank, sentence, load_until,
}

-- A machine: the versions of its packages, and its memory in GB where that is recorded.
pub record Machine : Type 0 where
  pub versions : List (String × String)
  pub memory_gb : Option ℕ

abbrev pub has_rows : Option (List (String × CaseRow)) → Bool
has_rows none = false
has_rows (some []) = false
has_rows (some (_ ∷ _)) = true

abbrev pub rows_of : Option (List (String × CaseRow)) → List (String × CaseRow)
rows_of none = []
rows_of (some rows) = rows

abbrev pub is_zero : ℤ → Bool
is_zero (pos zero) = true
is_zero _ = false

abbrev pub crash : String → Verdict
crash detail = record {
  outcome = "broken";
  detail = detail;
  reason = "candidate";
  until = "";
  failure_class = "crashed";
}

abbrev pub mismatched : String → Verdict
mismatched why = record {
  outcome = "queued";
  detail = append "not screened: " why;
  reason = "harness";
  until = "";
  failure_class = "";
}

abbrev pub memory_until : (ℤ → String) → Option ℕ → String
memory_until show none = ""
memory_until show (some zero) = ""
memory_until show (some (suc n)) = append "memory_gb:>" (show (pos (suc n)))

abbrev pub or_failed : String → String
or_failed cls = if str_eq cls "" then "content_failed" else cls

module _ (key_of : String → String) where
  -- `row_for`
  unfoldable pub row_for : Option (List (String × CaseRow)) → String → String → Option CaseRow
  row_for none candidate key = none
  row_for (some rows) candidate key =
      let name = if str_eq key "" then key_of candidate else key in
      if str_eq name "" then none else lookup name rows

  unfoldable pub wrong_run : Option (List (String × CaseRow)) → String → String → String
  wrong_run summary candidate key =
      if not (has_rows summary) || str_eq candidate ""
      then ""
      else if not (is_none (row_for summary candidate key))
      then ""
      else append "the receipt names " (
          append (join ", " (sorted text_ltb (keys (rows_of summary))))
            (append " rather than " (append candidate ", so it is not this run's")))

  unfoldable pub why_nothing_passed : Option (List (String × CaseRow)) → String → String → String
  why_nothing_passed summary candidate key =
      first_chars 300
        (join "; " (written (or_else (row_for summary candidate key) no_row).failures))

  -- The rows that decide a run in which nothing passed.
  abbrev pub mine : Option (List (String × CaseRow)) → String → String → List CaseRow
  mine summary candidate key =
      if str_eq candidate ""
      then all_rows (rows_of summary)
      else or_else (row_for summary candidate key) no_row ∷ []

module _ (strip : String → String) (show : ℤ → String) where
  abbrev pub until_for : Class → String → String → Machine → String
  until_for k limit candidate machine =
      if str_eq k.reason "runtime"
      then load_until strip machine.versions candidate
      else if str_eq k.reason "limit" && not (str_eq limit "")
      then append "limit:" limit
      else if str_eq k.name "gpu_fault"
      then memory_until show machine.memory_gb
      else ""

  abbrev pub class_verdict : Class → String → String → List String → Machine → Verdict
  class_verdict k why candidate limits machine =
      let limit = first_or_blank (sorted text_ltb limits) in
      record {
        outcome = k.outcome;
        detail = sentence k why limit;
        reason = k.reason;
        until = until_for k limit candidate machine;
        failure_class = k.name;
      }

  -- `decide_class`: none is the KeyError of a class that the table does not have.
  unfoldable pub decide_class : String → String → String → List String → Machine → Option Verdict
  decide_class cls why candidate limits machine = elim (class_named classes cls) [
    | none ↦ none
    | some k ↦ some (class_verdict k why candidate limits machine)
  ]

  abbrev pub passed_verdict : ℕ → Verdict
  passed_verdict n = record {
    outcome = "screened";
    detail = append (show (pos n)) " case(s) passed a screen";
    reason = "candidate";
    until = "";
    failure_class = "";
  }

module _ (strip : String → String) (show : ℤ → String) (key_of : String → String) where
  abbrev pub nothing_passed :
      Option (List (String × CaseRow)) → String → String → Machine → Option Verdict
  nothing_passed summary candidate key machine =
      decide_class strip show (or_failed (first (classes_in (mine key_of summary candidate key))))
        (if str_eq candidate "" then "" else why_nothing_passed key_of summary candidate key)
        candidate (limits_in (mine key_of summary candidate key)) machine

  unfoldable pub outcome :
      ℤ → Option (List (String × CaseRow)) → String → String → String → Machine → Option Verdict
  outcome returncode summary candidate key stderr_class machine =
      let mismatch = wrong_run key_of summary candidate key in
      let passed = total_passed (rows_of summary) in
      if is_none summary && not (str_eq stderr_class "")
      then decide_class strip show stderr_class "" candidate [] machine
      else if not (str_eq mismatch "")
      then some (mismatched mismatch)
      else if not (is_zero returncode)
      then some (crash (append "the screen exited " (show returncode)))
      else if not (has_rows summary)
      then some (crash "the screen produced no rows")
      else if not (ltb 0 passed)
      then nothing_passed summary candidate key machine
      else some (passed_verdict strip show passed)
