-- ===== src/Screen/Examples.antt =====
-- Tests and concrete instances for harness/screen.py.
use localharness.Prelude.{
  ℕ, ◌≡◌, refl, true, false, Option, none, some, List, [], ◌∷◌, String, ℤ, pos,
}
use localharness.Dict.{lookup}
use localharness.Text.{before_char, after_char, has_char, split}
use localharness.Revisit.{Facts, until_met, digits, tuple_ltb, is_newer, version_tuple}
use localharness.Screen.{CaseRow, load_until, load_runtime, engine_runtime, installed, sentence}
use localharness.Screen.Outcome.{
  Machine, outcome, decide_class, row_for, wrong_run, why_nothing_passed,
}
use localharness.Screen.Fair.{IsFair, shows_it_runs, outcome_lem}
use localharness.Screen.Until.{load_until_lem}
use localharness.Reasons.{first}

program : Unit {0}
unfolding lookup before_char after_char has_char split digits tuple_ltb version_tuple until_met
    load_until load_runtime engine_runtime installed sentence outcome decide_class row_for wrong_run
    why_nothing_passed first
program = tt

abbrev same : String → String
same s = s

abbrev show : ℤ → String
show n = "1"

abbrev mac : Machine
mac = record { versions = ("mlx-lm", "0.30.1") ∷ []; memory_gb = some 64 }

abbrev number : String → Option ℕ
number s = some 0

abbrev facts : List (String × String) → Facts
facts versions = record {
  runtimes = "";
  memory_gb = none;
  ceiling_gb = none;
  versions = versions;
  limits = [];
  last_commit = "";
}

until_text : load_until same mac.versions "org/m" ≡ "version:mlx-lm>0.30.1"
unfolding program
until_text = refl

later_met :
    until_met same number (load_until same mac.versions "org/m") (facts (("mlx-lm", "0.31.0") ∷ []))
    ≡ true
unfolding program
later_met = refl

load_until_lem_example :
    (until_met same number
        (load_until same mac.versions "org/m")
        (facts (("mlx-lm", "0.31.0") ∷ []))
      ≡ is_newer
          (version_tuple (lookup (load_runtime same "org/m") (("mlx-lm", "0.31.0") ∷ [])))
          (version_tuple (some (installed mac.versions (load_runtime same "org/m")))))
    × (until_met same number
          (load_until same (("mlx-lm", "0.31.0") ∷ []) "org/m")
          (facts (("mlx-lm", "0.31.0") ∷ []))
        ≡ false)
load_until_lem_example =
    load_until_lem same number "org/m" mac.versions (facts (("mlx-lm", "0.31.0") ∷ []))

abbrev one_passed : Option (List (String × CaseRow))
one_passed =
    some (("org/m", record { passed = 1; failures = []; failure_classes = []; limits = [] }) ∷ [])

passed_runs : shows_it_runs same (pos 0) one_passed "org/m" "" ≡ true
unfolding program
passed_runs = refl

outcome_lem_example :
    IsFair
      (outcome same show same (pos 0) one_passed "org/m" "" "" mac)
      (shows_it_runs same (pos 0) one_passed "org/m" "")
outcome_lem_example = outcome_lem same show same (pos 0) one_passed "org/m" "" "" mac refl
