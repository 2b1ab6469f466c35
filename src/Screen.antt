-- ===== src/Screen.antt =====
-- harness/screen.py: the verdict of one screening run. A summary is a dict from a candidate's key to
-- its row; `show` prints a number and `key_of` is `candidates.key_of`.
pub mod Outcome
pub mod Until
pub mod Fair
pub mod Examples
use Prim.Native.String.{◌++◌ as append}
use text.Mathlib.Text.{starts_with}
use localharness.Prelude.{
  ℕ, zero, suc, ◌+◌, Bool, true, false, ◌&&◌, ◌||◌, not, Option, none, some, List, [], ◌∷◌, ◌++◌,
  map, String, str_eq, if◌then◌else◌, ℤ, pos, ltb,
}
use localharness.Prelude.Sort.{sorted}
use localharness.Text.{before_char, colon, comma}
use localharness.Dict.{lookup}
use localharness.Lanes.{is_in}
use localharness.Revisit.{text_ltb}
use localharness.Reasons.{Class, classes, first}

pub record Verdict : Type 0 where
  pub outcome : String
  pub detail : String
  pub reason : String
  pub until : String
  pub failure_class : String

-- What the verdict reads of a candidate's row in the summary.
pub record CaseRow : Type 0 where
  pub passed : ℕ
  pub failures : List String
  pub failure_classes : List String
  pub limits : List String

abbrev pub no_row : CaseRow
no_row = record { passed = 0; failures = []; failure_classes = []; limits = [] }

-- `sep.join(parts)`
abbrev pub join : String → List String → String
join sep [] = ""
join sep (p ∷ []) = p
join sep (p ∷ ps) = append p (append sep (join sep ps))

-- `s[:n]`
abbrev pub first_chars : ℕ → String → String
first_chars zero s = String.[]
first_chars (suc n) String.[] = String.[]
first_chars (suc n) (String.◌∷◌ x s) = String.◌∷◌ x (first_chars n s)

-- ENGINE_RUNTIMES
abbrev pub engine_runtimes : List (String × String)
engine_runtimes =
    ("mflux", "mflux")
    ∷ ("diffusers", "diffusers")
    ∷ ("diffusers-video", "diffusers")
    ∷ ("acestep", "ace-step")
    ∷ ("tts", "mlx-audio")
    ∷ ("stt", "mlx-audio")
    ∷ ("hf-ocr", "transformers")
    ∷ ("rerank", "sentence-transformers")
    ∷ ("embed", "sentence-transformers")
    ∷ ("hf-pii", "transformers")
    ∷ ("ds4", "ds4")
    ∷ []

abbrev pub or_text : Option String → String → String
or_text none d = d
or_text (some s) d = if str_eq s "" then d else s

-- CLASSES[cls]
abbrev pub class_named : List Class → String → Option Class
class_named [] c = none
class_named (k ∷ ks) c = if str_eq k.name c then some k else class_named ks c

abbrev pub total_passed : List (String × CaseRow) → ℕ
total_passed [] = 0
total_passed ((k, r) ∷ rows) = r.passed + total_passed rows

abbrev pub keys : List (String × CaseRow) → List String
keys [] = []
keys ((k, r) ∷ rows) = k ∷ keys rows

abbrev pub all_rows : List (String × CaseRow) → List CaseRow
all_rows [] = []
all_rows ((k, r) ∷ rows) = r ∷ all_rows rows

abbrev pub classes_in : List CaseRow → List String
classes_in [] = []
classes_in (r ∷ rs) = r.failure_classes ++ classes_in rs

abbrev pub limits_in : List CaseRow → List String
limits_in [] = []
limits_in (r ∷ rs) = r.limits ++ limits_in rs

abbrev pub written : List String → List String
written [] = []
written (f ∷ fs) = let rest = written fs in if str_eq f "" then rest else f ∷ rest

abbrev pub first_or_blank : List String → String
first_or_blank [] = ""
first_or_blank (x ∷ xs) = x

abbrev pub tail_of : String → String
tail_of why = if str_eq why "" then "" else append ": " why

-- `_sentence`, for a class that is in the table.
unfoldable pub sentence : Class → String → String → String
sentence k why limit =
    if str_eq k.name "load_failed_runtime"
    then append "the installed runtime could not load it" (tail_of why)
    else if str_eq k.name "load_failed_layout"
    then append "needs its own runner: the stock loader could not assemble it" (tail_of why)
    else if str_eq k.name "gpu_fault"
    then append "the GPU faulted running it on this machine" (tail_of why)
    else if str_eq k.name "backend_fault"
    then append "the MPS backend aborted running it" (tail_of why)
    else if str_eq k.reason "limit"
    then append "stopped at a limit this harness chose"
        (append (if str_eq limit "" then "" else append " (" (append limit ")")) (tail_of why))
    else if str_eq k.reason "harness"
    then append "not screened: " (
        append k.name (
          append
            ". The harness could not deliver the request, which says nothing about the candidate"
            (tail_of why)))
    else append "it ran and passed nothing" (tail_of why)

-- `_installed` by the machine's versions.
unfoldable pub installed : List (String × String) → String → String
installed versions pkg = or_text (lookup pkg versions) "0"

module _ (strip : String → String) where
  unfoldable pub engine_runtime : String → String
  engine_runtime candidate =
      or_text (lookup (strip (before_char colon (before_char comma candidate))) engine_runtimes) ""

  -- The package whose version decides what the candidate's engine loads.
  unfoldable pub load_runtime : String → String
  load_runtime candidate =
      if starts_with candidate "llamacpp:"
      then "llama.cpp"
      else if str_eq (engine_runtime candidate) ""
      then "mlx-lm"
      else engine_runtime candidate

  unfoldable pub load_until : List (String × String) → String → String
  load_until versions candidate =
      let runtime = load_runtime candidate in
      append "version:" (append runtime (append ">" (installed versions runtime)))
