-- ===== src/Reasons.antt =====
-- harness/reasons.py: the failure classes, which of several decides a run, and the class that an
-- upstream error text names. `lower` is str.lower and `strip` is str.strip.
pub mod Classes
pub mod Examples
use text.Mathlib.Text.{starts_with}
use localharness.Prelude.{
  Bool, true, false, ◌&&◌, ◌||◌, List, [], ◌∷◌, map, String, str_eq, if◌then◌else◌,
}
use localharness.Text.{contains, before_char, comma, colon}

-- A class, the outcome that screening gives it, and the reason of its verdict.
pub record Class : Type 0 where
  pub name : String
  pub outcome : String
  pub reason : String

abbrev pub class : String → String → String → Class
class name outcome reason = record { name = name; outcome = outcome; reason = reason }

-- CLASSES, in order of precedence.
abbrev pub classes : List Class
classes =
    class "server_dead" "queued" "harness"
    ∷ class "gpu_fault" "declined" "machine"
    ∷ class "refused_by_gateway" "queued" "harness"
    ∷ class "harness_error" "queued" "harness"
    ∷ class "timeout" "declined" "limit"
    ∷ class "token_budget_exhausted" "declined" "limit"
    ∷ class "load_failed_runtime" "declined" "runtime"
    ∷ class "load_failed_layout" "declined" "runtime"
    ∷ class "backend_fault" "declined" "runtime"
    ∷ class "missing_file_in_snapshot" "broken" "candidate"
    ∷ class "crashed" "broken" "candidate"
    ∷ class "content_failed" "broken" "candidate"
    ∷ class "runaway" "broken" "candidate"
    ∷ []

-- CLASSES[c][1]; no class has no reason.
abbrev pub reason_in : List Class → String → String
reason_in [] c = ""
reason_in (k ∷ ks) c = if str_eq k.name c then k.reason else reason_in ks c

abbrev pub reason_of : String → String
reason_of c = reason_in classes c

abbrev pub is_member : String → List String → Bool
is_member c [] = false
is_member c (x ∷ xs) = str_eq c x || is_member c xs

unfoldable pub first_in : List String → List String → String
first_in [] have = ""
first_in (c ∷ cs) have = let rest = first_in cs have in if is_member c have then c else rest

unfoldable pub first : List String → String
unfolding first_in
first have = first_in (map (λ k. k.name) classes) have

-- RUNNER, STDERR
pub data Where : Type 0 where
  runner stderr : Where

abbrev pub is_stderr : Where → Bool
is_stderr runner = false
is_stderr stderr = true

-- `_any` as a test, and `all(p in low for p in …)`.
abbrev pub names_any : String → List String → Bool
names_any low [] = false
names_any low (p ∷ ps) = contains low p || names_any low ps

abbrev pub names_all : String → List String → Bool
names_all low [] = true
names_all low (p ∷ ps) = contains low p && names_all low ps

abbrev pub server_dead_texts : List String
server_dead_texts = "generation thread died" ∷ []

abbrev pub gpu_fault_texts : List String
gpu_fault_texts = "kiogpucommandbuffercallbackerrortimeout" ∷ "gpu timeout error" ∷ []

abbrev pub gateway_texts : List String
gateway_texts =
    "invalid model name" ∷ "gateway returned http 400" ∷ "is the gateway up" ∷ "connection refused"
    ∷ []

abbrev pub harness_texts : List String
harness_texts =
    "no cases of a modality it can run" ∷ "no candidate matched any case" ∷ "no module named"
    ∷ "error while finding module specification" ∷ "command not found" ∷ "guidance_scale has to be"
    ∷ "installed to convert a slow tokenizer" ∷ "run the library in offline mode"
    ∷ "restart your runtime after installation" ∷ "venv lacks a package" ∷ []

abbrev pub snapshot_texts : List String
snapshot_texts = "no such file or directory" ∷ "does not appear to have a file named" ∷ []

abbrev pub architecture_gaps : List String
architecture_gaps =
    "model type" ∷ "modelargs" ∷ "parameters not in model" ∷ "required positional argument" ∷ []

abbrev pub llamacpp_load_failed : List String
llamacpp_load_failed = "http 500" ∷ "failed to load" ∷ []

abbrev pub layout_gaps : List String
layout_gaps = "can't find a pipeline linked to" ∷ "were passed" ∷ []

abbrev pub engine_heads : List String
engine_heads =
    "mflux" ∷ "diffusers" ∷ "diffusers-video" ∷ "acestep" ∷ "hf-ocr" ∷ "rerank" ∷ "embed" ∷ "hf-pii"
    ∷ []

abbrev pub audio_heads : List String
audio_heads = "tts" ∷ "stt" ∷ []

-- The order of the tests of `classify`, from what each says of the text.
abbrev pub class_by :
    (server_dead gpu_fault aborted unloadable gateway harness runaway layout snapshot : Bool)
    → Where
    → String
class_by server_dead gpu_fault aborted unloadable gateway harness runaway layout snapshot source =
    if server_dead
    then "server_dead"
    else if gpu_fault
    then "gpu_fault"
    else if aborted
    then "backend_fault"
    else if unloadable
    then "load_failed_runtime"
    else if gateway
    then "refused_by_gateway"
    else if harness
    then "harness_error"
    else if is_stderr source
    then (if snapshot then "harness_error" else "")
    else if runaway
    then "runaway"
    else if layout
    then "load_failed_layout"
    else if snapshot
    then "missing_file_in_snapshot"
    else "crashed"

module _ (lower strip : String → String) where
  unfoldable pub mps_abort : String → Bool
  mps_abort text =
      let low = lower text in
      if contains low "failed assertion"
      then contains low "mpsgraph"
      else if contains low "llvm error"
      then contains low "\"mps." || contains low "mps_"
      else false

  -- The part of a candidate's spec before its first comma and colon.
  unfoldable pub head_of : String → String
  unfolding before_char
  head_of candidate = strip (before_char colon (before_char comma candidate))

  -- A text that one of the loaders writes when its runtime lacks the architecture.
  abbrev pub is_load_failure : String → String → Bool
  unfolding head_of
  is_load_failure low candidate =
      (starts_with candidate "llamacpp:" && names_all low llamacpp_load_failed)
      || (((contains low "gateway returned http 404" || is_member (head_of candidate) engine_heads)
            && names_any low architecture_gaps)
          || (is_member (head_of candidate) audio_heads && contains low "failed to load model"))

  unfoldable pub classify : String → Where → String → String
  unfolding mps_abort is_load_failure
  classify text source candidate =
      let low = lower text in
      class_by (names_any low server_dead_texts) (names_any low gpu_fault_texts) (mps_abort low)
        (is_load_failure low candidate) (names_any low gateway_texts) (names_any low harness_texts)
        (contains low "tts ran away")
        (names_any low layout_gaps || contains low "trust_remote_code")
        (names_any low snapshot_texts) source
