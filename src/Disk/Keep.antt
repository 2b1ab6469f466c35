-- ===== src/Disk/Keep.antt =====
-- The keepers of harness/disk.py: what the gateway's aliases, the typed defaults, the adopted
-- winners and the harness's own tools load. A Python set is a list.
mod Tables
mod Loads
pub mod Classify
pub mod Grows
pub mod Covered
pub mod Kept
use Prim.Native.String.{◌++◌ as append}
use text.Mathlib.Text.{starts_with}
use localharness.Prelude.{
  ℕ, Bool, true, false, ◌&&◌, ◌||◌, not, is_none, Option, none, some, List, [], ◌∷◌, ◌++◌, map,
  String, str_eq, if◌then◌else◌,
}
use localharness.Prelude.Sort.{sorted}
use localharness.Text.{
  drop_end, drop_start, before_char, after_char, has_char, colon, comma, slash, at_sign,
}
use localharness.Dict.{lookup, put, set_default}
use localharness.Lanes.{is_in, canonical}
use localharness.Revisit.{text_ltb}
use localharness.Downloads.{Kind, hub, gguf}
unfoldable pub use Tables.*
unfoldable pub use Loads.*

pub record Keepers : Type 0 where
  pub repos : List (String × String)
  pub stems : List (String × String)
  pub problems : List String
  pub lanes : List (String × String)

-- One spec that `keepers` adds: its text, why it is kept, and its lane or the empty text.
pub record Wanted : Type 0 where
  pub spec : String
  pub why : String
  pub lane : String

abbrev pub keep_all :
    (String → String) → String → List String → List (String × String) → List (String × String)
keep_all key why [] d = d
keep_all key why (x ∷ xs) d = keep_all key why xs (set_default (key x) why d)

abbrev pub names_weights : Weights → Bool
names_weights w = elim w.repos [ _ ∷ _ ↦ true | [] ↦ elim w.stems [ _ ∷ _ ↦ true | [] ↦ false ] ]

abbrev pub alias_wanted : String × Weights → Wanted
alias_wanted a = record { spec = a.0; why = append "alias " a.0; lane = "" }

abbrev pub typed_wanted : String × String → Wanted
typed_wanted t = record { spec = t.1; why = append t.0 " default"; lane = t.0 }

abbrev pub adopted_in : String → List String → List Wanted
adopted_in lane [] = []
adopted_in lane (s ∷ ss) =
    record { spec = s; why = append lane " adopted winner"; lane = lane } ∷ adopted_in lane ss

abbrev pub adopted_wanted : List (String × List String) → List Wanted
adopted_wanted [] = []
adopted_wanted ((lane, specs) ∷ rest) =
    adopted_in lane (sorted text_ltb specs) ++ adopted_wanted rest

abbrev pub wanted_by :
    List (String × Weights) → List (String × String) → List (String × List String) → List Wanted
wanted_by aliases typed adopted =
    map alias_wanted aliases ++ (map typed_wanted typed ++ adopted_wanted adopted)

abbrev pub problems_of : List (String × Weights) × List String → List String
problems_of ([], problems) = problems ++ "no gateway aliases could be read" ∷ []
problems_of (_ ∷ _, problems) = problems

module _ (py : Python) where
  abbrev pub is_weightless : String → Bool
  is_weightless spec = is_in (py.strip (before_char colon spec)) weightless

  abbrev pub says_nothing : String → String → String
  says_nothing why spec = append why (append ": " (append (py.repr spec) " names no weights"))

  abbrev pub with_weights : Weights → String → Keepers → Keepers
  with_weights w why k = record {
    repos = keep_all py.lower why w.repos k.repos;
    stems = keep_all (λ s. s) why w.stems k.stems;
    problems = k.problems;
    lanes = k.lanes;
  }

  abbrev pub with_lane : String → String → String → Keepers → Keepers
  with_lane spec why lane k =
      if is_blank lane
      then record {
        repos = k.repos;
        stems = k.stems;
        problems = k.problems ++ says_nothing why spec ∷ [];
        lanes = k.lanes;
      }
      else record {
        repos = k.repos;
        stems = k.stems;
        problems = k.problems;
        lanes =
            set_default (canonical py.normal lane)
              (append (says_nothing why spec)
                (append ", so every " (append lane " candidate's weights are kept")))
              k.lanes;
      }

  -- `add`, for weights that `_resolve` gave.
  unfoldable pub add_weights : Weights → String → String → String → Keepers → Keepers
  add_weights w spec why lane k =
      if names_weights w || is_weightless spec
      then with_weights w why k
      else with_lane spec why lane (with_weights w why k)

  abbrev pub add_each :
      List (String × Weights) → (String → List Owned) → List Wanted → Keepers → Keepers
  add_each aliases owned [] k = k
  add_each aliases owned (x ∷ xs) k =
      add_each aliases owned xs
        (add_weights (resolve py aliases owned x.spec) x.spec x.why x.lane k)

  abbrev pub keep_tools : List (String × String) → List (String × String) → List (String × String)
  keep_tools [] d = d
  keep_tools ((repo, why) ∷ ts) d =
      keep_tools ts (set_default (py.lower repo) (append "tooling: " why) d)

  abbrev pub with_tools : Keepers → Keepers
  with_tools k = record {
    repos = keep_tools tooling k.repos;
    stems = k.stems;
    problems = k.problems;
    lanes = k.lanes;
  }

  -- `keepers` over the gateway's configs, the typed defaults and every machine's adoptions.
  unfoldable pub keepers :
      List (String × List Model)
      → (String → List Owned)
      → List (String × String)
      → List (String × List String)
      → Keepers
  keepers files owned typed adopted =
      let got = aliases_of py files [] in
      with_tools (
        add_each got.0 owned (wanted_by got.0 typed adopted)
          record { repos = []; stems = []; problems = problems_of got; lanes = [] })
