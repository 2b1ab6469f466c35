-- ===== src/Lanes.antt =====
-- harness/lanes.py: the names of lanes. `normal` is `(lane or "").strip().lower()`.
use localharness.Prelude.{Bool, false, ◌||◌, List, [], ◌∷◌, ◌++◌, String, str_eq, if◌then◌else◌}

abbrev pub is_in : String → List String → Bool
is_in x [] = false
is_in x (y ∷ ys) = str_eq x y || is_in x ys

-- WANTED, UNWANTED
abbrev pub wanted : List String
wanted =
    "image" ∷ "code" ∷ "web" ∷ "svg" ∷ "video" ∷ "music" ∷ "decide" ∷ "agent" ∷ "ocr" ∷ "retrieval"
    ∷ "pii" ∷ "claims" ∷ []

abbrev pub unwanted : List String
unwanted = "extract" ∷ "stt" ∷ "tts" ∷ []

abbrev pub text_served : List String
text_served = "code" ∷ "web" ∷ "svg" ∷ "extract" ∷ "agent" ∷ []

-- ALIASES.get(got, got)
abbrev pub surviving : String → String
surviving got = if str_eq got "text" then "code" else if str_eq got "all" then "" else got

module _ (normal : String → String) where
  abbrev pub canonical : String → String
  canonical lane = surviving (normal lane)

  unfoldable pub known : String → Bool
  known lane = is_in (canonical lane) (wanted ++ unwanted)

  unfoldable pub testable_in : String → List String
  testable_in lane =
      let got = canonical lane in
      if str_eq got "" then [] else if is_in got text_served then text_served else got ∷ []

  unfoldable pub serves : String → String → Bool
  unfolding testable_in
  serves candidate_lane target_lane = is_in (canonical target_lane) (testable_in candidate_lane)
