-- ===== src/Downloads/Rows.antt =====
-- The rows of harness/downloads.py, and which of them are live.
use localharness.Prelude.{
  ℕ, Bool, true, false, ◌&&◌, Option, none, some, is_none, List, [], ◌∷◌, ◌++◌, String, ◌==◌,
  str_eq,
}
use localharness.Table.{select}

pub data Kind : Type 0 where
  hub gguf : Kind

abbrev pub kind_eq : Kind → Kind → Bool
kind_eq hub hub = true
kind_eq gguf gguf = true
kind_eq _ _ = false

pub data Origin : Type 0 where
  fetch link script scan backfill partial : Origin

abbrev pub is_partial : Origin → Bool
is_partial partial = true
is_partial _ = false

-- A row of `downloads`, less its proposal and its verdict.
pub record Download : Type 0 where
  pub id : ℕ
  pub repo : String
  pub kind : Kind
  pub path : String
  pub file : String
  pub origin : Origin
  pub source : String
  pub bytes : ℕ
  pub files : ℕ
  pub complete : Bool
  pub requires : List String
  pub machine_id : ℕ
  pub started_at : Option ℕ
  pub finished_at : Option ℕ
  pub removed_at : Option ℕ
  pub removed_by : String

-- What a path holds: whether it exists, whether weights or a config are there, their size and
-- number, and the repos that its config names.
pub record Disk : Type 0 where
  pub exists : String → Bool
  pub loadable : Kind → String → Bool
  pub measure : Kind → String → ℕ × ℕ
  pub requires_in : String → String → List String

abbrev kind_matches : Option Kind → Kind → Bool
kind_matches none k = true
kind_matches (some want) k = kind_eq want k

abbrev text_matches : Option String → String → Bool
text_matches none t = true
text_matches (some want) t = str_eq want t

-- The WHERE clause of `live` on the machine with this id; `lower` folds the case of a repo's name,
-- and a filter that is not given is none.
abbrev pub is_live :
    (String → String) → ℕ → Option String → Option Kind → Option String → Download → Bool
is_live lower mine repo kind path d =
    is_none d.removed_at
    && (d.machine_id == mine)
    && text_matches repo (lower d.repo)
    && kind_matches kind d.kind
    && text_matches path d.path

abbrev pub newest_first : List Download → List Download
newest_first [] = []
newest_first (d ∷ ds) = newest_first ds ++ d ∷ []

unfoldable pub live :
    (String → String)
    → ℕ
    → Option String
    → Option Kind
    → Option String
    → List Download
    → List Download
live lower mine repo kind path rows = newest_first (select (is_live lower mine repo kind path) rows)
