-- ===== src/Disk/Keep/Loads.antt =====
-- `_aliases`, `_stored` and `_resolve` of harness/disk.py: which repos and files a spec loads.
use Prim.Native.String.{◌++◌ as append}
use text.Mathlib.Text.{starts_with}
use localharness.Prelude.{
  Bool, true, false, ◌&&◌, not, Option, none, some, List, [], ◌∷◌, ◌++◌, String, str_eq,
  if◌then◌else◌,
}
use localharness.Text.{
  drop_end, drop_start, before_char, after_char, has_char, colon, comma, slash, at_sign,
}
use localharness.Dict.{lookup, put}
use localharness.Downloads.{Kind, gguf}
use localharness.Disk.Keep.Tables.{engine_repos, mflux_repos, provider_prefixes}

-- Python's `lower`, `strip` and `repr` of a text, and `lanes.canonical`'s normal form.
pub record Python : Type 0 where
  pub lower : String → String
  pub strip : String → String
  pub repr : String → String
  pub normal : String → String

-- One model of a gateway config; what is absent is the empty text.
pub record Model : Type 0 where
  pub source_repo : String
  pub source_file : String
  pub model : String
  pub model_name : String

-- A row of the query in `_stored`; a candidate with no live download has no kind.
pub record Owned : Type 0 where
  pub name : String
  pub repo : String
  pub kind : Option Kind
  pub file : String

-- The repos and the stems of the files that a spec loads.
pub record Weights : Type 0 where
  pub repos : List String
  pub stems : List String

abbrev pub without_prefix : List String → String → String
without_prefix [] got = got
without_prefix (p ∷ ps) got = elim (drop_start got p) [
  | some rest ↦ rest
  | none ↦ without_prefix ps got
]

abbrev pub also : Bool → String → List String
also true x = x ∷ []
also false x = []

abbrev pub is_blank : String → Bool
is_blank s = str_eq s ""

abbrev pub is_gguf : Option Kind → Bool
is_gguf (some gguf) = true
is_gguf _ = false

abbrev pub together : Option Weights → Weights → Weights
together none w = w
together (some v) w = record { repos = v.repos ++ w.repos; stems = v.stems ++ w.stems }

abbrev pub preset_repo : String → String → List String
preset_repo head bare =
    if str_eq head "mflux"
    then (elim (lookup (after_char colon bare) mflux_repos) [ some r ↦ r ∷ [] | none ↦ [] ])
    else []

module _ (py : Python) where
  unfoldable pub strip_provider : String → String
  strip_provider model = without_prefix provider_prefixes (py.strip model)

  -- `_stem`
  unfoldable pub stem : String → String
  stem filename = drop_end (py.lower filename) ".gguf"

  abbrev pub weights_of : Model → Weights
  weights_of m =
      let model = strip_provider m.model in
      record {
        repos =
            also (not (is_blank m.source_repo)) m.source_repo ++ also (has_char slash model) model;
        stems =
            also (not (is_blank m.source_file)) (stem m.source_file)
            ++ also (not (has_char slash model) && not (is_blank model)) (stem model);
      }

  abbrev pub aliases_from : List Model → List (String × Weights) → List (String × Weights)
  aliases_from [] out = out
  aliases_from (m ∷ ms) out =
      aliases_from ms (put m.model_name (together (lookup m.model_name out) (weights_of m)) out)

  -- `_aliases` over the configs that `_gateway_files` found, each with its path.
  unfoldable pub aliases_of :
      List (String × List Model) → List (String × Weights) → List (String × Weights) × List String
  aliases_of [] out = (out, [])
  aliases_of ((path, ms) ∷ files) out =
      let rest = aliases_of files (aliases_from ms out) in
      (
        rest.0,
        elim ms [
          | [] ↦ append "gateway config " (append path " has no models") ∷ rest.1
          | _ ∷ _ ↦ rest.1
        ],
      )

  -- `_stored`: `owned` is the query's answer for a spec, empty where there is no store.
  abbrev pub stored_from : List Owned → Weights
  stored_from [] = record { repos = []; stems = [] }
  stored_from (r ∷ rs) =
      let rest = stored_from rs in
      record {
        repos = r.name ∷ also (not (is_blank r.repo)) r.repo ++ rest.repos;
        stems = also (is_gguf r.kind && not (is_blank r.file)) (stem r.file) ++ rest.stems;
      }

  abbrev pub stored : (String → List Owned) → String → Weights
  stored owned spec =
      if is_blank spec then record { repos = []; stems = [] } else stored_from (owned spec)

  -- What `_resolve` makes of a spec s that names no alias.
  unfoldable pub resolve_engine : (String → List Owned) → String → Weights
  resolve_engine owned s =
      let bare = py.lower (before_char at_sign (before_char comma s)) in
      let head = before_char colon (before_char slash bare) in
      let own = stored owned s in
      if starts_with bare "llamacpp:"
      then record { repos = []; stems = stem (after_char colon bare) ∷ [] }
      else elim (lookup bare engine_repos) [
        | some rs ↦ record { repos = rs; stems = [] }
        | none ↦ elim (lookup head engine_repos) [
          | some rs ↦ record { repos = rs; stems = [] }
          | none ↦ record {
            repos =
                own.repos
                ++ preset_repo head bare
                ++ also (not (has_char colon s) && not (has_char comma s) && has_char slash s) s;
            stems = own.stems;
          }
        ]
      ]

  unfoldable pub resolve : List (String × Weights) → (String → List Owned) → String → Weights
  resolve aliases owned spec = elim (lookup (py.strip spec) aliases) [
    | some w ↦ w
    | none ↦ resolve_engine owned (py.strip spec)
  ]
