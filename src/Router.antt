-- ===== src/Router.antt =====
-- harness/router.py: what llama-server's router holds in memory, and what discovery gives back. The
-- router is a state R; its answer to /models is none where it cannot be asked.
pub mod Released
pub mod Watched
pub mod Examples
use localharness.Prelude.{
  ℕ, Bool, true, false, ◌&&◌, ◌||◌, not, Option, none, some, List, [], ◌∷◌, ◌++◌, String, str_eq,
  if◌then◌else◌,
}
use localharness.Prelude.Sort.{sorted}
use localharness.Text.{drop_start}
use localharness.Table.{select}
use localharness.Dict.{lookup, put}
use localharness.Lanes.{is_in}
use localharness.Revisit.{text_ltb}

-- RESIDENT
abbrev pub resident_words : List String
resident_words = "loaded" ∷ "loading" ∷ "sleeping" ∷ []

-- The router of llama-server: `models` is the data of /models, each with its id and status value,
-- and an `unload` that raises is none.
pub record Server (R : Type 0) : Type 0 where
  pub models : R → Option (List (String × String))
  pub unload : R → String → Option R

abbrev pub named_from : List (String × String) → List (String × String) → List (String × String)
named_from [] out = out
named_from ((id, value) ∷ ms) out = named_from ms (if str_eq id "" then out else put id value out)

unfoldable pub statuses : Option (List (String × String)) → Option (List (String × String))
statuses none = none
statuses (some ms) = some (named_from ms [])

abbrev pub resident_keys : List (String × String) → List String
resident_keys [] = []
resident_keys ((k, v) ∷ d) =
    let rest = resident_keys d in if is_in v resident_words then k ∷ rest else rest

abbrev pub keys_of : Option (List (String × String)) → List String
keys_of none = []
keys_of (some d) = resident_keys d

unfoldable pub resident : Option (List (String × String)) → List String
unfolding statuses
resident answer = keys_of (statuses answer)

-- Watch.swaps
pub record Swap : Type 0 where
  pub case : String
  pub at : String
  pub status : String
  pub resident : List String

pub record Watch : Type 0 where
  pub model : String
  pub swaps : List Swap
  pub held : Bool

abbrev pub status_in : String → List (String × String) → String
status_in model d = elim (lookup model d) [ some s ↦ s | none ↦ "absent" ]

abbrev pub is_holding : String → Bool
is_holding status = str_eq status "loaded" || str_eq status "sleeping"

abbrev pub held_now : Watch → Watch
held_now w = record { model = w.model; swaps = w.swaps; held = true }

abbrev pub swapped : Watch → Swap → Watch
swapped w s = record { model = w.model; swaps = w.swaps ++ s ∷ []; held = false }

abbrev pub looked : Watch → String → String → Option (List (String × String)) → Watch
looked w case at none = w
looked w case at (some d) =
    let status = status_in w.model d in
    if is_holding status
    then held_now w
    else if w.held
    then swapped w record {
      case = case;
      at = at;
      status = status;
      resident = sorted text_ltb (select (λ k. not (str_eq k w.model)) (resident_keys d));
    }
    else w

-- `Watch.look`
unfoldable pub look : Watch → String → String → Option (List (String × String)) → Watch
unfolding statuses
look w case at answer = looked w case at (statuses answer)

-- `dict.fromkeys(stems)` without the empty stem.
abbrev pub distinct_from : List String → List String → List String
distinct_from seen [] = []
distinct_from seen (s ∷ ss) =
    let rest = distinct_from (s ∷ seen) ss in if str_eq s "" || is_in s seen then rest else s ∷ rest

-- LLAMACPP_PREFIX; an absent spec is the empty text.
unfoldable pub stem_of : String → String
stem_of spec = elim (drop_start spec "llamacpp:") [ some stem ↦ stem | none ↦ "" ]

module _ {R : Type 0} (server : Server R) where
  -- The loop of `release`: the router it leaves, and the stems that were unloaded.
  unfoldable pub unload_each : List String → Bool → R → List String → R × List String
  unload_each keepers free r [] = (r, [])
  unload_each keepers free r (s ∷ ss) = elim (is_in s keepers || not free) [
    | true ↦ unload_each keepers free r ss
    | false ↦ elim (server.unload r s) [
      | none ↦ unload_each keepers free r ss
      | some q ↦ let rest = unload_each keepers free q ss in (rest.0, s ∷ rest.1)
    ]
  ]

  abbrev pub release_wanted : Option (List String) → Bool → R → List String → R × List String
  release_wanted none free r wanted = (r, [])
  release_wanted (some keepers) free r wanted = unload_each keepers free r wanted

  -- `release`: `keep` is what `protected` gives, none where it raises, and `free` whether no run is
  -- in flight. With nothing wanted the loop has nothing to do.
  unfoldable pub release : Option (List String) → Bool → R → List String → R × List String
  release keep free r stems =
      release_wanted keep free r
        (select (λ s. is_in s (resident (server.models r))) (distinct_from [] stems))

  unfoldable pub release_spec : Option (List String) → Bool → R → String → R × List String
  release_spec keep free r spec = release keep free r (stem_of spec ∷ [])

  unfoldable pub settle : Option (List String) → Bool → R → R × List String
  settle keep free r = release keep free r (resident (server.models r))
