-- ===== src/Served/Lane.antt =====
-- What a lane serves, and what it is told it cannot serve, by harness/adopt.py.
use mathlib.Core.Path.{subst}
use localharness.Prelude.{
  ℕ, ◌≡◌, ◌≢◌, refl, sym, ◌∙◌, Bool, ◌&&◌, not, Option, none, some, List, [], ◌∷◌, String, arith,
  str_eq, str_eq_iff, if◌then◌else◌,
}
use localharness.Prelude.Sort.{sorted, IsOrder}
use localharness.Dict.{lookup, lookup-put, lookup-remove}
use localharness.Newest.{last_of, IsNewest, sorted-IsNewest}
use localharness.Served.{
  Joined, Why, Store, older, visible, is_reference, is_refused, fit_here, resolve_row, resolve_rows,
  resolve, current, or_fallback, default_for,
}

older-IsOrder : IsOrder older
older-IsOrder = record { asymmetric = λ x y h. ground arith; composes = λ x y z h k. ground arith }

abbrev first_some {ℓ} : {A : Type ℓ} → Option A → Option A → Option A
first_some (some a) o = some a
first_some none o = o

pub first_some-none {ℓ} : {A : Type ℓ} (o : Option A) → first_some o none ≡ o
first_some-none none = refl
first_some-none (some a) = refl

module _ (s : Store) (ids : List ℕ) where
  -- An adoption that may decide a lane: no reference model's.
  abbrev pub decides : String → Joined → Bool
  decides lane j = not (is_reference j.spec) && str_eq j.row.lane lane

  -- One that a lane may serve: measured, or fitting this machine.
  abbrev pub serves : String → Joined → Bool
  serves lane j = decides lane j && not (is_refused s ids j)

  pub lookup-resolve_rows :
      (lane : String) (js : List Joined)
      (got : List (String × Joined) × List (String × (Joined × Why)))
      → lookup lane (resolve_rows s ids js got).0
        ≡ first_some (last_of (serves lane) js) (lookup lane got.0)
  unfolding resolve_rows last_of
  lookup-resolve_rows lane [] got = refl
  lookup-resolve_rows lane (j ∷ js) (out, refused) = ground (
    arith,
    str_eq_iff j.row.lane lane,
    lookup-put j.row.lane lane j out,
    lookup-resolve_rows lane js (resolve_row s ids j (out, refused)),
  )

  -- What the lane's last deciding row leaves among the refused.
  abbrev pub refusal : Option Joined → Option (Joined × Why) → Option (Joined × Why)
  refusal none otherwise = otherwise
  refusal (some j) otherwise = if is_refused s ids j then some (j, (fit_here s ids j).why) else none

  lookup-resolve_rows-refused :
      (lane : String) (js : List Joined)
      (got : List (String × Joined) × List (String × (Joined × Why)))
      → lookup lane (resolve_rows s ids js got).1
        ≡ refusal (last_of (decides lane) js) (lookup lane got.1)
  unfolding resolve_rows last_of
  lookup-resolve_rows-refused lane [] got = refl
  lookup-resolve_rows-refused lane (j ∷ js) (out, refused) = ground (
    arith,
    str_eq_iff j.row.lane lane,
    lookup-put j.row.lane lane (j, (fit_here s ids j).why) refused,
    lookup-remove j.row.lane lane refused,
    lookup-resolve_rows-refused lane js (resolve_row s ids j (out, refused)),
  )

  -- What `current` has for a lane is the newest adoption that the lane may serve here, of all those
  -- that this machine sees, in whichever order the table holds them; it has nothing exactly where
  -- there is none. The newest is the one made last, and of those made at one time the one with the
  -- largest id.
  pub current_lem :
      (lane : String) → IsNewest older (serves lane) (visible s ids) (lookup lane (current s ids))
  unfolding resolve lookup
  current_lem lane =
      let rows = sorted older (visible s ids) in
      let same =
        lookup-resolve_rows lane rows ([], []) ∙ first_some-none (last_of (serves lane) rows) in
      subst (IsNewest older (serves lane) (visible s ids)) (sym same)
        (sorted-IsNewest older (serves lane) older-IsOrder (visible s ids))

  -- A lane is told of a refusal exactly when the newest of all its adoptions that this machine sees,
  -- reference models left out, is a by-hand one that does not fit, and then of that one.
  pub refused_lem :
      (lane : String)
      → (newest : Option Joined) × (IsNewest older (decides lane) (visible s ids) newest
          × (lookup lane (resolve s ids).1 ≡ refusal newest none))
  unfolding resolve lookup
  refused_lem lane =
      let same = lookup-resolve_rows-refused lane (sorted older (visible s ids)) ([], []) in
      (
        last_of (decides lane) (sorted older (visible s ids)),
        (sorted-IsNewest older (decides lane) older-IsOrder (visible s ids), same),
      )

-- With a store that can be read, a named lane serves the spec of the newest adoption that it may
-- serve here, and its typed default where there is none or that spec is empty.
pub default_for_lem :
    (normal : String → String) (lane fallback : String) (s : Store) (ids : List ℕ)
    → lane ≢ ""
    → (newest : Option Joined) × (IsNewest older (serves s ids (normal lane)) (visible s ids) newest
        × (default_for normal lane fallback (some s) ids ≡ or_fallback newest fallback))
unfolding default_for
default_for_lem normal lane fallback s ids named = (
  lookup (normal lane) (current s ids),
  (current_lem s ids (normal lane), ground (arith, str_eq_iff lane "")),
)
