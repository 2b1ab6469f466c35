-- ===== src/Table.antt =====
-- Tables as lists of rows with an integer primary key: SQLite's next id, a lookup and an update.
use mathlib.Core.Option
use localharness.Prelude.Sort.{insert_sorted, sorted}
use localharness.Prelude.{
  ◌||◌, length, ℕ, ◌≤◌, ◌<◌, max, ◌≡◌, refl, Bool, true, false, Option, none, some, List, [], ◌∷◌,
  ◌++◌, arith, ◌==◌, if◌then◌else◌,
}

module _ {ℓ} {A : Type ℓ} (key : A → ℕ) where
  -- The largest id in use, 0 for an empty table: an INTEGER PRIMARY KEY hands out the next one.
  unfoldable pub max_id : List A → ℕ
  max_id [] = 0
  max_id (x ∷ xs) = max (key x) (max_id xs)

  unfoldable pub find_row : ℕ → List A → Option A
  find_row i [] = none
  find_row i (x ∷ xs) = if key x == i then some x else find_row i xs

  unfoldable pub update_row : ℕ → (A → A) → List A → List A
  update_row i f [] = []
  update_row i f (x ∷ xs) = (if key x == i then f x else x) ∷ update_row i f xs

  pub find_row-above : (i : ℕ) (xs : List A) → max_id xs < i → find_row i xs ≡ none
  unfolding max_id find_row
  find_row-above i [] h = refl
  find_row-above i (x ∷ xs) h = ground (arith, find_row-above i xs)

  pub find_row-append :
      (i : ℕ) (xs : List A) (y : A)
      → find_row i (xs ++ y ∷ [])
        ≡ elim (find_row i xs) [ some x ↦ some x | none ↦ if key y == i then some y else none ]
  unfolding find_row
  find_row-append i [] y = refl
  find_row-append i (x ∷ xs) y = ground (arith, find_row-append i xs y)

  pub find_row-update_row :
      (i j : ℕ) (f : A → A) (xs : List A)
      → ((x : A) → key (f x) ≡ key x)
      → find_row j (update_row i f xs)
        ≡ (if i == j then Option.map f (find_row j xs) else find_row j xs)
  unfolding find_row update_row
  find_row-update_row i j f [] keeps = ground arith
  find_row-update_row i j f (x ∷ xs) keeps =
      ground (arith, keeps x, find_row-update_row i j f xs keeps)

  pub find_row-key : (i : ℕ) (xs : List A) (x : A) → find_row i xs ≡ some x → key x ≡ i
  unfolding find_row
  find_row-key i [] x h = cc
  find_row-key i (y ∷ ys) x h = ground (arith, find_row-key i ys x)

-- SELECT, UPDATE and DELETE with a WHERE clause, and whether a row meets it.
module _ {ℓ} {A : Type ℓ} where
  abbrev pub select : (A → Bool) → List A → List A
  select test [] = []
  select test (x ∷ xs) = let rest = select test xs in if test x then x ∷ rest else rest

  abbrev pub update_where : (A → Bool) → (A → A) → List A → List A
  update_where test f [] = []
  update_where test f (x ∷ xs) = (if test x then f x else x) ∷ update_where test f xs

  abbrev pub delete_where : (A → Bool) → List A → List A
  delete_where test [] = []
  delete_where test (x ∷ xs) = let rest = delete_where test xs in if test x then rest else x ∷ rest

  abbrev pub is_any : (A → Bool) → List A → Bool
  is_any test [] = false
  is_any test (x ∷ xs) = test x || is_any test xs

  is_any-insert_sorted :
      (before : A → A → Bool) (test : A → Bool) (x : A) (xs : List A)
      → is_any test (insert_sorted before x xs) ≡ (test x || is_any test xs)
  unfolding insert_sorted
  is_any-insert_sorted before test x [] = refl
  is_any-insert_sorted before test x (y ∷ ys) =
      ground (arith, is_any-insert_sorted before test x ys)

  pub is_any-sorted :
      (before : A → A → Bool) (test : A → Bool) (xs : List A)
      → is_any test (sorted before xs) ≡ is_any test xs
  unfolding sorted
  is_any-sorted before test [] = refl
  is_any-sorted before test (x ∷ xs) =
      ground
        (arith, is_any-insert_sorted before test x (sorted before xs), is_any-sorted before test xs)

  -- An update that leaves its rows outside a selection makes the selection no longer.
  pub length-select-update_row-le :
      (key : A → ℕ) (test : A → Bool) (i : ℕ) (f : A → A) (xs : List A)
      → ((x : A) → test (f x) ≡ false)
      → length (select test (update_row key i f xs)) ≤ length (select test xs)
  unfolding update_row
  length-select-update_row-le key test i f [] out = omega arith
  length-select-update_row-le key test i f (x ∷ xs) out =
      ground (arith, out x, length-select-update_row-le key test i f xs out)

  -- It makes it shorter where a row with its key was selected.
  pub length-select-update_row-lt :
      (key : A → ℕ) (test : A → Bool) (i : ℕ) (f : A → A) (xs : List A)
      → ((x : A) → test (f x) ≡ false)
      → is_any (λ x. key x == i) (select test xs) ≡ true
      → length (select test (update_row key i f xs)) < length (select test xs)
  unfolding update_row
  length-select-update_row-lt key test i f [] out h = cc
  length-select-update_row-lt key test i f (x ∷ xs) out h = ground (
    arith,
    out x,
    length-select-update_row-le key test i f xs out,
    length-select-update_row-lt key test i f xs out,
  )
