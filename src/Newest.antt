-- ===== src/Newest.antt =====
-- The last row of an ordered list that passes a test, and the newest row of any list: what a loop
-- over a sorted query leaves in a dict, and what it is meant to leave there.
use mathlib.Core.List.{Mem, mem-cons_self, mem-cons_of_mem}
use mathlib.Core.List.Perm
use localharness.Prelude.Sort.{
  sorted, insert_sorted, sorted-perm, IsSorted, Follows, IsOrder, sorted-IsSorted, All-unsorted,
}
use localharness.Prelude.{
  ◌≡◌, refl, ap, ◌∙◌, ◌++◌, Bool, true, false, ◌&&◌, Option, none, some, List, [], ◌∷◌, arith, All,
  if◌then◌else◌, Bool-cases, Option-cases, inl, inr,
}

module _ {ℓ} {A : Type ℓ} (test : A → Bool) where
  unfoldable pub last_of : List A → Option A
  last_of [] = none
  last_of (x ∷ xs) = elim (last_of xs) [ some y ↦ some y | none ↦ if test x then some x else none ]

  last_of-append : (xs : List A) (n : A) → test n ≡ true → last_of (xs ++ n ∷ []) ≡ some n
  unfolding last_of
  last_of-append [] n h = rw h refl
  last_of-append (x ∷ xs) n h = rw (last_of-append xs n h) refl

module _ {ℓ} {A : Type ℓ} (before : A → A → Bool) where
  insert_sorted-append :
      (x n : A) (xs : List A)
      → before n x ≡ false
      → insert_sorted before x (xs ++ n ∷ []) ≡ insert_sorted before x xs ++ n ∷ []
  unfolding insert_sorted
  insert_sorted-append x n [] h = rw h refl
  insert_sorted-append x n (y ∷ ys) h = ground (arith, insert_sorted-append x n ys h)

  sorted-append :
      (n : A) (xs : List A)
      → All (λ x. before n x ≡ false) xs
      → sorted before (xs ++ n ∷ []) ≡ sorted before xs ++ n ∷ []
  unfolding sorted insert_sorted
  sorted-append n [] h = refl
  sorted-append n (x ∷ xs) h =
      ap (insert_sorted before x) (sorted-append n xs h.1)
      ∙ insert_sorted-append x n (sorted before xs) h.0

  -- A row that passes, added after all others, is the last that does.
  pub last_of-sorted-append :
      (test : A → Bool) (n : A) (xs : List A)
      → All (λ x. before n x ≡ false) xs
      → test n ≡ true
      → last_of test (sorted before (xs ++ n ∷ [])) ≡ some n
  last_of-sorted-append test n xs h t =
      ap (last_of test) (sorted-append n xs h) ∙ last_of-append test (sorted before xs) n t

module _ {A : Type 0} (before : A → A → Bool) (test : A → Bool) where
  -- No row passes the test, or this one does and none that does is after it.
  abbrev pub IsNewest : List A → Option A → Type 0
  IsNewest rows none = All (λ s. test s ≡ false) rows
  IsNewest rows (some r) =
      Mem r rows × ((test r ≡ true) × All (λ s. (test s && before r s) ≡ false) rows)

  last_of-Follows :
      (x y : A) (ys : List A) → Follows before x ys → last_of test ys ≡ some y → before y x ≡ false
  unfolding last_of
  last_of-Follows x y [] h e = absurd cc
  last_of-Follows x y (z ∷ zs) h e = elim (Option-cases (last_of test zs)) [
    | inl n ↦ ground arith
    | inr (w, q) ↦ last_of-Follows x y zs h.1 cc
  ]

  All-none :
      (x : A) (xs : List A)
      → All (λ s. test s ≡ false) xs
      → All (λ s. (test s && before x s) ≡ false) xs
  All-none x [] h = tt
  All-none x (y ∷ ys) h = (rw h.0 refl, All-none x ys h.1)

  module _ (order : IsOrder before) where
    irreflexive : (x : A) → before x x ≡ false
    irreflexive x = ground (arith, order.asymmetric x x)

    extend :
        (x : A) (xs : List A) (o : Option A)
        → ((y : A) → o ≡ some y → before y x ≡ false)
        → IsNewest xs o
        → IsNewest (x ∷ xs) (elim o [ some y ↦ some y | none ↦ if test x then some x else none ])
    extend x xs (some y) later (m, (t, h)) =
        (mem-cons_of_mem x m, (t, (ground (arith, later y refl), h)))
    extend x xs none later h = elim (Bool-cases (test x)) [
      | inl e ↦ rw e (mem-cons_self, (e, (ground (arith, irreflexive x), All-none x xs h)))
      | inr e ↦ rw e (e, h)
    ]

    last_of-IsNewest : (xs : List A) → IsSorted before xs → IsNewest xs (last_of test xs)
    unfolding last_of
    last_of-IsNewest [] h = tt
    last_of-IsNewest (x ∷ xs) h =
        extend x xs (last_of test xs) (λ y e. last_of-Follows x y xs h.0 e)
          (last_of-IsNewest xs h.1)

    unsorted-IsNewest : (xs : List A) (o : Option A) → IsNewest (sorted before xs) o → IsNewest xs o
    unsorted-IsNewest xs none h = All-unsorted before (λ s. test s ≡ false) xs h
    unsorted-IsNewest xs (some r) (m, (t, h)) = (
      (Perm.mem_iff (sorted-perm before xs)).0 m,
      (t, All-unsorted before (λ s. (test s && before r s) ≡ false) xs h),
    )

    -- The last row that passes, in the sorted list, is the newest of all that do.
    pub sorted-IsNewest : (xs : List A) → IsNewest xs (last_of test (sorted before xs))
    sorted-IsNewest xs =
        unsorted-IsNewest xs (last_of test (sorted before xs))
          (last_of-IsNewest (sorted before xs) (sorted-IsSorted before order xs))
