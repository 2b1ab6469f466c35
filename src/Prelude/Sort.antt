-- ===== src/Prelude/Sort.antt =====
-- Python's `sorted`: a stable sort by a strict order on keys, as an insertion sort.
use Prim.Native.Nat.{suc}
use mathlib.Core.Path.{◌≡◌, refl}
use mathlib.Core.Logic.{inl, inr}
use mathlib.Core.Bool.{Bool, true, false}
use mathlib.Core.List.{List, [], ◌∷◌, Perm}
use mathlib.Core.List.Perm
use native.Mathlib.Omega.{arith}
use localharness.Prelude.Tests.{if◌then◌else◌, Bool-cases}
use localharness.Prelude.Lists.{length, All}

module _ {ℓ} {A : Type ℓ} (before : A → A → Bool) where
  -- What stands behind may not be strictly before what stands in front.
  abbrev pub Follows : A → List A → Type 0
  Follows x [] = Unit
  Follows x (y ∷ ys) = (before y x ≡ false) × Follows x ys

  abbrev pub IsSorted : List A → Type 0
  IsSorted [] = Unit
  IsSorted (x ∷ xs) = Follows x xs × IsSorted xs

  unfoldable pub insert_sorted : A → List A → List A
  insert_sorted x [] = x ∷ []
  insert_sorted x (y ∷ ys) = if before y x then y ∷ insert_sorted x ys else x ∷ y ∷ ys

  unfoldable pub sorted : List A → List A
  unfolding insert_sorted
  sorted [] = []
  sorted (x ∷ xs) = insert_sorted x (sorted xs)

  pub insert_sorted-perm : (x : A) (xs : List A) → Perm (insert_sorted x xs) (x ∷ xs)
  unfolding insert_sorted
  insert_sorted-perm x [] = Perm.refl _
  insert_sorted-perm x (y ∷ ys) = elim (Bool-cases (before y x)) [
    | inl e ↦ rw e (Perm.trans (Perm.cons y (insert_sorted-perm x ys)) (Perm.swap x y ys))
    | inr e ↦ rw e (Perm.refl _)
  ]

  pub sorted-perm : (xs : List A) → Perm (sorted xs) xs
  unfolding sorted
  sorted-perm [] = Perm.refl _
  sorted-perm (x ∷ xs) =
      Perm.trans (insert_sorted-perm x (sorted xs)) (Perm.cons x (sorted-perm xs))

  pub length-insert_sorted : (x : A) (xs : List A) → length (insert_sorted x xs) ≡ suc (length xs)
  unfolding insert_sorted
  length-insert_sorted x [] = refl
  length-insert_sorted x (y ∷ ys) = ground (arith, length-insert_sorted x ys)

  pub length-sorted : (xs : List A) → length (sorted xs) ≡ length xs
  unfolding sorted
  length-sorted [] = refl
  length-sorted (x ∷ xs) = omega (arith, length-insert_sorted x (sorted xs), length-sorted xs)

  All-insert_sorted {κ} :
      (P : A → Type κ) (x : A) (xs : List A) → P x → All P xs → All P (insert_sorted x xs)
  unfolding insert_sorted
  All-insert_sorted P x [] h hs = (h, tt)
  All-insert_sorted P x (y ∷ ys) h hs = elim (Bool-cases (before y x)) [
    | inl e ↦ rw e (hs.0, All-insert_sorted P x ys h hs.1)
    | inr e ↦ rw e (h, hs)
  ]

  pub All-sorted {κ} : (P : A → Type κ) (xs : List A) → All P xs → All P (sorted xs)
  unfolding sorted
  All-sorted P [] h = tt
  All-sorted P (x ∷ xs) h = All-insert_sorted P x (sorted xs) h.0 (All-sorted P xs h.1)

  All-uninsert {κ} :
      (P : A → Type κ) (x : A) (xs : List A) → All P (insert_sorted x xs) → P x × All P xs
  unfolding insert_sorted
  All-uninsert P x [] = λ h. h
  All-uninsert P x (y ∷ ys) = elim (Bool-cases (before y x)) [
    | inl e ↦ rw e (λ (p, ps). let (q, qs) = All-uninsert P x ys ps in (q, (p, qs)))
    | inr e ↦ rw e (λ h. h)
  ]

  pub All-unsorted {κ} : (P : A → Type κ) (xs : List A) → All P (sorted xs) → All P xs
  unfolding sorted
  All-unsorted P [] h = tt
  All-unsorted P (x ∷ xs) h =
      let (p, ps) = All-uninsert P x (sorted xs) h in (p, All-unsorted P xs ps)

  -- What an order by keys gives: no two elements are before one another, and "not before" composes.
  pub record IsOrder : Type ℓ where
    pub asymmetric : (x y : A) → before x y ≡ true → before y x ≡ false
    pub composes : (x y z : A) → before y x ≡ false → before z y ≡ false → before z x ≡ false

  module _ (order : IsOrder) where
    open order use {asymmetric, composes}

    Follows-trans : (x y : A) (ys : List A) → before y x ≡ false → Follows y ys → Follows x ys
    Follows-trans x y [] e h = tt
    Follows-trans x y (z ∷ zs) e h = (composes x y z e h.0, Follows-trans x y zs e h.1)

    Follows-insert_sorted :
        (x y : A) (ys : List A) → before x y ≡ false → Follows y ys → Follows y (insert_sorted x ys)
    unfolding insert_sorted
    Follows-insert_sorted x y [] e h = (e, tt)
    Follows-insert_sorted x y (z ∷ zs) e h = elim (Bool-cases (before z x)) [
      | inl c ↦ rw c (h.0, Follows-insert_sorted x y zs e h.1)
      | inr c ↦ rw c (e, h)
    ]

    insert_sorted-IsSorted : (x : A) (xs : List A) → IsSorted xs → IsSorted (insert_sorted x xs)
    unfolding insert_sorted
    insert_sorted-IsSorted x [] h = (tt, tt)
    insert_sorted-IsSorted x (y ∷ ys) h = elim (Bool-cases (before y x)) [
      | inl c ↦
          rw c
            (Follows-insert_sorted x y ys (asymmetric y x c) h.0, insert_sorted-IsSorted x ys h.1)
      | inr c ↦ rw c ((c, Follows-trans x y ys c h.0), h)
    ]

    pub sorted-IsSorted : (xs : List A) → IsSorted (sorted xs)
    unfolding sorted
    sorted-IsSorted [] = tt
    sorted-IsSorted (x ∷ xs) = insert_sorted-IsSorted x (sorted xs) (sorted-IsSorted xs)
