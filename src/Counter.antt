-- ===== src/Counter.antt =====
-- Python's `Counter` over texts, in order of first occurrence, and who leads in it.
use mathlib.Core.Path.{subst}
use localharness.Prelude.{
  ℕ, suc, ◌+◌, ◌≤◌, ◌<◌, ◌≡◌, ◌≢◌, refl, Bool, true, false, ◌||◌, Option, none, some, List, [], ◌∷◌,
  String, arith, ltb, ◌==◌, str_eq, str_eq_iff, if◌then◌else◌, or_else, All, Bool-cases, inl, inr,
}
use localharness.Prelude.Sort.{
  sorted, IsOrder, IsSorted, Follows, sorted-IsSorted, All-sorted, All-unsorted,
}
use localharness.Dict.{lookup}

abbrev pub one_if : Bool → ℕ
one_if true = 1
one_if false = 0

-- xs.count(k)
unfoldable pub occurrences : String → List String → ℕ
occurrences k [] = 0
occurrences k (x ∷ xs) = one_if (str_eq x k) + occurrences k xs

-- d[k] += 1
unfoldable pub bump : String → List (String × ℕ) → List (String × ℕ)
bump k [] = (k, 1) ∷ []
bump k ((j, n) ∷ d) = if str_eq j k then (j, suc n) ∷ d else (j, n) ∷ bump k d

unfoldable pub counted_from : List (String × ℕ) → List String → List (String × ℕ)
unfolding bump
counted_from d [] = d
counted_from d (x ∷ xs) = counted_from (bump x d) xs

abbrev pub more : String × ℕ → String × ℕ → Bool
more a b = ltb b.1 a.1

abbrev pub most_common : List (String × ℕ) → List (String × ℕ)
most_common d = sorted more d

-- The text that occurs most often; none where there is no text, or two lead.
abbrev pub leader_of : List (String × ℕ) → Option String
leader_of [] = none
leader_of ((k, n) ∷ []) = some k
leader_of ((k, n) ∷ (j, m) ∷ d) = if n == m then none else some k

unfoldable pub leader : List String → Option String
unfolding sorted counted_from
leader xs = leader_of (most_common (counted_from [] xs))

-- Every key stands once, and counts at least one.
abbrev IsApart : String → List (String × ℕ) → Type 0
IsApart k d = All (λ e. str_eq k e.0 ≡ false) d

abbrev IsCounter : List (String × ℕ) → Type 0
IsCounter [] = Unit
IsCounter ((k, n) ∷ d) = IsApart k d × ((1 ≤ n) × IsCounter d)

IsApart-bump :
    (j k : String) (d : List (String × ℕ)) → str_eq j k ≡ false → IsApart j d → IsApart j (bump k d)
unfolding bump
IsApart-bump j k [] e h = (e, tt)
IsApart-bump j k ((i, n) ∷ d) e h = elim (Bool-cases (str_eq i k)) [
  | inl c ↦ rw c (h.0, h.1)
  | inr c ↦ rw c (h.0, IsApart-bump j k d e h.1)
]

IsCounter-bump : (k : String) (d : List (String × ℕ)) → IsCounter d → IsCounter (bump k d)
unfolding bump
IsCounter-bump k [] h = (tt, (omega arith, tt))
IsCounter-bump k ((j, n) ∷ d) h = elim (Bool-cases (str_eq j k)) [
  | inl c ↦ rw c (h.0, (omega arith, h.1.1))
  | inr c ↦ rw c (IsApart-bump j k d c h.0, (h.1.0, IsCounter-bump k d h.1.1))
]

count_of-bump :
    (k v : String) (d : List (String × ℕ))
    → or_else (lookup v (bump k d)) 0 ≡ one_if (str_eq k v) + or_else (lookup v d) 0
unfolding bump lookup
count_of-bump k v [] = ground arith
count_of-bump k v ((j, n) ∷ d) =
    ground (arith, str_eq_iff j k, str_eq_iff j v, str_eq_iff k v, count_of-bump k v d)

counted_from-IsCounter :
    (d : List (String × ℕ)) (xs : List String) → IsCounter d → IsCounter (counted_from d xs)
unfolding counted_from
counted_from-IsCounter d [] h = h
counted_from-IsCounter d (x ∷ xs) h = counted_from-IsCounter (bump x d) xs (IsCounter-bump x d h)

count_of-counted_from :
    (v : String) (d : List (String × ℕ)) (xs : List String)
    → or_else (lookup v (counted_from d xs)) 0 ≡ occurrences v xs + or_else (lookup v d) 0
unfolding counted_from occurrences
count_of-counted_from v d [] = omega arith
count_of-counted_from v d (x ∷ xs) =
    omega (arith, count_of-counted_from v (bump x d) xs, count_of-bump x v d)

All-lookup :
    (k : String) (n : ℕ) (d es : List (String × ℕ))
    → IsApart k es
    → All (λ e. lookup e.0 d ≡ some e.1) es
    → All (λ e. lookup e.0 ((k, n) ∷ d) ≡ some e.1) es
unfolding lookup
All-lookup k n d [] a h = tt
All-lookup k n d (e ∷ es) a h = (rw (a.0) h.0, All-lookup k n d es a.1 h.1)

IsCounter-lookup : (d : List (String × ℕ)) → IsCounter d → All (λ e. lookup e.0 d ≡ some e.1) d
unfolding lookup
IsCounter-lookup [] h = tt
IsCounter-lookup ((k, n) ∷ d) h =
    (ground (arith, str_eq_iff k k), All-lookup k n d d h.0 (IsCounter-lookup d h.1.1))

IsCounter-pos : (d : List (String × ℕ)) → IsCounter d → All (λ e. 1 ≤ e.1) d
IsCounter-pos [] h = tt
IsCounter-pos ((k, n) ∷ d) h = (h.1.0, IsCounter-pos d h.1.1)

more-IsOrder : IsOrder more
more-IsOrder = record { asymmetric = λ x y h. ground arith; composes = λ x y z h k. ground arith }

-- What a leader has behind it.
abbrev Behind : String → ℕ → String × ℕ → Type 0
Behind w n e = (str_eq e.0 w || ltb e.1 n) ≡ true

Behind-Follows :
    (w k : String) (n m : ℕ) (d : List (String × ℕ))
    → m < n
    → Follows more (k, m) d
    → All (Behind w n) d
Behind-Follows w k n m [] lt h = tt
Behind-Follows w k n m (e ∷ d) lt h = (ground arith, Behind-Follows w k n m d lt h.1)

leader_of-Behind :
    (d : List (String × ℕ)) (w : String) (P : String × ℕ → Type 0)
    → leader_of d ≡ some w
    → IsSorted more d
    → All P d
    → (n : ℕ) × P (w, n) × All (Behind w n) d
leader_of-Behind [] w P e s h = absurd cc
leader_of-Behind ((k, n) ∷ []) w P e s h =
    let same : k ≡ w = cc in
    (n, subst (λ x. P (x, n)) same h.0, (ground (arith, str_eq_iff k w), tt))
leader_of-Behind ((k, n) ∷ (j, m) ∷ d) w P e s h =
    let (same, lt) = ahead s.0.0 e in
    (
      n,
      subst (λ x. P (x, n)) same h.0,
      (ground (arith, str_eq_iff k w), (ground arith, Behind-Follows w j n m d lt s.1.0)),
    )
  where
    ahead :
        more (j, m) (k, n) ≡ false → leader_of ((k, n) ∷ (j, m) ∷ d) ≡ some w → (k ≡ w) × (m < n)
    ahead le e = ground arith

lookup-Behind :
    (d : List (String × ℕ)) (v w : String) (n : ℕ)
    → v ≢ w
    → 1 ≤ n
    → All (Behind w n) d
    → or_else (lookup v d) 0 < n
unfolding lookup
lookup-Behind [] v w n ne pos h = omega arith
lookup-Behind ((k, m) ∷ d) v w n ne pos h =
    ground (arith, str_eq_iff k v, str_eq_iff k w, lookup-Behind d v w n ne pos h.1)

All-both :
    {A : Type 0} (P Q : A → Type 0) (xs : List A) → All P xs → All Q xs → All (λ x. P x × Q x) xs
All-both P Q [] h k = tt
All-both P Q (x ∷ xs) h k = ((h.0, k.0), All-both P Q xs h.1 k.1)

-- A leader occurs more often than any other text.
pub leader_lem :
    (xs : List String) (w : String)
    → leader xs ≡ some w
    → (v : String) → v ≢ w
    → occurrences v xs < occurrences w xs
unfolding leader lookup
leader_lem xs w e v ne =
    let d = counted_from [] xs in
    let c = counted_from-IsCounter [] xs tt in
    let (n, fact, behind) =
      leader_of-Behind (most_common d) w (λ e. (1 ≤ e.1) × (lookup e.0 d ≡ some e.1)) e
        (sorted-IsSorted more more-IsOrder d)
        (All-sorted more (λ e. (1 ≤ e.1) × (lookup e.0 d ≡ some e.1)) d
          (All-both (λ e. 1 ≤ e.1) (λ e. lookup e.0 d ≡ some e.1) d (IsCounter-pos d c)
            (IsCounter-lookup d c))) in
    let below = lookup-Behind d v w n ne fact.0 (All-unsorted more (Behind w n) d behind) in
    let at_w : or_else (lookup w d) 0 ≡ n = rw (fact.1) refl in
    omega (arith, count_of-counted_from v [] xs, at_w, below, count_of-counted_from w [] xs)
