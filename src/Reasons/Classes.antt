-- ===== src/Reasons/Classes.antt =====
-- Which failure class decides, by harness/reasons.py, and what it says of a candidate.
use localharness.Prelude.{
  ◌≡◌, refl, Bool, true, false, ◌||◌, List, [], ◌∷◌, ◌++◌, map, String, arith, str_eq, str_eq_iff,
  All,
}
use localharness.Reasons.{
  classes, reason_of, is_member, first_in, first, runner, stderr, class_by, classify,
}

is_member-append :
    (c : String) (xs ys : List String) → is_member c (xs ++ ys) ≡ (is_member c xs || is_member c ys)
is_member-append c [] ys = refl
is_member-append c (x ∷ xs) ys = ground (arith, is_member-append c xs ys)

-- What is found is no class that is not there.
first_in-other :
    (c : String) (cs have : List String)
    → is_member c have ≡ false
    → str_eq c "" ≡ false
    → str_eq c (first_in cs have) ≡ false
unfolding first_in
first_in-other c [] have h named = named
first_in-other c (d ∷ ds) have h named =
    ground (arith, str_eq_iff c d, first_in-other c ds have h named)

first_in-append :
    (cs xs ys : List String)
    → All (λ c. str_eq c "" ≡ false) cs
    → first_in cs (xs ++ ys) ≡ first_in cs (first_in cs xs ∷ first_in cs ys ∷ [])
unfolding first_in
first_in-append [] xs ys h = refl
first_in-append (c ∷ cs) xs ys h = ground (
  arith,
  str_eq_iff c c,
  is_member-append c xs ys,
  first_in-other c cs xs,
  first_in-other c cs ys,
  first_in-append cs xs ys h.1,
)

first_in_comm : (cs xs ys : List String) → first_in cs (xs ++ ys) ≡ first_in cs (ys ++ xs)
unfolding first_in
first_in_comm [] xs ys = refl
first_in_comm (c ∷ cs) xs ys =
    ground (arith, is_member-append c xs ys, is_member-append c ys xs, first_in_comm cs xs ys)

named_classes : All (λ c. str_eq c "" ≡ false) (map (λ k. k.name) classes)
named_classes = (
  refl,
  (
    refl,
    (refl, (refl, (refl, (refl, (refl, (refl, (refl, (refl, (refl, (refl, (refl, tt))))))))))),
  ),
)

-- The class that decides the rows of two runs together is the one that decides the two classes that
-- decide each run, whichever run comes first.
pub first-append :
    (xs ys : List String)
    → (first (xs ++ ys) ≡ first (first xs ∷ first ys ∷ [])) × (first (xs ++ ys) ≡ first (ys ++ xs))
unfolding first
first-append xs ys =
    let names = map (λ k. k.name) classes in
    (first_in-append names xs ys named_classes, first_in_comm names xs ys)

abbrev pub blames : String → Bool
blames c = str_eq (reason_of c) "candidate"

class_by_lem :
    (a b c d e f g h i : Bool)
    → (str_eq (class_by a b c d e f g h i runner) "" ≡ false)
      × (blames (class_by a b c d e f g h i stderr) ≡ false)
class_by_lem true b c d e f g h i = (refl, refl)
class_by_lem false true c d e f g h i = (refl, refl)
class_by_lem false false true d e f g h i = (refl, refl)
class_by_lem false false false true e f g h i = (refl, refl)
class_by_lem false false false false true f g h i = (refl, refl)
class_by_lem false false false false false true g h i = (refl, refl)
class_by_lem false false false false false false true h true = (refl, refl)
class_by_lem false false false false false false true h false = (refl, refl)
class_by_lem false false false false false false false true true = (refl, refl)
class_by_lem false false false false false false false true false = (refl, refl)
class_by_lem false false false false false false false false true = (refl, refl)
class_by_lem false false false false false false false false false = (refl, refl)

-- A text that a runner caught always names a class, and one read from stderr never blames the
-- candidate, whatever the text says and whichever candidate ran.
pub classify_lem :
    (lower strip : String → String) (text candidate : String)
    → (str_eq (classify lower strip text runner candidate) "" ≡ false)
      × (blames (classify lower strip text stderr candidate) ≡ false)
unfolding classify
classify_lem lower strip text candidate = class_by_lem _ _ _ _ _ _ _ _ _
