-- ===== src/Dict.antt =====
-- Python's `dict` with text keys, as an association list in order of first insertion.
use localharness.Prelude.{
  ◌≡◌, refl, Option, none, some, List, [], ◌∷◌, String, arith, str_eq, str_eq_iff, if◌then◌else◌,
}

module _ {ℓ} {V : Type ℓ} where
  -- d.get(k)
  unfoldable pub lookup : String → List (String × V) → Option V
  lookup k [] = none
  lookup k ((j, v) ∷ d) = if str_eq j k then some v else lookup k d

  -- d[k] = v: a key that is there keeps its place.
  unfoldable pub put : String → V → List (String × V) → List (String × V)
  put k v [] = (k, v) ∷ []
  put k v ((j, w) ∷ d) = if str_eq j k then (j, v) ∷ d else (j, w) ∷ put k v d

  -- d.setdefault(k, v)
  unfoldable pub set_default : String → V → List (String × V) → List (String × V)
  set_default k v [] = (k, v) ∷ []
  set_default k v ((j, w) ∷ d) =
      let rest = set_default k v d in (j, w) ∷ (if str_eq j k then d else rest)

  -- d.pop(k, None)
  unfoldable pub remove : String → List (String × V) → List (String × V)
  remove k [] = []
  remove k ((j, v) ∷ d) = let rest = remove k d in if str_eq j k then rest else (j, v) ∷ rest

  pub lookup-put :
      (k j : String) (v : V) (d : List (String × V))
      → lookup j (put k v d) ≡ (if str_eq k j then some v else lookup j d)
  unfolding lookup put
  lookup-put k j v [] = refl
  lookup-put k j v ((i, w) ∷ d) =
      ground (arith, str_eq_iff k j, str_eq_iff i k, str_eq_iff i j, lookup-put k j v d)

  pub lookup-remove :
      (k j : String) (d : List (String × V))
      → lookup j (remove k d) ≡ (if str_eq k j then none else lookup j d)
  unfolding lookup remove
  lookup-remove k j [] = ground arith
  lookup-remove k j ((i, w) ∷ d) =
      ground (arith, str_eq_iff k j, str_eq_iff i k, str_eq_iff i j, lookup-remove k j d)

  pub lookup-set_default :
      (k j : String) (v : V) (d : List (String × V))
      → lookup j (set_default k v d)
        ≡ elim (lookup j d) [ some w ↦ some w | none ↦ if str_eq k j then some v else none ]
  unfolding lookup set_default
  lookup-set_default k j v [] = refl
  lookup-set_default k j v ((i, w) ∷ d) =
      ground (arith, str_eq_iff k j, str_eq_iff i k, str_eq_iff i j, lookup-set_default k j v d)
