-- ===== src/Disk/Keep/Grows.antt =====
-- How the keepers of harness/disk.py grow: nothing that is kept is given up.
use localharness.Prelude.{
  ◌≡◌, Bool, true, false, ◌||◌, not, is_none, List, [], ◌∷◌, String, arith, str_eq, str_eq_iff, All,
}
use localharness.Dict.{lookup, set_default, lookup-set_default}
use localharness.Disk.Keep.{Keepers, keep_all}

-- `k in d`
abbrev pub has_key : String → List (String × String) → Bool
has_key k d = not (is_none (lookup k d))

pub has_key-set_default :
    (k j v : String) (d : List (String × String))
    → has_key j (set_default k v d) ≡ (str_eq k j || has_key j d)
has_key-set_default k j v d = ground (arith, lookup-set_default k j v d)

pub set_default-old :
    (k j v : String) (d : List (String × String))
    → has_key j d ≡ true
    → has_key j (set_default k v d) ≡ true
set_default-old k j v d h = ground (arith, has_key-set_default k j v d, h)

pub set_default-new :
    (k v : String) (d : List (String × String)) → has_key k (set_default k v d) ≡ true
set_default-new k v d = ground (arith, has_key-set_default k k v d, str_eq_iff k k)

module _ (key : String → String) (why : String) where
  pub keep_all-has_key :
      (j : String) (xs : List String) (d : List (String × String))
      → has_key j d ≡ true
      → has_key j (keep_all key why xs d) ≡ true
  keep_all-has_key j [] d h = h
  keep_all-has_key j (x ∷ xs) d h =
      keep_all-has_key j xs (set_default (key x) why d) (set_default-old (key x) j why d h)

  pub keep_all-All :
      (xs : List String) (d : List (String × String))
      → All (λ x. has_key (key x) (keep_all key why xs d) ≡ true) xs
  keep_all-All [] d = tt
  keep_all-All (x ∷ xs) d = (
    keep_all-has_key (key x) xs (set_default (key x) why d) (set_default-new (key x) why d),
    keep_all-All xs (set_default (key x) why d),
  )

pub or_left : (a b : Bool) → a ≡ true → (a || b) ≡ true
or_left a b h = ground (arith, h)

pub or_right : (a b : Bool) → b ≡ true → (a || b) ≡ true
or_right a b h = ground (arith, h)

abbrev pub is_some_problem : List String → Bool
is_some_problem [] = false
is_some_problem (_ ∷ _) = true

-- Nothing that is kept is given up.
pub record Grows (k l : Keepers) : Type 0 where
  pub repos : (j : String) → has_key j k.repos ≡ true → has_key j l.repos ≡ true
  pub stems : (j : String) → has_key j k.stems ≡ true → has_key j l.stems ≡ true
  pub lanes : (j : String) → has_key j k.lanes ≡ true → has_key j l.lanes ≡ true
  pub problems : is_some_problem k.problems ≡ true → is_some_problem l.problems ≡ true

pub Grows-refl : (k : Keepers) → Grows k k
Grows-refl k = record { repos = λ j h. h; stems = λ j h. h; lanes = λ j h. h; problems = λ h. h }

pub Grows-trans : {k l m : Keepers} → Grows k l → Grows l m → Grows k m
Grows-trans a b = record {
  repos = λ j h. b.repos j (a.repos j h);
  stems = λ j h. b.stems j (a.stems j h);
  lanes = λ j h. b.lanes j (a.lanes j h);
  problems = λ h. b.problems (a.problems h);
}
