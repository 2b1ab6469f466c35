-- ===== src/Disk/Keep/Kept.antt =====
-- What `keepers` of harness/disk.py keeps is never deleted.
use mathlib.Core.Path.{subst}
use mathlib.Core.Option.{some-injective}
use localharness.Prelude.{
  ℕ, ◌≡◌, ◌≢◌, refl, true, false, ◌⊎◌, Option, none, some, is_none, List, [], ◌∷◌, String, arith,
  str_eq, str_eq_iff, All, get_elem?, zero, suc, Bool-cases, inl, inr,
}
use localharness.Lanes.{is_in}
use localharness.Disk.{Entry, Files, Group, safe_to_delete}
use localharness.Disk.Keep.{
  Python, Model, Owned, Weights, Keepers, Wanted, keepers, aliases_of, wanted_by, resolve,
}
use localharness.Disk.Keep.Grows.{has_key}
use localharness.Disk.Keep.Covered.{Covers, Accounts, keepers_lem}
use localharness.Disk.Keep.Classify.{
  Latest, or_why, first_kept, entry_stems, repo_kept, why_kept, classify_entry, with_group,
  decide_group,
}

-- The entry holds one of these weights: its repo, whatever its case, or a file of that stem.
abbrev pub Holds : Python → (String → String) → Entry → Weights → Type 0
Holds py name_of e w =
    ((r : String) × (is_in r w.repos ≡ true) × (e.repo ≢ "") × (py.lower e.repo ≡ py.lower r))
    ⊎ ((s : String) × (is_in s w.stems ≡ true) × (is_in s (entry_stems py name_of e) ≡ true))

All-is_in :
    (P : String → Type 0) (x : String) (xs : List String) → All P xs → is_in x xs ≡ true → P x
All-is_in P x [] all h = absurd cc
All-is_in P x (y ∷ ys) all h = elim (Bool-cases (str_eq x y)) [
  | inl e ↦ rw ((str_eq_iff x y).0 e) all.0
  | inr e ↦ All-is_in P x ys all.1 (ground (arith, h, e))
]

first_kept-some :
    (s : String) (d : List (String × String)) (ss : List String)
    → has_key s d ≡ true
    → is_in s ss ≡ true
    → is_none (first_kept d ss) ≡ false
first_kept-some s d [] k h = absurd cc
first_kept-some s d (t ∷ ts) k h = ground (arith, str_eq_iff s t, first_kept-some s d ts, k, h)

or_why-first : (a b : Option String) → is_none a ≡ false → is_none (or_why a b) ≡ false
or_why-first (some a) b h = refl
or_why-first none b h = absurd cc

or_why-second : (a b : Option String) → is_none b ≡ false → is_none (or_why a b) ≡ false
or_why-second (some a) b h = refl
or_why-second none b h = h

module _ (py : Python) (name_of : String → String) where
  repo_kept-some :
      (k : Keepers) (repo : String)
      → repo ≢ ""
      → has_key (py.lower repo) k.repos ≡ true
      → is_none (repo_kept py k repo) ≡ false
  repo_kept-some k repo some_ h = elim (Bool-cases (str_eq repo "")) [
    | inl e ↦ absurd (some_ ((str_eq_iff repo "").0 e))
    | inr e ↦ rw (e, repo_kept) (ground (arith, h))
  ]

  why_kept-Holds :
      (e : Entry) (k : Keepers) (rows : List Latest) (w : Weights)
      → Covers py k w
      → Holds py name_of e w
      → is_none (why_kept py name_of e k rows) ≡ false
  unfolding why_kept
  why_kept-Holds e k rows w (rs, ss) (inl (r, m, some_, same)) =
      or_why-first (repo_kept py k e.repo) _ (
        repo_kept-some k e.repo some_
          (rw same (All-is_in (λ r. has_key (py.lower r) k.repos ≡ true) r w.repos rs m)))
  why_kept-Holds e k rows w (rs, ss) (inr (s, m, n)) = or_why-second (repo_kept py k e.repo) _ (
      or_why-first (first_kept k.stems (entry_stems py name_of e)) _ (
        first_kept-some s k.stems (entry_stems py name_of e)
          (All-is_in (λ s. has_key s k.stems ≡ true) s w.stems ss m) n))

All-get_elem? :
    (P : Wanted → Type 0) (x : Wanted) (xs : List Wanted) (i : ℕ)
    → All P xs
    → get_elem? xs i ≡ some x
    → P x
All-get_elem? P x [] i all h = absurd cc
All-get_elem? P x (y ∷ ys) zero all h = subst P (some-injective _ _ h) all.0
All-get_elem? P x (y ∷ ys) (suc i) all h = All-get_elem? P x ys i all.1 h

module _ {F : Type 0} (os : Files F) (py : Python) where
  decided_group-refused :
      (f : F) (e : Entry) (last : Option Latest) (why : Option String) (now : ℕ) (wanted : Group)
      (roots : List String)
      → is_none why ≡ false
      → (safe_to_delete os f
          (with_group py e last (decide_group why e.unrecorded last))
          now
          wanted
          roots).0
        ≡ false
  unfolding safe_to_delete
  decided_group-refused f e last (some w) now wanted roots h = refl
  decided_group-refused f e last none now wanted roots h = absurd cc

  -- An entry that holds weights which a gateway alias, a typed default or an adopted winner resolves
  -- to is never safe to delete, once it is classified against `keepers` of those: whatever its
  -- verdicts say, whatever group is asked for, at any time.
  pub keepers-refused :
      (f : F) (files : List (String × List Model)) (owned : String → List Owned)
      (typed : List (String × String)) (adopted : List (String × List String)) (i : ℕ) (x : Wanted)
      (e : Entry) (rows : List Latest) (now : ℕ) (wanted : Group) (roots : List String)
      → let aliases = (aliases_of py files []).0 in
        get_elem? (wanted_by aliases typed adopted) i ≡ some x
        → Holds py os.name_of e (resolve py aliases owned x.spec)
        → (safe_to_delete os f
            (classify_entry py os.name_of e (keepers py files owned typed adopted) rows)
            now
            wanted
            roots).0
          ≡ false
  unfolding classify_entry
  keepers-refused f files owned typed adopted i x e rows now wanted roots there holds =
      let k = keepers py files owned typed adopted in
      let aliases = (aliases_of py files []).0 in
      decided_group-refused f e _ (why_kept py os.name_of e k rows) now wanted roots (
        why_kept-Holds py os.name_of e k rows (resolve py aliases owned x.spec)
          (All-get_elem? (λ x. Accounts py k x (resolve py aliases owned x.spec)) x
            (wanted_by aliases typed adopted) i (keepers_lem py files owned typed adopted).0
            there).0
          holds)
