-- ===== src/Served/Adopted.antt =====
-- An adoption that harness/adopt.py writes is the one that it reads back.
use localharness.Prelude.{
  ℕ, suc, ◌≤◌, ◌≡◌, refl, ap, ◌∙◌, Bool, true, false, ◌&&◌, ◌||◌, not, Option, none, some, List, [],
  ◌∷◌, ◌++◌, String, arith, str_eq_iff, is_none, Bool-cases, Option-cases, inl, inr, All,
}
use localharness.Prelude.Sort.{sorted}
use localharness.Table.{select, find_row, max_id}
use localharness.Dict.{lookup}
use localharness.Newest.{last_of, last_of-sorted-append}
use localharness.Served.{
  Adoption, Candidate, Joined, How, Store, older, joined, with_spec, is_visible, visible,
  is_reference, is_refused, resolve, current, new_adoption, add_adoption, insert_adoption,
  is_adopted, is_by_hand, is_one_of, fit, first_id,
}
use localharness.Served.Lane.{serves, first_some-none, lookup-resolve_rows}

select-append {ℓ} :
    {A : Type ℓ} (test : A → Bool) (xs ys : List A)
    → select test (xs ++ ys) ≡ select test xs ++ select test ys
select-append test [] ys = refl
select-append test (x ∷ xs) ys = ground (arith, select-append test xs ys)

All-select {ℓ} :
    {A : Type ℓ} (P : A → Type 0) (test : A → Bool) (xs : List A)
    → All P xs
    → All P (select test xs)
All-select P test [] h = tt
All-select P test (x ∷ xs) h = elim (Bool-cases (test x)) [
  | inl e ↦ rw e (h.0, All-select P test xs h.1)
  | inr e ↦ rw e (All-select P test xs h.1)
]

with_spec-append :
    (a : Adoption) (c : Option Candidate) (xs ys : List Joined)
    → with_spec a c (xs ++ ys) ≡ with_spec a c xs ++ ys
with_spec-append a none xs ys = refl
with_spec-append a (some c) xs ys = refl

joined-append :
    (candidates : List Candidate) (xs ys : List Adoption)
    → joined candidates (xs ++ ys) ≡ joined candidates xs ++ joined candidates ys
unfolding joined
joined-append candidates [] ys = refl
joined-append candidates (a ∷ rest) ys =
    let c = find_row (λ c. c.id) a.candidate_id candidates in
    ap (with_spec a c) (joined-append candidates rest ys)
    ∙ with_spec-append a c (joined candidates rest) (joined candidates ys)

-- No row of the table was made after a time, or has an id above a bound.
abbrev Past : ℕ → ℕ → Adoption → Type 0
Past now last a = (a.adopted_at ≤ now) × (a.id ≤ last)

All-joined :
    (P : Adoption → Type 0) (candidates : List Candidate) (rows : List Adoption)
    → All P rows
    → All (λ j. P j.row) (joined candidates rows)
unfolding joined
All-joined P candidates [] h = tt
All-joined P candidates (a ∷ rest) h =
    elim (Option-cases (find_row (λ c. c.id) a.candidate_id candidates)) [
      | inl e ↦ rw e (All-joined P candidates rest h.1)
      | inr (c, e) ↦ rw e (h.0, All-joined P candidates rest h.1)
    ]

max_id-Past :
    (now : ℕ) (rows : List Adoption)
    → All (λ a. a.adopted_at ≤ now) rows
    → (last : ℕ) → max_id (λ a. a.id) rows ≤ last
    → All (Past now last) rows
unfolding max_id
max_id-Past now [] h last m = tt
max_id-Past now (a ∷ rows) h last m =
    ((h.0, omega arith), max_id-Past now rows h.1 last (omega arith))

Past-older :
    (now last : ℕ) (new : Joined) (js : List Joined)
    → new.row.adopted_at ≡ now
    → new.row.id ≡ suc last
    → All (λ j. Past now last j.row) js
    → All (λ j. older new j ≡ false) js
Past-older now last new [] at id h = tt
Past-older now last new (j ∷ js) at id h =
    (ground (arith, h.0), Past-older now last new js at id h.1)

module _ (s : Store) (ids : List ℕ) (a : Adoption) (c : Candidate)
    (found : find_row (λ c. c.id) a.candidate_id s.candidates ≡ some c)
    (seen : is_visible ids (record { row = a; spec = c.spec }) ≡ true) where
  visible-add_adoption :
      visible (add_adoption a s) ids ≡ visible s ids ++ record { row = a; spec = c.spec } ∷ []
  unfolding joined
  visible-add_adoption =
      ap (select (is_visible ids)) (joined-append s.candidates s.adoptions (a ∷ []))
      ∙ select-append (is_visible ids) (joined s.candidates s.adoptions)
          (joined s.candidates (a ∷ []))
      ∙ ap (λ js. visible s ids ++ js) (rw (found, seen) refl)

  -- What the loop leaves for the lane of a row that is after all others and that it does not refuse.
  current-add_adoption :
      (now last : ℕ)
      → a.adopted_at ≡ now
      → a.id ≡ suc last
      → All (Past now last) s.adoptions
      → is_reference c.spec ≡ false
      → is_refused (add_adoption a s) ids (record { row = a; spec = c.spec }) ≡ false
      → lookup a.lane (current (add_adoption a s) ids) ≡ some (record { row = a; spec = c.spec })
  unfolding resolve lookup
  current-add_adoption now last at id past own kept =
      let j : Joined = record { row = a; spec = c.spec } in
      let s' = add_adoption a s in
      let test = serves s' ids a.lane in
      let behind : All (λ x. older j x ≡ false) (visible s ids) =
        Past-older now last j (visible s ids) at id (
          All-select (λ x. Past now last x.row) (is_visible ids) (joined s.candidates s.adoptions)
            (All-joined (Past now last) s.candidates s.adoptions past)) in
      let served : test j ≡ true = ground (arith, str_eq_iff a.lane a.lane) in
      lookup-resolve_rows s' ids a.lane (sorted older (visible s' ids)) ([], [])
      ∙ first_some-none (last_of test (sorted older (visible s' ids)))
      ∙ ap (λ js. last_of test (sorted older js)) visible-add_adoption
      ∙ last_of-sorted-append older test j (visible s ids) behind served

-- Where no stored adoption has the verdict of the one that is written, and it is no reference
-- model's, is measured or fits, and is made here, for all machines or by no machine, and the clock
-- has not gone back behind the table's rows, the lane then serves it.
pub adopted_lem :
    (s : Store) (ids : List ℕ) (lane : String) (candidate_id : ℕ) (c : Candidate)
    (machine_id : Option ℕ) (how : How) (all_machines : Bool) (now vid : ℕ)
    → All (λ a. a.adopted_at ≤ now) s.adoptions
    → is_adopted (some vid) s.adoptions ≡ false
    → find_row (λ c. c.id) candidate_id s.candidates ≡ some c
    → is_reference c.spec ≡ false
    → (is_by_hand how && not (fit s candidate_id (first_id ids)).ok) ≡ false
    → (all_machines || (is_none machine_id || is_one_of machine_id ids)) ≡ true
    → let new : Adoption =
        new_adoption lane candidate_id machine_id how all_machines now vid s.adoptions in
      lookup lane (current (insert_adoption new s) ids) ≡ some (record { row = new; spec = c.spec })
unfolding fit max_id
adopted_lem s ids lane candidate_id c machine_id how all_machines now vid past fresh found own kept
      seen =
    let new : Adoption =
      new_adoption lane candidate_id machine_id how all_machines now vid s.adoptions in
    let last = max_id (λ a. a.id) s.adoptions in
    rw fresh (
      current-add_adoption s ids new c found seen now last refl refl
        (max_id-Past now s.adoptions past last (omega arith)) own kept)
