-- ===== src/Screen/Fair.antt =====
-- What a screening verdict of harness/screen.py may be.
use localharness.Prelude.{
  ◌≡◌, refl, Bool, true, false, ◌&&◌, ◌||◌, not, is_none, Option, none, some, List, [], ◌∷◌, map,
  String, arith, str_eq, ℤ, All, Bool-cases, inl, inr, ltb,
}
use localharness.Reasons.{Class, classes, first, first_in, is_member}
use localharness.Screen.{Verdict, CaseRow, class_named, total_passed, classes_in}
use localharness.Screen.Outcome.{
  Machine, decide_class, outcome, class_verdict, or_failed, is_zero, rows_of, wrong_run,
  nothing_passed, mine,
}

-- What an outcome says of its reason: a candidate is blamed for breaking, the harness keeps it
-- queued, and a limit, a runtime or the machine declines it.
abbrev pub is_fair : String → String → Bool
is_fair outcome reason =
    str_eq outcome "queued" && str_eq reason "harness"
    || str_eq outcome "broken" && str_eq reason "candidate"
    || str_eq outcome "declined"
      && (str_eq reason "limit" || str_eq reason "runtime" || str_eq reason "machine")

abbrev pub is_class : String → Bool
is_class c = not (is_none (class_named classes c))

class_named-fair :
    (c : String) (ks : List Class)
    → All (λ k. (is_fair k.outcome k.reason && not (str_eq k.outcome "screened")) ≡ true) ks
    → not (is_none (class_named ks c)) ≡ true
    → (k : Class) × (class_named ks c ≡ some k)
      × ((is_fair k.outcome k.reason && not (str_eq k.outcome "screened")) ≡ true)
class_named-fair c [] all h = absurd cc
class_named-fair c (k ∷ ks) all h = elim (Bool-cases (str_eq k.name c)) [
  | inl e ↦ rw (e, class_named) (k, refl, all.0)
  | inr e ↦ rw (e, class_named) (class_named-fair c ks all.1 (ground (arith, h, e)))
]

first_in-is_class :
    (cs have : List String)
    → All (λ c. is_class c ≡ true) cs
    → is_class (or_failed (first_in cs have)) ≡ true
unfolding first_in
first_in-is_class [] have all = refl
first_in-is_class (c ∷ cs) have all = elim (Bool-cases (is_member c have)) [
  | inl e ↦ rw e (or_failed-is_class c all.0)
  | inr e ↦ rw e (first_in-is_class cs have all.1)
]
  where
    or_failed-is_class : (c : String) → is_class c ≡ true → is_class (or_failed c) ≡ true
    or_failed-is_class c h = elim (Bool-cases (str_eq c "")) [
      | inl e ↦ rw (e, or_failed) refl
      | inr e ↦ rw (e, or_failed) h
    ]

-- The precedence never picks a word that the table lacks.
first-is_class : (have : List String) → is_class (or_failed (first have)) ≡ true
unfolding first
first-is_class have = first_in-is_class (map (λ k. k.name) classes) have (
  refl,
  (
    refl,
    (refl, (refl, (refl, (refl, (refl, (refl, (refl, (refl, (refl, (refl, (refl, tt))))))))))),
  ),
)

found_class :
    (c : String)
    → is_class c ≡ true
    → (k : Class) × (class_named classes c ≡ some k)
      × ((is_fair k.outcome k.reason && not (str_eq k.outcome "screened")) ≡ true)
found_class c h =
    class_named-fair c classes
      (
        refl,
        (
          refl,
          (
            refl,
            (refl, (refl, (refl, (refl, (refl, (refl, (refl, (refl, (refl, (refl, tt)))))))))),
          ),
        ),
      )
      h

-- Whether the run shows that the candidate runs: its own receipt, a clean exit and a passed case.
abbrev pub shows_it_runs :
    (String → String) → ℤ → Option (List (String × CaseRow)) → String → String → Bool
shows_it_runs key_of returncode summary candidate key =
    str_eq (wrong_run key_of summary candidate key) ""
    && is_zero returncode
    && ltb 0 (total_passed (rows_of summary))

-- A verdict that is there, is screened as the second argument says, and is fair otherwise.
abbrev pub IsFair : Option Verdict → Bool → Type 0
IsFair got runs =
    (v : Verdict) × (got ≡ some v)
    × (str_eq v.outcome "screened" ≡ runs)
    × ((runs || is_fair v.outcome v.reason) ≡ true)

module _ (strip : String → String) (show : ℤ → String) (key_of : String → String) where
  class_verdict-IsFair :
      (k : Class) (why candidate : String) (limits : List String) (machine : Machine)
      → (is_fair k.outcome k.reason && not (str_eq k.outcome "screened")) ≡ true
      → IsFair (some (class_verdict strip show k why candidate limits machine)) false
  class_verdict-IsFair k why candidate limits machine fair =
      (_, refl, unscreened (is_fair k.outcome k.reason) _ fair, both _ _ fair)
    where
      unscreened : (a b : Bool) → (a && not b) ≡ true → b ≡ false
      unscreened a b h = ground (arith, h)

      both : (a b : Bool) → (a && not b) ≡ true → a ≡ true
      both a b h = ground (arith, h)

  decide_class-IsFair :
      (cls why candidate : String) (limits : List String) (machine : Machine)
      → is_class cls ≡ true
      → IsFair (decide_class strip show cls why candidate limits machine) false
  unfolding decide_class
  decide_class-IsFair cls why candidate limits machine h =
      let (k, found, fair) = found_class cls h in
      rw (found, decide_class) (class_verdict-IsFair k why candidate limits machine fair)

  nothing_passed-IsFair :
      (summary : Option (List (String × CaseRow))) (candidate key : String) (machine : Machine)
      → IsFair (nothing_passed strip show key_of summary candidate key machine) false
  nothing_passed-IsFair summary candidate key machine =
      decide_class-IsFair _ _ candidate _ machine
        (first-is_class (classes_in (mine key_of summary candidate key)))

  -- A run that exits with no rows at all has crashed.
  no_rows-IsFair :
      (returncode : ℤ) (summary : Option (List (String × CaseRow))) (candidate key : String)
      (machine : Machine)
      → rows_of summary ≡ []
      → IsFair
          (outcome strip show key_of returncode summary candidate key "" machine)
          (shows_it_runs key_of returncode summary candidate key)
  unfolding outcome wrong_run
  no_rows-IsFair returncode none candidate key machine e = elim (Bool-cases (is_zero returncode)) [
    | inl z ↦ rw z (_, refl, refl, refl)
    | inr z ↦ rw z (_, refl, refl, refl)
  ]
  no_rows-IsFair returncode (some []) candidate key machine e =
      elim (Bool-cases (is_zero returncode)) [
        | inl z ↦ rw z (_, refl, refl, refl)
        | inr z ↦ rw z (_, refl, refl, refl)
      ]
  no_rows-IsFair returncode (some (r ∷ rs)) candidate key machine e = absurd cc

  never : (a b : Bool) → (a && b && false) ≡ false
  never a b = ground arith

  only_class : (b : Bool) {a : Bool} → a ≡ false → (a || b) ≡ true → b ≡ true
  only_class b e h = ground (arith, e, h)

  -- Where the class of stderr is blank or a class of the table, a screening run always has a verdict.
  -- It is screened exactly when the receipt is not another candidate's, the exit was clean and a case
  -- passed; otherwise a fault of the harness keeps it queued, a limit, a runtime gap or the machine
  -- declines it, and it is broken only where the candidate is the reason.
  pub outcome_lem :
      (returncode : ℤ) (summary : Option (List (String × CaseRow)))
      (candidate key stderr_class : String) (machine : Machine)
      → (str_eq stderr_class "" || is_class stderr_class) ≡ true
      → IsFair
          (outcome strip show key_of returncode summary candidate key stderr_class machine)
          (shows_it_runs key_of returncode summary candidate key)
  unfolding outcome
  outcome_lem returncode none candidate key stderr_class machine named =
      elim (Bool-cases (str_eq stderr_class "")) [
        | inr e ↦
            rw (e, never (str_eq (wrong_run key_of none candidate key) "") (is_zero returncode))
              (decide_class-IsFair stderr_class "" candidate [] machine (only_class _ e named))
        | inl e ↦ rw e (no_rows-IsFair returncode none candidate key machine refl)
      ]
  outcome_lem returncode (some []) candidate key stderr_class machine named =
      no_rows-IsFair returncode (some []) candidate key machine refl
  outcome_lem returncode (some (r ∷ rs)) candidate key stderr_class machine named =
      elim (Bool-cases (str_eq (wrong_run key_of (some (r ∷ rs)) candidate key) "")) [
        | inr e ↦ rw e (_, refl, refl, refl)
        | inl e ↦ elim (Bool-cases (is_zero returncode)) [
          | inr z ↦ rw (e, z) (_, refl, refl, refl)
          | inl z ↦ elim (Bool-cases (ltb 0 (total_passed (r ∷ rs)))) [
            | inr p ↦ rw (e, z, p) (nothing_passed-IsFair (some (r ∷ rs)) candidate key machine)
            | inl p ↦ rw (e, z, p) (_, refl, refl, refl)
          ]
        ]
      ]
