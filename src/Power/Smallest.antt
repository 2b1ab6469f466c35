-- ===== src/Power/Smallest.antt =====
-- The plan of harness/power.py takes the smallest repeat that reaches the target.
use native.Mathlib.Decide.{dec_lt}
use mathlib.Core.Path.{subst}
use localharness.Prelude.{
  ℕ, zero, suc, ◌+◌, ◌-◌, ◌≤◌, ◌<◌, ◌≡◌, ◌⊎◌, inl, inr, refl, sym, Bool, true, false, ◌&&◌, Option,
  none, some, arith, ltb, leb, ◌==◌, if◌then◌else◌, Bool-cases,
}
use localharness.Power.{
  first_from, any_from, best_from, cases_needed, max_cases, on_plateau, Plan, plateau_at,
  short_plan, found_plan, plan, enough,
}

-- What a search over the numbers from r up to r + n has found.
abbrev pub IsFirst : (ℕ → Bool) → ℕ → ℕ → Option ℕ → Type 0
IsFirst test n r none = (j : ℕ) → r ≤ j → j < r + n → test j ≡ false
IsFirst test n r (some k) =
    (r ≤ k) × (k < r + n) × (test k ≡ true) × ((j : ℕ) → r ≤ j → j < k → test j ≡ false)

at_or_after :
    (test : ℕ → Bool) (r j : ℕ)
    → r ≤ j
    → test r ≡ false
    → (suc r ≤ j → test j ≡ false)
    → test j ≡ false
at_or_after test r j le e on = elim (dec_lt r j) [
  | yes lt ↦ on (omega arith)
  | no ne ↦ let same : r ≡ j = omega arith in rw (sym same) e
]

wider :
    (test : ℕ → Bool) (n r : ℕ) (o : Option ℕ)
    → test r ≡ false
    → IsFirst test n (suc r) o
    → IsFirst test (suc n) r o
wider test n r none e h = λ j le lt. at_or_after test r j le e (λ s. h j s (omega arith))
wider test n r (some k) e h =
    (omega arith, omega arith, h.2, λ j le lt. at_or_after test r j le e (λ s. h.3 j s lt))

first_from-IsFirst : (test : ℕ → Bool) (n r : ℕ) → IsFirst test n r (first_from test n r)
unfolding first_from
first_from-IsFirst test zero r = λ j le lt. absurd (omega arith)
first_from-IsFirst test (suc n) r = elim (Bool-cases (test r)) [
  | inl e ↦ rw e (omega arith, omega arith, e, λ j le lt. absurd (omega arith))
  | inr e ↦ rw e (wider test n r (first_from test n (suc r)) e (first_from-IsFirst test n (suc r)))
]

-- Where the incumbent leaves something to gain, the number of cases that is said to be needed is at
-- least today's, at most 2000, reaches the target at a repeat that the lane may take, and is the
-- smallest such number.
pub cases_needed_lem :
    (reaches : ℕ → ℕ → Bool) (stochastic : Bool) (cap cases k : ℕ)
    → cases_needed true reaches stochastic cap cases ≡ some k
    → let works : ℕ → Bool = λ i. any_from (reaches i) (if stochastic then cap else 1) 1 in
      (cases ≤ k)
      × (k ≤ max_cases)
      × (works k ≡ true)
      × ((j : ℕ) → cases ≤ j → j < k → works j ≡ false)
unfolding cases_needed
cases_needed_lem reaches stochastic cap cases k e = elim (Bool-cases (cases == 0)) [
  | inl z ↦ absurd (ground arith)
  | inr z ↦
      let works : ℕ → Bool = λ i. any_from (reaches i) (if stochastic then cap else 1) 1 in
      let found = first_from-IsFirst works (suc max_cases - cases) cases in
      let got = subst (IsFirst works (suc max_cases - cases) cases) (rw z at e) found in
      (got.0, omega (arith, got.1), got.2, got.3)
]

module _ (power : ℕ → ℕ) (target cap : ℕ) where
  abbrev pub Below : ℕ → Type 0
  Below n = (j : ℕ) → 1 ≤ j → j < n → leb target (power j) ≡ false

  -- What a plan that chooses its own repeat says.
  abbrev pub IsPlanned : Plan → Type 0
  IsPlanned p =
      (1 ≤ p.repeat)
      × (p.repeat ≤ cap)
      × (p.power ≡ power p.repeat)
      × ((enough p ≡ true) × Below p.repeat ⊎ (enough p ≡ false) × Below (suc cap))

  plateau-bounds :
      (test : ℕ → Bool) (measured : Bool)
      → 1 ≤ cap
      → let r = plateau_at power target cap measured (first_from test cap 1) in (1 ≤ r) × (r ≤ cap)
  plateau-bounds test measured one = go (first_from test cap 1) (first_from-IsFirst test cap 1)
    where
      go :
          (o : Option ℕ)
          → IsFirst test cap 1 o
          → let r = plateau_at power target cap measured o in (1 ≤ r) × (r ≤ cap)
      go none h = (one, omega arith)
      go (some r) h = elim (Bool-cases measured) [
        | inl e ↦ rw e (h.0, omega (arith, h.1))
        | inr e ↦ rw e (omega (arith, h.0), omega (arith, h.1))
      ]

  short-IsPlanned :
      (measured correlated_ : Bool)
      → 1 ≤ cap
      → Below (suc cap)
      → IsPlanned (short_plan power target cap measured correlated_)
  unfolding short_plan
  short-IsPlanned measured correlated_ one below =
      let best = best_from power cap 1 in
      let test : ℕ → Bool = λ i. on_plateau best (power i) in
      let r = plateau_at power target cap measured (first_from test cap 1) in
      let bounds = plateau-bounds test measured one in
      elim (Bool-cases (ltb r cap && correlated_)) [
        | inl e ↦
            rw e (bounds.0, bounds.1, refl, inr (below r bounds.0 (omega (arith, bounds.1)), below))
        | inr e ↦ rw e (one, omega arith, refl, inr (below cap one (omega arith), below))
      ]

  -- With a cap of at least one, a stochastic lane's plan takes a repeat from 1 to the cap: the smallest that reaches the
  -- target, or, where the plan says it falls short, none up to the cap reaches it.
  pub plan_lem :
      (measured correlated_ : Bool)
      → 1 ≤ cap
      → IsPlanned (plan power target cap true 0 measured correlated_)
  unfolding plan
  plan_lem measured correlated_ one =
      go (first_from (λ r. leb target (power r)) cap 1)
        (first_from-IsFirst (λ r. leb target (power r)) cap 1)
    where
      go :
          (o : Option ℕ)
          → IsFirst (λ r. leb target (power r)) cap 1 o
          → IsPlanned (found_plan power target cap measured correlated_ o)
      go none h = short-IsPlanned measured correlated_ one (λ j le lt. h j le (omega arith))
      go (some r) h = (h.0, omega (arith, h.1), refl, inl (h.2, h.3))
