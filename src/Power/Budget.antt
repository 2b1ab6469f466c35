-- ===== src/Power/Budget.antt =====
-- The budget of harness/power.py.
use localharness.Prelude.{
  ℕ, zero, suc, ◌*◌, ◌/◌, ◌≤◌, min, max, ◌≡◌, ◌⊎◌, inl, inr, refl, true, false, some, arith, leb,
  leb→le, Bool-cases,
}
use native.Mathlib.Nat.{div-mul-le_self, mul-le-mul_right}
use localharness.Power.{Plan, fallback_repeat, projected_seconds, repeat_within}

cost-le :
    (cases s r q budget_s : ℕ)
    → r ≤ q
    → q * (cases * 1 * 2 * s) ≤ budget_s
    → cases * r * 2 * s ≤ budget_s
cost-le cases s r q budget_s le fit =
    let one = mul-le-mul_right (cases * 1 * 2 * s) le in
    let same : cases * r * 2 * s ≡ r * (cases * 1 * 2 * s) = grind arith in
    omega (arith, one, fit, same)

-- In a stochastic lane whose seconds per case are known, a repeat that was not asked for fits the
-- budget or is a single one, and is at most the planned repeat.
pub repeat_within_lem :
    (chosen : Plan) (cases s budget_s : ℕ)
    → chosen.stochastic ≡ true
    → 1 ≤ chosen.repeat
    → let r = repeat_within false chosen cases (some s) budget_s in
      (r ≤ chosen.repeat) × ((projected_seconds cases r s ≤ budget_s) ⊎ (r ≡ 1))
unfolding repeat_within projected_seconds
repeat_within_lem chosen cases s budget_s st one =
    rw st (elim (Bool-cases (leb (cases * chosen.repeat * 2 * s) budget_s)) [
      | inl e ↦ rw e (omega arith, inl (leb→le _ _ e))
      | inr e ↦ rw e (omega arith, fits (budget_s / projected_seconds cases 1 s) refl)
    ])
  where
    fits :
        (q : ℕ)
        → q ≡ budget_s / projected_seconds cases 1 s
        → let r = max 1 (min fallback_repeat (min chosen.repeat q)) in
          (cases * r * 2 * s ≤ budget_s) ⊎ (r ≡ 1)
    fits zero e = inr (omega arith)
    fits (suc q) e =
        let r = max 1 (min fallback_repeat (min chosen.repeat (suc q))) in
        inl (
          cost-le cases s r (suc q) budget_s (omega arith)
            (rw e (div-mul-le_self budget_s (projected_seconds cases 1 s))))
