-- ===== src/Ramp/Bounds.antt =====
-- What the ramp of harness/ramp.py may hold, and where it stops.
use localharness.Prelude.{
  ℕ, zero, suc, ◌+◌, ◌*◌, ◌≤◌, ◌<◌, ◌≡◌, refl, Bool, Option, none, some, is_none, length, String,
  arith, leb, leb→le, Bool-cases, inl, inr,
}
use localharness.Table.{select}
use localharness.Ramp.{
  Sample, Why, stop, cap, Step, Report, run_from, run, last_normal, after_step, after_allocate,
}

module _ (step_gb cap_gb floor_pct : ℕ) (allocate : ℕ → Option String) (base : Sample)
    (sample : ℕ → Sample) where
  abbrev pub is_normal : Step → Bool
  is_normal s = is_none (stop s.now base floor_pct)

  -- What a report says of a loop that began with `held`.
  abbrev Fits : ℕ → Report → Type 0
  Fits held r =
      (r.held ≤ cap_gb)
      × (r.held ≡ held + length r.steps * step_gb)
      × (last_normal step_gb r ≡ held + length (select is_normal r.steps) * step_gb)
      × (r.stopped ≡ cap → cap_gb < r.held + step_gb)

  abbrev Reports : ℕ → Option Report → Type 0
  Reports held result = (r : Report) × (result ≡ some r) × Fits held r

  after :
      (held : ℕ) (now : Sample) (o : Option Why) (rest : Option Report)
      → stop now base floor_pct ≡ o
      → held + step_gb ≤ cap_gb
      → Reports (held + step_gb) rest
      → Reports held (
          after_step step_gb cap_gb floor_pct allocate base sample
            (held + step_gb)
            (record { gb = held + step_gb; now = now })
            o
            rest)
  unfolding last_normal
  after held now none rest e le (r, eq, ih) =
      rw eq (_, refl, (ih.0, ground (arith, ih.1), rw e (ground (arith, ih.2)), ih.3))
  after held now (some why) rest e le ih =
      (_, refl, (le, ground arith, rw e (omega arith), λ h. cc))

  step_on :
      (i held : ℕ) (o : Option String) (rest : Option Report)
      → held + step_gb ≤ cap_gb
      → held ≤ cap_gb
      → Reports (held + step_gb) rest
      → Reports held (after_allocate step_gb cap_gb floor_pct allocate base sample i held o rest)
  unfolding last_normal
  step_on i held (some failure) rest le hle ih = (_, refl, (hle, omega arith, omega arith, λ h. cc))
  step_on i held none rest le hle ih = after held (sample i) _ rest refl le ih

  run_from_lem :
      (fuel i held : ℕ)
      → 1 ≤ step_gb
      → cap_gb < held + fuel
      → held ≤ cap_gb
      → Reports held (run_from step_gb cap_gb floor_pct allocate base sample fuel i held)
  unfolding run_from last_normal
  run_from_lem zero i held one lt le = absurd (omega arith)
  run_from_lem (suc fuel) i held one lt le = elim (Bool-cases (leb (held + step_gb) cap_gb)) [
    | inl c ↦ rw c (
        step_on i held (allocate i) _ (leb→le _ _ c) le
          (run_from_lem fuel (suc i) (held + step_gb) one (omega arith) (leb→le _ _ c)))
    | inr c ↦ rw c (_, refl, (le, omega arith, omega arith, λ h. ground arith))
  ]

  -- Where a step is at least one unit, the ramp returns. It never holds more than its cap, it holds
  -- its steps, its last normal size counts the samples that showed no pressure, and it stops at
  -- the cap only when another step would pass it.
  pub run_lem :
      (fuel : ℕ)
      → 1 ≤ step_gb
      → cap_gb < fuel
      → (r : Report) × (run step_gb cap_gb floor_pct allocate base sample fuel ≡ some r)
        × (r.held ≤ cap_gb)
        × (r.held ≡ length r.steps * step_gb)
        × (last_normal step_gb r ≡ length (select is_normal r.steps) * step_gb)
        × (r.stopped ≡ cap → cap_gb < r.held + step_gb)
  unfolding run
  run_lem fuel one lt =
      let got = run_from_lem fuel 0 0 one (omega arith) (omega arith) in
      (got.0, got.1, got.2.0, omega (arith, got.2.1), omega (arith, got.2.2), got.2.3)
