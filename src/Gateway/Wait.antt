-- ===== src/Gateway/Wait.antt =====
-- The wait of harness/gateway_switch.py for a quiet gateway.
use native.Mathlib.Decide.{dec_lt}
use localharness.Prelude.{
  ℕ, zero, suc, ◌+◌, ◌≤◌, ◌<◌, ◌≡◌, ◌⊎◌, inl, inr, refl, sym, ap, true, false, Option, none, some,
  arith, leb, leb→le, if◌then◌else◌, Bool-cases,
}
use localharness.Gateway.{
  Reply, in_flight, idle, forced, Got, is_quiet, quiet_from, stopped, wait_from, wait_then_restart,
}

same_round : (i : ℕ) → suc i ≡ suc (i + 0)
same_round i = omega arith

plain : (m : ℕ) → 0 + m ≡ m
plain m = omega arith

shifted : (i j : ℕ) → i + suc j ≡ suc i + j
shifted i j = omega arith

module _ (clock : ℕ → ℕ) (reply : ℕ → Reply) (idle_s max_wait_s : ℕ) where
  -- Every answer from round q to round i said that nothing was in flight.
  abbrev pub AllQuiet : ℕ → ℕ → Type 0
  AllQuiet q i = (j : ℕ) → q ≤ j → j ≤ i → is_quiet (in_flight (reply j)) ≡ true

  -- What a restart waited for: a long enough quiet stretch up to it, or the longest wait.
  abbrev pub Earned : Got → Type 0
  Earned got =
      (got.how ≡ idle)
        × ((q : ℕ) × (q ≤ got.round)
            × (clock (suc q) + idle_s ≤ clock (suc got.round))
            × AllQuiet q got.round)
      ⊎ ((got.how ≡ forced) × (clock 0 + max_wait_s ≤ clock (suc got.round)))

  -- `quiet_since` at the head of round i is the time of the round a quiet stretch up to here began.
  abbrev IsSince : ℕ → Option ℕ → Type 0
  IsSince i none = Unit
  IsSince i (some t) =
      (q : ℕ) × (q < i)
      × (t ≡ clock (suc q))
      × ((j : ℕ) → q ≤ j → j < i → is_quiet (in_flight (reply j)) ≡ true)

  -- The stretch that is under way when round i was quiet too.
  stretch :
      (i : ℕ) (since : Option ℕ)
      → IsSince i since
      → is_quiet (in_flight (reply i)) ≡ true
      → (q : ℕ) × (q ≤ i) × (quiet_from (clock (suc i)) since ≡ clock (suc q)) × AllQuiet q i
  stretch i none h e = (i, omega arith, refl, λ j a b. let k : i ≡ j = omega arith in rw (sym k) e)
  stretch i (some t) (q, lt, at, all) e = (
    q,
    omega arith,
    at,
    λ j a b. elim (dec_lt j i) [
      | yes c ↦ all j a c
      | no c ↦ let k : i ≡ j = omega arith in rw (sym k) e
    ],
  )

  abbrev Returns : ℕ → Option Got → Type 0
  Returns last result = (got : Got) × (result ≡ some got) × (got.round ≤ last) × Earned got

  abbrev IsLate : ℕ → Type 0
  IsLate i = clock 0 + max_wait_s ≤ clock (suc i)

  -- A round that has not been quiet for long enough is the last one, or the next rounds decide.
  forced_or_on :
      (i k : ℕ) (rest : Option Got)
      → IsLate (i + k)
      → ((j : ℕ) → k ≡ suc j → Returns (i + k) rest)
      → Returns (i + k) (
          if leb (clock 0 + max_wait_s) (clock (suc i))
          then some (stopped clock reply idle_s max_wait_s forced i)
          else rest)
  forced_or_on i k rest late on = elim (Bool-cases (leb (clock 0 + max_wait_s) (clock (suc i)))) [
    | inl c ↦ rw c (_, refl, omega arith, inr (refl, leb→le _ _ c))
    | inr c ↦ rw c (more k late on c)
  ]
    where
      more :
          (k : ℕ)
          → IsLate (i + k)
          → ((j : ℕ) → k ≡ suc j → Returns (i + k) rest)
          → leb (clock 0 + max_wait_s) (clock (suc i)) ≡ false
          → Returns (i + k) rest
      more zero late on c = absurd (ground (arith, ap clock (same_round i)))
      more (suc k) late on c = on k refl

  wait_from_lem :
      (fuel i : ℕ) (since : Option ℕ) (k : ℕ)
      → IsSince i since
      → k < fuel
      → IsLate (i + k)
      → Returns (i + k) (wait_from clock reply idle_s max_wait_s fuel i since)
  unfolding wait_from
  wait_from_lem zero i since k h lt late = absurd (omega arith)
  wait_from_lem (suc fuel) i since k h lt late =
      elim (Bool-cases (is_quiet (in_flight (reply i)))) [
        | inl e ↦
            let begun = stretch i since h e in
            elim (Bool-cases (leb (quiet_from (clock (suc i)) since + idle_s) (clock (suc i)))) [
              | inl c ↦
                  rw (e, c)
                    (
                      _,
                      refl,
                      omega arith,
                      inl (refl, (begun.0, begun.1, omega (arith, leb→le _ _ c, begun.2), begun.3)),
                    )
              | inr c ↦
                  rw (e, c)
                    (forced_or_on i k _ late (λ j eq.
                      rw (eq, shifted i j)
                        (wait_from_lem fuel (suc i) (some (quiet_from (clock (suc i)) since)) j
                          (begun.0, omega arith, begun.2, λ a b d. begun.3 a b (omega arith))
                          (omega arith) (rw (sym (shifted i j), sym eq) late))))
            ]
        | inr e ↦ rw e (
            forced_or_on i k _ late (λ j eq.
              rw (eq, shifted i j)
                (wait_from_lem fuel (suc i) none j tt (omega arith)
                  (rw (sym (shifted i j), sym eq) late))))
      ]

  -- Where some round comes after the longest wait, the wait returns by that round, and it returns
  -- `idle` only after a stretch of quiet answers of the required length and `forced` only after
  -- the longest wait.
  pub wait_then_restart_lem :
      (m fuel : ℕ)
      → m < fuel
      → clock 0 + max_wait_s ≤ clock (suc m)
      → (got : Got) × (wait_then_restart clock reply idle_s max_wait_s fuel ≡ some got)
        × (got.round ≤ m)
        × Earned got
  unfolding wait_then_restart
  wait_then_restart_lem m fuel lt late =
      let got = wait_from_lem fuel 0 none m tt lt (rw (plain m) late) in
      (got.0, got.1, omega (arith, got.2), got.3)
