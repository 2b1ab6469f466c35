-- ===== src/Paired/Test.antt =====
-- The exact sign test of harness/paired.py.
use native.Mathlib.Decide.{dec_le}
use localharness.Prelude.{ℕ, zero, suc, ◌-◌, ◌*◌, ◌^◌, ◌≤◌, ◌<◌, min, ◌≡◌, ◌≢◌, ◌↔◌, true, arith}
use localharness.Paired.{
  ratio_leb, alpha, comb, tail, sign_test, Cell, discordant, cell_p, verdict, differs,
}

-- A p-value lies between 0 and 1.
pub sign_test-le_one : (k n : ℕ) → ((sign_test k n).num ≤ (sign_test k n).den)
unfolding sign_test
sign_test-le_one k n = ground arith

-- The p-value of k lost cells of n is that of n - k, for k up to n: the test is two-sided.
pub sign_test_symm : (k n : ℕ) → k ≤ n → sign_test k n ≡ sign_test (n - k) n
unfolding sign_test
sign_test_symm k n h = rw ap_min
  where
    ap_min : min k (n - k) ≡ min (n - k) (n - (n - k))
    ap_min = omega arith

tail-pos : (n k : ℕ) → 1 ≤ tail n k
unfolding tail comb
tail-pos n zero = omega arith
tail-pos n (suc k) = omega (arith, tail-pos n k)

tail-step : (n k : ℕ) → tail n k ≤ tail n (suc k)
unfolding tail
tail-step n k = omega arith

pub tail_mono : (n k j : ℕ) → k ≤ j → tail n k ≤ tail n j
tail_mono n k zero h = ground arith
tail_mono n k (suc j) h = elim (dec_le k j) [
  | yes p ↦ omega (arith, tail_mono n k j p, tail-step n j)
  | no p ↦ let e : k ≡ suc j = omega arith in rw e (omega arith)
]

-- The test rejects exactly when forty times the tail is within the number of outcomes.
pub significant_iff :
    (k n : ℕ)
    → n ≢ 0
    → (ratio_leb (sign_test k n) alpha ≡ true) ↔ (40 * tail n (min k (n - k)) ≤ 2 ^ n)
unfolding sign_test
significant_iff k n ne = (
  λ h. ground (arith, tail-pos n (min k (n - k))),
  λ h. ground (arith, tail-pos n (min k (n - k))),
)

pow_small : (n : ℕ) → n < 6 → 2 ^ n ≤ 32
pow_small zero h = omega arith
pow_small (suc zero) h = omega arith
pow_small (suc (suc zero)) h = omega arith
pow_small (suc (suc (suc zero))) h = omega arith
pow_small (suc (suc (suc (suc zero)))) h = omega arith
pow_small (suc (suc (suc (suc (suc zero))))) h = omega arith
pow_small (suc (suc (suc (suc (suc (suc n)))))) h = absurd (omega arith)

-- A test that rejects counts at least six cells.
pub significant-six : (k n : ℕ) → ratio_leb (sign_test k n) alpha ≡ true → 6 ≤ n
unfolding sign_test
significant-six k n h = ground (arith, significant_iff k n, pow_small n, tail-pos n (min k (n - k)))

-- A comparison whose verdict is `differs` has at least six discordant cells.
pub differs-six : (c : Cell) → verdict c ≡ differs → 6 ≤ discordant c
unfolding verdict cell_p
differs-six c h = ground (arith, significant-six (min c.lost c.gained) (discordant c))
