-- ===== src/Memory/Guard.antt =====
-- The guard of harness/memory.py.
use localharness.Prelude.{
  ℕ, ◌+◌, ◌≤◌, min, ◌≡◌, inl, inr, Bool, true, false, Option, none, some, arith, leb, leb→le, ltb,
  if◌then◌else◌, Bool-cases,
}
use localharness.Memory.{
  Facts, fitted, scaled, judged, checked_from, streamed, with_peak, check_model, fits,
}

-- What the weights and a measured peak need together with all that must stay free.
abbrev pub Leaves : ℕ → ℕ → ℕ → Option ℕ → Type 0
Leaves room resident reserve none = Unit
Leaves room resident reserve (some need) = need + reserve + resident ≤ room

-- The same below both the memory available and the ceiling.
abbrev pub LeavesBoth : ℕ → ℕ → ℕ → ℕ → Option ℕ → Type 0
LeavesBoth available ceiling resident reserve need =
    Leaves available resident reserve need × Leaves ceiling resident reserve need

module _ (f : Facts) (available ceiling resident reserve : ℕ) where
  room :
      (n : ℕ)
      → judged available ceiling resident reserve (some n) ≡ fitted
      → LeavesBoth available ceiling resident reserve (some n)
  unfolding fits
  room n e = elim (Bool-cases (leb (n + reserve + resident) (min available ceiling))) [
    | inl c ↦ let le = leb→le _ _ c in (omega (arith, le), omega (arith, le))
    | inr c ↦ absurd (let d = rw c at e in cc)
  ]

  judged-Leaves :
      (peak need : Option ℕ)
      → judged available ceiling resident reserve (with_peak peak need) ≡ fitted
      → LeavesBoth available ceiling resident reserve peak
        × LeavesBoth available ceiling resident reserve need
  judged-Leaves none none e = cc
  judged-Leaves none (some n) e = ((tt, tt), room n e)
  judged-Leaves (some p) none e = (room p e, (tt, tt))
  judged-Leaves (some p) (some n) e = elim (Bool-cases (ltb n p)) [
    | inl c ↦ let both = room p (rw c at e) in (both, ground (arith, both))
    | inr c ↦ let both = room n (rw c at e) in (ground (arith, both), both)
  ]

  checked_from-Leaves :
      (s : Option ℕ)
      → checked_from f available ceiling resident reserve (streamed f s) ≡ fitted
      → LeavesBoth available ceiling resident reserve f.peak
        × (f.is_ds4 ≡ false → LeavesBoth available ceiling resident reserve s)
  checked_from-Leaves none e = let got = judged-Leaves f.peak none e in (got.0, λ d. got.1)
  checked_from-Leaves (some n) e = go f.is_ds4 f.ds4_resident e
    where
      go :
          (b : Bool) (r : Option ℕ)
          → checked_from f available ceiling resident reserve
              (if b then elim r [ none ↦ none | some r ↦ some (some r) ] else some (some n))
            ≡ fitted
          → LeavesBoth available ceiling resident reserve f.peak
            × (b ≡ false → LeavesBoth available ceiling resident reserve (some n))
      go true none e = absurd (cc e)
      go true (some r) e = ((judged-Leaves f.peak (some r) e).0, λ d. cc)
      go false r e = let got = judged-Leaves f.peak (some n) e in (got.0, λ d. got.1)

-- A model that the guard says fits leaves its reserve and what is resident free, of the memory
-- available and of the accelerator's ceiling alike, also by its measured peak; outside ds4 the same
-- holds of its size on disk, scaled to the width it is loaded at.
pub check_model_lem :
    (f : Facts) (available ceiling resident reserve : ℕ)
    → check_model f available ceiling resident reserve ≡ fitted
    → LeavesBoth available ceiling resident reserve f.peak
      × (f.is_ds4 ≡ false
          → LeavesBoth available ceiling resident reserve (scaled f.on_disk f.quantize))
unfolding check_model
check_model_lem f available ceiling resident reserve e =
    checked_from-Leaves f available ceiling resident reserve (scaled f.on_disk f.quantize) e
