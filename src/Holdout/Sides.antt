-- ===== src/Holdout/Sides.antt =====
-- The two sides of a split of harness/holdout.py.
use mathlib.Core.List.{Perm}
use mathlib.Core.List.Perm
use localharness.Prelude.{
  ℕ, ◌+◌, ◌≤◌, ◌≡◌, Bool, false, List, ◌++◌, map, String, arith, ltb, length, take, drop,
  length-take, length-drop, take-append-drop, Bool-cases, inl, inr,
}
use localharness.Prelude.Sort.{sorted-perm, length-sorted}
use localharness.Holdout.{min_holdout, min_dev, Split, drawn_before, drawn_ids, held_out, assign}

ltb-false-le : (a b : ℕ) → ltb a b ≡ false → b ≤ a
ltb-false-le a b e = ground arith

module _ (text_before : String → String → Bool) where
  -- A split that is not too small holds out at least three cases and leaves at least three for
  -- development, and together the two sides are the lane's cases, each as often as it was drawn.
  pub assign_lem :
      (lane : String) (draws : List (ℕ × String))
      → (assign text_before lane draws).too_small ≡ false
      → let s : Split = assign text_before lane draws in
        (min_holdout ≤ length s.holdout)
        × (min_dev ≤ length s.dev)
        × Perm (s.holdout ++ s.dev) (map (λ d. d.1) draws)
  unfolding assign
  assign_lem lane draws small =
      let n = held_out text_before draws in
      let ids = drawn_ids text_before draws in
      let small_enough = ltb-false-le (length ids) (min_holdout + min_dev) in
      elim (Bool-cases (ltb (length (drawn_ids text_before draws)) (min_holdout + min_dev))) [
        | inl e ↦ absurd (ground arith)
        | inr e ↦
            let big = small_enough e in
            rw e (
              omega (arith, big, length-sorted text_before (take n ids), length-take n ids),
              omega (arith, big, length-sorted text_before (drop n ids), length-drop n ids),
              Perm.trans
                  (Perm.append (sorted-perm text_before (take n ids))
                    (sorted-perm text_before (drop n ids)))
                  (rw (take-append-drop n ids)
                    (Perm.map (λ d. d.1) (sorted-perm (drawn_before text_before) draws))),
            )
      ]
