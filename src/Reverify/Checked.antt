-- ===== src/Reverify/Checked.antt =====
-- A whole `check` of harness/reverify.py, and the one after it.
use localharness.Prelude.{
  ℕ, suc, ◌≡◌, refl, ap, ◌∙◌, Bool, true, false, List, [], ◌∷◌, String, All, All-append, Bool-cases,
  inl, inr,
}
use localharness.Lanes.{canonical}
use localharness.Reverify.{Reverification, is_waiting, settle}
use localharness.Reverify.Settled.{IsSettled, settle-IsSettled, settled_again}
use localharness.Reverify.Due.{Item, World, is_due, queue_each, queue_due, planned, check}
use localharness.Reverify.Once.{queue_due-queue_due}

module _ (w : World) (queued : (i : Item) → is_waiting (w.get (w.job_id i)) ≡ true) where
  queue_each-IsSettled :
      (rows : List Reverification) (next : ℕ) (items : List Item)
      → All (IsSettled w.store w.get) (queue_each w rows next items)
  unfolding queue_each
  queue_each-IsSettled rows next [] = tt
  queue_each-IsSettled rows next (item ∷ items) = elim (Bool-cases (is_due w rows item)) [
    | inl e ↦ rw (e, queue_each) (queued item, queue_each-IsSettled rows (suc next) items)
    | inr e ↦ rw (e, queue_each) (queue_each-IsSettled rows next items)
  ]

  queue_due-IsSettled :
      (items : List Item) (rows : List Reverification)
      → All (IsSettled w.store w.get) rows
      → All (IsSettled w.store w.get) (queue_due w items rows)
  unfolding queue_due
  queue_due-IsSettled items rows h =
      All-append (IsSettled w.store w.get) rows _ h (queue_each-IsSettled rows _ items)

  -- Where the jobs that `check` queues are pending or running, and the results, the runs, the
  -- versions and the clock are the same, a second `check` of the same lanes settles nothing and queues
  -- nothing: whatever triggers still hold, a lane whose re-run is queued and not settled gets no other.
  pub check-check :
      (lane : String) (dry_run : Bool) (items : List Item) (rows : List Reverification)
      → check w lane dry_run items (check w lane dry_run items rows)
        ≡ check w lane dry_run items rows
  unfolding check
  check-check lane true items rows = refl
  check-check lane false items rows =
      let left = (settle w.store w.get w.now rows).0 in
      let lanes = planned (canonical w.normal lane) items in
      ap (λ s. queue_due w lanes s.0)
        (settled_again w.store w.get w.now (queue_due w lanes left)
          (queue_due-IsSettled lanes left (settle-IsSettled w.store w.get w.now rows)))
      ∙ queue_due-queue_due w lanes left
