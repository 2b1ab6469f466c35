-- ===== src/Reverify/Once.antt =====
-- The queueing of harness/reverify.py, which queues no second re-run while the first is not settled.
use mathlib.Core.Path.{subst}
use localharness.Prelude.{
  ℕ, suc, ◌≡◌, refl, ap, ◌∙◌, sym, Bool, true, false, ◌&&◌, ◌||◌, not, is_none, Option, none, some,
  List, [], ◌∷◌, ◌++◌, arith, str_eq_iff, ==_iff, All, Bool-cases, Option-cases, inl, inr,
}
use localharness.Newest.{last_of}
use localharness.Table.{max_id, is_any}
use localharness.Reverify.{Reverification, is_any_passed}
use localharness.Reverify.Due.{
  Item, Run, World, is_flagged, same_id, is_flagged_run, serves_baseline, baseline_in, baseline,
  is_about, latest, found, skip, is_due, queued_row, queue_each, queue_due, Trigger,
}

last_of-append :
    (test : Reverification → Bool) (xs ys : List Reverification)
    → last_of test (xs ++ ys) ≡ elim (last_of test ys) [ some y ↦ some y | none ↦ last_of test xs ]
unfolding last_of
last_of-append test [] ys = elim (Option-cases (last_of test ys)) [
  | inl n ↦ rw n refl
  | inr (y, e) ↦ rw e refl
]
last_of-append test (x ∷ xs) ys = elim (Option-cases (last_of test ys)) [
  | inl n ↦ rw (last_of-append test xs ys, n) refl
  | inr (y, e) ↦ rw (last_of-append test xs ys, e) refl
]

is_any-append :
    (test : Reverification → Bool) (xs ys : List Reverification)
    → is_any test (xs ++ ys) ≡ (is_any test xs || is_any test ys)
is_any-append test [] ys = refl
is_any-append test (x ∷ xs) ys = ground (arith, is_any-append test xs ys)

abbrev IsOpen : Reverification → Type 0
IsOpen r = r.outcome ≡ none

same_id_refl : (a : Option ℕ) → same_id a a ≡ true
same_id_refl none = refl
same_id_refl (some a) = (==_iff a a).1 refl

is_flagged_run-open :
    (qs : List Reverification) (id : ℕ) → All IsOpen qs → is_flagged_run qs id ≡ false
is_flagged_run-open [] id h = refl
is_flagged_run-open (q ∷ qs) id h = rw h.0 (is_flagged_run-open qs id h.1)

and_false : (a b : Bool) → b ≡ false → (a && b) ≡ false
and_false a b h = ground (arith, h)

module _ (w : World) (rows qs : List Reverification) (open_ : All IsOpen qs) where
  serves_baseline-append :
      (cid : Option ℕ) (run : Run)
      → serves_baseline w.store (rows ++ qs) cid run ≡ serves_baseline w.store rows cid run
  serves_baseline-append cid run =
      ap (λ b. not b && not (is_none run.generated_at) && is_any_passed (w.store.rows run.id cid))
        (is_any-append (λ r. is_flagged r.outcome && same_id r.run_id (some run.id)) rows qs
          ∙ rw (is_flagged_run-open qs run.id open_) (or_false _))
    where
      or_false : (a : Bool) → (a || false) ≡ a
      or_false a = ground arith

  baseline_in-append :
      (cid : Option ℕ) (runs : List Run)
      → baseline_in w.store (rows ++ qs) cid runs ≡ baseline_in w.store rows cid runs
  baseline_in-append cid [] = refl
  baseline_in-append cid (r ∷ rs) =
      rw (serves_baseline-append cid r, baseline_in-append cid rs) refl

  baseline-append :
      (cid : Option ℕ) (runs : List Run)
      → baseline w.store (rows ++ qs) cid runs ≡ baseline w.store rows cid runs
  unfolding baseline
  baseline-append none runs = refl
  baseline-append (some cid) runs = baseline_in-append (some cid) runs

  latest-append :
      (item : Item)
      → latest (rows ++ qs) item
        ≡ elim (latest qs item) [ some q ↦ some q | none ↦ latest rows item ]
  unfolding latest
  latest-append item = last_of-append (is_about item) rows qs

  last_of-IsOpen :
      (item : Item) (ps : List Reverification) (q : Reverification)
      → All IsOpen ps
      → last_of (is_about item) ps ≡ some q
      → IsOpen q
  unfolding last_of
  last_of-IsOpen item [] q h e = absurd cc
  last_of-IsOpen item (p ∷ ps) q h e = elim (Option-cases (last_of (is_about item) ps)) [
    | inl n ↦ ground (arith, h.0)
    | inr (r, f) ↦ last_of-IsOpen item ps q h.1 cc
  ]

  skip-open :
      (item : Item) (q : Reverification) (found_ : List Trigger)
      → IsOpen q
      → is_none (skip (some q) item found_ w.now) ≡ false
  unfolding skip
  skip-open item q found_ h = rw h refl

  -- With no open row about it an item is due as before, and with one it is not.
  is_due-append :
      (item : Item) → is_due w (rows ++ qs) item ≡ (is_none (latest qs item) && is_due w rows item)
  unfolding is_due found latest
  is_due-append item = elim (Option-cases (latest qs item)) [
    | inl n ↦ rw (latest-append item, n, baseline-append item.candidate_id (w.runs item)) refl
    | inr (q, e) ↦
        rw (latest-append item, e)
          (and_false _ _ (skip-open item q _ (last_of-IsOpen item qs q open_ e)))
  ]

module _ (w : World) (rows : List Reverification) where
  queue_each-IsOpen : (next : ℕ) (items : List Item) → All IsOpen (queue_each w rows next items)
  unfolding queue_each
  queue_each-IsOpen next [] = tt
  queue_each-IsOpen next (item ∷ items) = elim (Bool-cases (is_due w rows item)) [
    | inl e ↦ rw (e, queue_each) (refl, queue_each-IsOpen (suc next) items)
    | inr e ↦ rw (e, queue_each) (queue_each-IsOpen next items)
  ]

  -- Whether an item that is due has a row among these.
  abbrev IsAnswered : List Reverification → Item → Type 0
  IsAnswered qs item = (is_none (latest qs item) && is_due w rows item) ≡ false

  is_about_self : (next : ℕ) (item : Item) → is_about item (queued_row w rows next item) ≡ true
  is_about_self next item =
      ground (arith, str_eq_iff item.lane item.lane, same_id_refl item.candidate_id)

  latest-cons :
      (q : Reverification) (qs : List Reverification) (item : Item)
      → IsAnswered qs item
      → IsAnswered (q ∷ qs) item
  unfolding latest last_of
  latest-cons q qs item h = elim (Option-cases (last_of (is_about item) qs)) [
    | inl n ↦ and_false _ _ (ap (λ o. is_none o && is_due w rows item) (sym n) ∙ h)
    | inr (r, e) ↦ rw e refl
  ]

  latest-first :
      (q : Reverification) (qs : List Reverification) (item : Item)
      → is_about item q ≡ true
      → IsAnswered (q ∷ qs) item
  unfolding latest last_of
  latest-first q qs item h = elim (Option-cases (last_of (is_about item) qs)) [
    | inl n ↦ rw (n, h) refl
    | inr (r, e) ↦ rw e refl
  ]

  All-cons :
      (q : Reverification) (qs : List Reverification) (items : List Item)
      → All (IsAnswered qs) items
      → All (IsAnswered (q ∷ qs)) items
  All-cons q qs [] h = tt
  All-cons q qs (item ∷ items) h = (latest-cons q qs item h.0, All-cons q qs items h.1)

  queue_each-IsAnswered :
      (next : ℕ) (items : List Item) → All (IsAnswered (queue_each w rows next items)) items
  unfolding queue_each
  queue_each-IsAnswered next [] = tt
  queue_each-IsAnswered next (item ∷ items) = elim (Bool-cases (is_due w rows item)) [
    | inl e ↦
        let q = queued_row w rows next item in
        let qs = queue_each w rows (suc next) items in
        let step : queue_each w rows next (item ∷ items) ≡ q ∷ qs = rw (e, queue_each) refl in
        subst (λ ps. All (IsAnswered ps) (item ∷ items)) (sym step)
          (
            latest-first q qs item (is_about_self next item),
            All-cons q qs items (queue_each-IsAnswered (suc next) items),
          )
    | inr e ↦
        let step : queue_each w rows next (item ∷ items) ≡ queue_each w rows next items =
          rw (e, queue_each) refl in
        subst (λ ps. All (IsAnswered ps) (item ∷ items)) (sym step)
          (and_false _ _ e, queue_each-IsAnswered next items)
  ]

  queue_each-nil :
      (qs : List Reverification)
      → All IsOpen qs
      → (next : ℕ) (items : List Item) → All (IsAnswered qs) items
      → queue_each w (rows ++ qs) next items ≡ []
  unfolding queue_each
  queue_each-nil qs open_ next [] h = refl
  queue_each-nil qs open_ next (item ∷ items) h =
      rw (is_due-append w rows qs open_ item ∙ h.0, queue_each)
        (queue_each-nil qs open_ next items h.1)

append-nil : (xs : List Reverification) → xs ++ [] ≡ xs
append-nil [] = refl
append-nil (x ∷ xs) = ap (λ ys. x ∷ ys) (append-nil xs)

pub queue_due-queue_due :
    (w : World) (items : List Item) (rows : List Reverification)
    → queue_due w items (queue_due w items rows) ≡ queue_due w items rows
unfolding queue_due
queue_due-queue_due w items rows =
    let qs = queue_each w rows (suc (max_id (λ r. r.id) rows)) items in
    ap (λ ps. (rows ++ qs) ++ ps)
      (queue_each-nil w rows qs (queue_each-IsOpen w rows _ items) _ items
        (queue_each-IsAnswered w rows _ items))
    ∙ append-nil (rows ++ qs)
