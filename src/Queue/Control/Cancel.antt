-- ===== src/Queue/Control/Cancel.antt =====
-- What a cancellation does, on every branch of `cancel` in harness/workqueue.py.
use mathlib.Core.Option
use localharness.Prelude.{
  ℕ, ◌≡◌, ◌≢◌, refl, ap, ◌∙◌, ◌⊎◌, inl, inr, Bool, true, false, none, some, List, [], ◌∷◌, String,
  arith, ◌==◌, ==_iff, Bool-cases,
}
use localharness.Table.{find_row, is_any, delete_where}
use localharness.Queue.{
  pending, running, cancelled, Job, Host, ok, err, no_job, not_pending, no_process, state_eq, get,
  is_pending_id, only_pending, How, settle_cancelled, settled_job, stored_columns, set_flag,
}
use localharness.Queue.Runner.Finish.{get-write_job, get-write_job-none}
use localharness.Queue.Control.{cancel, pid_of, stop_running}

-- A lookup that finds a pending job finds it in the statement's WHERE clause too, and only so when
-- ids are unique: `find_row` finds the first row with the id.
is_any-find :
    (id : ℕ) (js : List Job) (j : Job)
    → find_row (λ x. x.id) id js ≡ some j
    → j.state ≡ pending
    → is_any (is_pending_id id) js ≡ true
unfolding find_row
is_any-find id [] j h s = cc
is_any-find id (x ∷ js) j h s = ground (arith, is_any-find id js j)

-- Every row of a table has its own id.
abbrev pub HasId : ℕ → List Job → Type 0
HasId id [] = ⊥
HasId id (j ∷ js) = (j.id ≡ id) ⊎ HasId id js

abbrev pub AreUnique : List Job → Type 0
AreUnique [] = Unit
AreUnique (j ∷ js) = (¬ (HasId j.id js)) × AreUnique js

absent :
    (id : ℕ) (js : List Job)
    → ¬ (HasId id js)
    → (find_row (λ x. x.id) id js ≡ none)
      × (is_any (is_pending_id id) js ≡ false)
      × (delete_where (is_pending_id id) js ≡ js)
unfolding find_row
absent id [] h = (refl, refl, refl)
absent id (x ∷ js) h = ground (arith, absent id js (λ k. h (inr k)), (λ (e : x.id ≡ id). h (inl e)))

-- With unique ids, a WHERE clause on a pending id is about the row that a lookup finds.
pub found :
    (id : ℕ) (js : List Job) (j : Job)
    → AreUnique js
    → find_row (λ x. x.id) id js ≡ some j
    → (is_any (is_pending_id id) js ≡ state_eq j.state pending)
      × (j.state ≡ pending → find_row (λ x. x.id) id (delete_where (is_pending_id id) js) ≡ none)
unfolding find_row
found id [] j u h = cc
found id (x ∷ js) j u h = elim (Bool-cases (x.id == id)) [
  | inl e ↦ ground (arith, absent id js (λ k. u.0 (rw ((==_iff x.id id).0 e) k)), u.0)
  | inr e ↦ ground (arith, found id js j u.1)
]

pub not_found :
    (id : ℕ) (js : List Job)
    → find_row (λ x. x.id) id js ≡ none
    → is_any (is_pending_id id) js ≡ false
unfolding find_row
not_found id [] h = refl
not_found id (x ∷ js) h = ground (arith, not_found id js)

-- A deletion on one id leaves the others.
find-delete_where :
    (id other : ℕ) (js : List Job)
    → other ≢ id
    → find_row (λ x. x.id) other (delete_where (is_pending_id id) js)
      ≡ find_row (λ x. x.id) other js
unfolding find_row
find-delete_where id other [] ne = refl
find-delete_where id other (x ∷ js) ne = ground (arith, find-delete_where id other js ne)

module _ (strftime : ℕ → String) (alive : ℕ → Bool) (stop : ℕ → Host → How × Host) (id : ℕ)
    (h : Host) (unique : AreUnique h.jobs) where
  -- In a table of unique ids, cancelling a job that is not running: a missing one and one already settled are errors that
  -- change nothing; a pending one is returned, and its row alone is gone.
  pub cancel_waiting :
      (get id h ≡ none → cancel strftime alive stop id h ≡ (err (no_job id), h))
      × ((j : Job)
          → get id h ≡ some j
          → j.state ≢ running
          → j.state ≢ pending
          → cancel strftime alive stop id h ≡ (err (not_pending id j.state), h))
      × ((j : Job)
          → get id h ≡ some j
          → j.state ≡ pending
          → ((cancel strftime alive stop id h).0 ≡ ok j)
            × (get id (cancel strftime alive stop id h).1 ≡ none)
            × ((other : ℕ)
                → other ≢ id
                → get other (cancel strftime alive stop id h).1 ≡ get other h))
  unfolding cancel only_pending get
  cancel_waiting = (
    λ gone. ground (arith, not_found id h.jobs gone),
    λ j here r p. ground (arith, found id h.jobs j unique here),
    λ j here p. (
      ground (arith, found id h.jobs j unique here),
      ground (arith, found id h.jobs j unique here),
      λ other ne.
          ground (arith, found id h.jobs j unique here, find-delete_where id other h.jobs ne),
    ),
  )

module _ (strftime : ℕ → String) (alive : ℕ → Bool) (stop : ℕ → Host → How × Host) (h : Host)
    (j : Job) (here : get j.id h ≡ some j) (active : j.state ≡ running) where
  cancel-eq-stop_running :
      (pid : ℕ)
      → pid_of alive j.id h ≡ some pid
      → cancel strftime alive stop j.id h ≡ stop_running strftime alive stop j pid h
  unfolding cancel
  cancel-eq-stop_running pid e = ground arith

  settle_cancelled-some :
      (how : How) (k : Host) (row : Job)
      → get j.id k ≡ some row
      → (row' : Job) × (get j.id (settle_cancelled strftime j how none k) ≡ some row')
        × (row'.state ≡ cancelled)
        × (row'.finished ≢ none)
  unfolding settle_cancelled settled_job
  settle_cancelled-some how k row e =
      let settled = settled_job strftime j how none k in
      (
        stored_columns settled row,
        get-write_job settled k ∙ ap (Option.map (stored_columns settled)) e,
        refl,
        λ p. cc,
      )

  settle_cancelled-none :
      (how : How) (k : Host)
      → get j.id k ≡ none
      → get j.id (settle_cancelled strftime j how none k) ≡ none
  unfolding settle_cancelled settled_job
  settle_cancelled-none how k e = get-write_job-none (settled_job strftime j how none k) k e

  -- Cancelling a running job of the table: with no live process here it is an error that changes nothing. Else,
  -- whatever its runner and others do while the process group is stopped, the job ends cancelled
  -- with a finishing time if its row is still there, and a row that is gone does not come back.
  pub cancel_active :
      (pid_of alive j.id h ≡ none → cancel strftime alive stop j.id h ≡ (err (no_process j.id), h))
      × ((pid : ℕ)
          → pid_of alive j.id h ≡ some pid
          → let end = (cancel strftime alive stop j.id h).1 in
            let meanwhile = (stop pid (set_flag j.id h)).1 in
            ((row : Job)
              → get j.id meanwhile ≡ some row
              → (row' : Job) × (get j.id end ≡ some row')
                × (row'.state ≡ cancelled)
                × (row'.finished ≢ none))
            × (get j.id meanwhile ≡ none → get j.id end ≡ none))
  cancel_active = (
    λ dead. unfold cancel in ground arith,
    λ pid live. rw (cancel-eq-stop_running pid live) (
      settle_cancelled-some (stop pid (set_flag j.id h)).0 (stop pid (set_flag j.id h)).1,
      settle_cancelled-none (stop pid (set_flag j.id h)).0 (stop pid (set_flag j.id h)).1,
    ),
  )
