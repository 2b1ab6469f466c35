-- ===== src/Queue/Control/Ids.antt =====
-- Ids of the queue of harness/workqueue.py: AUTOINCREMENT never hands one out twice, and what a new
-- job, a reordering and a recovery change.
use mathlib.Core.Option
use text.Mathlib.Text.{starts_with}
use localharness.Prelude.{
  ℕ, suc, ◌≤◌, ◌<◌, ◌≡◌, ◌≢◌, refl, Bool, ◌&&◌, not, none, some, List, [], ◌∷◌, ◌++◌, String, arith,
  All, All-append, if◌then◌else◌, ℤ, ◌⊎◌, Bool-cases, inl, inr,
}
use localharness.Table.{find_row, find_row-append, find_row-key, select, update_where}
use localharness.Queue.{
  pending, running, Job, Host, ok, err, Error, needs_command, starts_with_option,
  whole_command_line, has_space, Request, new_job, add, get, is_pending_id, set_priority,
  in_state_here, interrupted, recover, current, not_pending, no_job,
}
use localharness.Queue.Control.Cancel.{AreUnique, found, not_found}

-- Every id in the table has been handed out.
abbrev pub IsNumbered : Host → Type 0
IsNumbered h = All (λ j. j.id ≤ h.sequence) h.jobs

find-above :
    (n i : ℕ) (js : List Job) → All (λ j. j.id ≤ n) js → n < i → find_row (λ j. j.id) i js ≡ none
unfolding find_row
find-above n i [] a lt = refl
find-above n i (j ∷ js) a lt = ground (arith, find-above n i js a.1)

All-weaken : (n : ℕ) (js : List Job) → All (λ j. j.id ≤ n) js → All (λ j. j.id ≤ suc n) js
All-weaken n [] a = tt
All-weaken n (j ∷ js) a = (omega arith, All-weaken n js a.1)

module _ (exists : String → Bool) (here : String) (r : Request) (h : Host)
    (numbered : IsNumbered h) where
  abbrev pushed : Host
  pushed = record h { jobs = h.jobs ++ new_job here r h ∷ []; sequence = suc h.sequence }

  add_cases :
      ((e : Error) × (add exists here r h ≡ (err e, h)))
      ⊎ (add exists here r h ≡ (ok (new_job here r h), pushed))
  unfolding add
  add_cases = go r.argv refl
    where
      go :
          (words : List String)
          → r.argv ≡ words
          → ((e : Error) × (add exists here r h ≡ (err e, h)))
            ⊎ (add exists here r h ≡ (ok (new_job here r h), pushed))
      go [] e = inl (needs_command, rw (add, e))
      go (first ∷ words) e = elim (Bool-cases (starts_with first "-")) [
        | inl a ↦ inl (starts_with_option, rw (add, e, a))
        | inr a ↦ elim (Bool-cases (has_space first && not (exists first))) [
          | inl b ↦ inl (whole_command_line, rw (add, e, a, b))
          | inr b ↦ inr (ground arith)
        ]
      ]

  get-pushed :
      (get (suc h.sequence) pushed ≡ some (new_job here r h))
      × ((other : ℕ) → other ≢ suc h.sequence → get other pushed ≡ get other h)
  unfolding get
  get-pushed = (
    rw (find_row-append (λ j. j.id) (suc h.sequence) h.jobs (new_job here r h))
        (rw (find-above h.sequence (suc h.sequence) h.jobs numbered (omega arith)) (ground arith)),
    λ other ne. ground (arith, find_row-append (λ j. j.id) other h.jobs (new_job here r h)),
  )

  -- Where every id in the table was handed out, a job that is added has an id above every id handed out before, waits under that id in the
  -- table, and changes no other row; the numbering goes on from it. A refused request changes
  -- nothing.
  pub add_lem :
      ((j : Job)
        → (add exists here r h).0 ≡ ok j
        → (j.id ≡ suc h.sequence)
          × (j.state ≡ pending)
          × (get j.id (add exists here r h).1 ≡ some j)
          × ((other : ℕ) → other ≢ j.id → get other (add exists here r h).1 ≡ get other h)
          × ((add exists here r h).1.sequence ≡ j.id)
          × IsNumbered (add exists here r h).1)
      × (((j : Job) → (add exists here r h).0 ≢ ok j) → (add exists here r h).1 ≡ h)
  add_lem = elim add_cases [
    | inl (e, eq) ↦ rw eq ((λ j p. absurd (cc p)), λ _. refl)
    | inr eq ↦ rw eq (
      λ j p.
          let same : new_job here r h ≡ j = cc p in
          rw (← same) (
            refl,
            refl,
            get-pushed.0,
            get-pushed.1,
            refl,
            All-append _ h.jobs (new_job here r h ∷ []) (All-weaken h.sequence h.jobs numbered)
                (omega arith, tt),
          ),
      λ no. absurd (no (new_job here r h) refl),
    )
  ]

abbrev pub reordered : ℤ → Job → Job
reordered priority j = record j { priority = priority }

find-update_where :
    (id other : ℕ) (priority : ℤ) (js : List Job)
    → AreUnique js
    → find_row (λ j. j.id) other (update_where (is_pending_id id) (reordered priority) js)
      ≡ Option.map
          (λ j. if is_pending_id id j then reordered priority j else j)
          (find_row (λ j. j.id) other js)
unfolding find_row
find-update_where id other priority [] u = refl
find-update_where id other priority (j ∷ js) u =
    ground (arith, find-update_where id other priority js u.1)

find-update_other :
    (id other : ℕ) (priority : ℤ) (js : List Job)
    → other ≢ id
    → find_row (λ j. j.id) other (update_where (is_pending_id id) (reordered priority) js)
      ≡ find_row (λ j. j.id) other js
unfolding find_row
find-update_other id other priority [] ne = refl
find-update_other id other priority (j ∷ js) ne =
    ground (arith, find-update_other id other priority js ne)

-- In a table of unique ids, a reordering succeeds exactly for an id that names a pending job; it changes that job's priority
-- and nothing else of it, no other job, and nothing where it fails.
pub set_priority_lem :
    (id : ℕ) (priority : ℤ) (h : Host)
    → AreUnique h.jobs
    → ((j : Job)
        → get id h ≡ some j
        → j.state ≡ pending
        → ((set_priority id priority h).0 ≡ ok (some (reordered priority j)))
          × ((other : ℕ) → other ≢ id → get other (set_priority id priority h).1 ≡ get other h))
      × ((j : Job)
          → get id h ≡ some j
          → j.state ≢ pending
          → set_priority id priority h ≡ (err (not_pending id j.state), h))
      × (get id h ≡ none → set_priority id priority h ≡ (err (no_job id), h))
unfolding set_priority get
set_priority_lem id priority h u = (
  λ j e p. (
    ground (
      arith,
      found id h.jobs j u e,
      find-update_where id id priority h.jobs u,
      find_row-key (λ x. x.id) id h.jobs j,
    ),
    λ other ne.
        ground (arith, found id h.jobs j u e, find-update_other id other priority h.jobs ne),
  ),
  λ j e p. ground (arith, found id h.jobs j u e),
  λ e. ground (arith, not_found id h.jobs e),
)

-- After the runner's recovery this machine has no job marked running. A job that was is failed with
-- the note that it was interrupted; every other job is as it was.
pub recover_lem :
    (h : Host)
    → (current (recover h) ≡ none)
      × ((id : ℕ)
          → get id (recover h)
            ≡ Option.map
                (λ j. if in_state_here running h.machine j then interrupted j else j)
                (get id h))
unfolding recover current get find_row
recover_lem h = (rw (none_left h.jobs), λ id. go h.jobs id)
  where
    none_left :
        (js : List Job)
        → select
            (in_state_here running h.machine)
            (update_where (in_state_here running h.machine) interrupted js)
          ≡ []
    none_left [] = refl
    none_left (j ∷ js) = ground (arith, none_left js)

    go :
        (js : List Job) (id : ℕ)
        → find_row (λ j. j.id) id (update_where (in_state_here running h.machine) interrupted js)
          ≡ Option.map
              (λ j. if in_state_here running h.machine j then interrupted j else j)
              (find_row (λ j. j.id) id js)
    go [] id = refl
    go (j ∷ js) id = ground (arith, go js id)
