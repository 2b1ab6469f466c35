-- ===== src/Reverify/Settled.antt =====
-- What `judge` of harness/reverify.py may say, and what `settle` leaves.
use localharness.Prelude.{
  ℕ, ◌≡◌, refl, Bool, true, false, ◌&&◌, ◌||◌, not, is_none, Option, none, some, List, [], ◌∷◌,
  arith, str_eq, All, Bool-cases, Option-cases, inl, inr,
}
use localharness.Queue.{Job}
use localharness.Reverify.{
  Outcome, passed, failed, regressed, cancelled, unrun, Result, Reverification, Results, Judged,
  is_any_passed, has_rows, none_passed, against_baseline, against_incumbent, baseline_rows,
  incumbent_rows, judge_run, judge, is_waiting, job_of, settle, paired_runs, lost_to_itself, beaten,
  class_of, class_reason,
}

abbrev pub outcome_eq : Outcome → Outcome → Bool
outcome_eq passed passed = true
outcome_eq failed failed = true
outcome_eq regressed regressed = true
outcome_eq cancelled cancelled = true
outcome_eq unrun unrun = true
outcome_eq _ _ = false

-- What an outcome needs: `ran` is whether a row of the re-run passed, `worse` whether the model lost
-- to its last pass or to the incumbent beyond the noise.
abbrev pub is_sound : Bool → Bool → Judged → Bool
is_sound ran worse j = elim j.outcome [
  | passed ↦ ran && not worse && str_eq j.reason "candidate"
  | failed ↦ not ran && not (str_eq j.reason "harness")
  | regressed ↦ ran && worse
  | cancelled ↦ not ran && str_eq j.reason "harness"
  | unrun ↦ not ran && str_eq j.reason "harness"
]

abbrev pub is_worse : Option (List Result) → List Result → List Result → Bool
is_worse none mine theirs = beaten mine theirs
is_worse (some before) mine theirs =
    lost_to_itself (paired_runs before mine).0 || beaten mine theirs

against_incumbent_sound :
    (mine theirs : List Result) (rid : ℕ)
    → is_sound true (beaten mine theirs) (against_incumbent mine theirs rid) ≡ true
against_incumbent_sound mine theirs rid = elim (Bool-cases (beaten mine theirs)) [
  | inl e ↦ rw (e, against_incumbent) refl
  | inr e ↦ rw (e, against_incumbent) refl
]

against_baseline_sound :
    (before : Option (List Result)) (mine theirs : List Result) (rid : ℕ)
    → is_sound true (is_worse before mine theirs) (against_baseline before mine theirs rid) ≡ true
against_baseline_sound none mine theirs rid = against_incumbent_sound mine theirs rid
against_baseline_sound (some before) mine theirs rid =
    elim (Bool-cases (lost_to_itself (paired_runs before mine).0)) [
      | inl e ↦ rw (e, against_baseline) refl
      | inr e ↦ rw (e, against_baseline) (against_incumbent_sound mine theirs rid)
    ]

none_passed_sound :
    (worse : Bool) (mine : List Result) (rid : ℕ)
    → is_sound false worse (none_passed mine rid) ≡ true
none_passed_sound worse mine rid =
    elim (Bool-cases (str_eq (class_reason (class_of mine)) "harness")) [
      | inl e ↦ rw (e, none_passed) e
      | inr e ↦ rw (e, none_passed) (ground (arith, e))
    ]

-- The re-run's rows, and whether one of them passed.
abbrev pub ran_of : Results → Reverification → ℕ → Bool
ran_of store rv rid = is_any_passed (store.rows rid rv.candidate_id)

abbrev pub worse_of : Results → Reverification → ℕ → Bool
worse_of store rv rid =
    is_worse (baseline_rows store rv) (store.rows rid rv.candidate_id) (incumbent_rows store rv rid)

no_rows_passed : (rows : List Result) → has_rows rows ≡ false → is_any_passed rows ≡ false
no_rows_passed [] e = refl
no_rows_passed (r ∷ rs) e = absurd cc

judge_run_sound :
    (store : Results) (rv : Reverification) (rid : ℕ)
    → is_sound (ran_of store rv rid) (worse_of store rv rid) (judge_run store rv rid) ≡ true
unfolding judge_run
judge_run_sound store rv rid = elim (Bool-cases (has_rows (store.rows rid rv.candidate_id))) [
  | inr e ↦ rw (e, no_rows_passed _ e) refl
  | inl e ↦ elim (Bool-cases (is_any_passed (store.rows rid rv.candidate_id))) [
    | inr p ↦ rw (e, p) (none_passed_sound (worse_of store rv rid) _ rid)
    | inl p ↦ rw (e, p) (against_baseline_sound (baseline_rows store rv) _ _ rid)
  ]
]

-- Whether a row of the job's newest run passed, and whether the model then did worse.
abbrev pub ran : Results → Reverification → Option ℕ → Bool
ran store rv none = false
ran store rv (some rid) = ran_of store rv rid

abbrev pub worse : Results → Reverification → Option ℕ → Bool
worse store rv none = false
worse store rv (some rid) = worse_of store rv rid

abbrev pub newest : Results → Option Job → Option ℕ
newest store none = none
newest store (some job) = store.run_of job.id

-- A judgement is passed or regressed only where a row of the re-run passed, and then regressed
-- exactly when the model lost to its last pass or to the incumbent beyond the paired noise. With no
-- row passed, the harness's faults make it unrun or cancelled and every other reason failed.
pub judge_lem :
    (store : Results) (rv : Reverification) (job : Option Job)
    → is_sound
        (ran store rv (newest store job))
        (worse store rv (newest store job))
        (judge store rv job)
      ≡ true
unfolding judge
judge_lem store rv none = refl
judge_lem store rv (some job) = elim (Option-cases (store.run_of job.id)) [
  | inl n ↦ rw (n, judge) refl
  | inr (rid, e) ↦ rw (e, judge) (judge_run_sound store rv rid)
]

module _ (store : Results) (get : ℕ → Option Job) where
  -- The rows that wait: those settled before stay as they are.
  abbrev pub IsSettled : Reverification → Type 0
  IsSettled rv = (not (is_none rv.outcome) || is_waiting (job_of get rv.job_id)) ≡ true

  pub settle-IsSettled :
      (now : ℕ) (rvs : List Reverification) → All IsSettled (settle store get now rvs).0
  unfolding settle
  settle-IsSettled now [] = tt
  settle-IsSettled now (rv ∷ rvs) =
      elim (Bool-cases (not (is_none rv.outcome) || is_waiting (job_of get rv.job_id))) [
        | inl e ↦ rw e (e, settle-IsSettled now rvs)
        | inr e ↦ rw e (refl, settle-IsSettled now rvs)
      ]

  pub settled_again :
      (now : ℕ) (rvs : List Reverification)
      → All IsSettled rvs
      → settle store get now rvs ≡ (rvs, [])
  unfolding settle
  settled_again now [] h = refl
  settled_again now (rv ∷ rvs) h = rw (h.0, settled_again now rvs h.1) refl

-- After `settle` every row has an outcome or a job that is pending or running, and with the same
-- jobs a second one, at any time and whatever the results say by then, changes nothing.
pub settle-settle :
    (store again : Results) (get : ℕ → Option Job) (now later : ℕ) (rvs : List Reverification)
    → All (IsSettled store get) (settle store get now rvs).0
      × (settle again get later (settle store get now rvs).0 ≡ ((settle store get now rvs).0, []))
settle-settle store again get now later rvs = (
  settle-IsSettled store get now rvs,
  settled_again again get later (settle store get now rvs).0 (settle-IsSettled store get now rvs),
)
