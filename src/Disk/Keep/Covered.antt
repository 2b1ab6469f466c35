-- ===== src/Disk/Keep/Covered.antt =====
-- Every spec that `keepers` of harness/disk.py adds has its weights kept, or is accounted for.
use localharness.Prelude.{
  ◌≡◌, refl, Bool, true, ◌||◌, List, [], ◌∷◌, ◌++◌, String, arith, str_eq, All, Bool-cases, inl,
  inr,
}
use localharness.Lanes.{canonical}
use localharness.Disk.Keep.{
  Python, Model, Owned, Weights, Keepers, Wanted, keepers, aliases_of, wanted_by, problems_of,
  tooling, resolve, names_weights, is_weightless, with_weights, with_lane, add_weights, add_each,
  with_tools, keep_tools,
}
use localharness.Disk.Keep.Grows.{
  has_key, set_default-old, set_default-new, keep_all-has_key, keep_all-All, or_left, or_right,
  is_some_problem, Grows, Grows-refl, Grows-trans,
}

module _ (py : Python) where
  -- The weights are kept.
  abbrev pub Covers : Keepers → Weights → Type 0
  Covers k w =
      All (λ r. has_key (py.lower r) k.repos ≡ true) w.repos
      × All (λ s. has_key s k.stems ≡ true) w.stems

  -- A spec that names no weights, of an engine that has some, keeps its lane or stops deletion.
  abbrev pub is_answered : Keepers → Wanted → Weights → Bool
  is_answered k x w =
      names_weights w
      || is_weightless py x.spec
      || has_key (canonical py.normal x.lane) k.lanes
      || is_some_problem k.problems

  All-Grows :
      (d e : List (String × String)) (f : String → String)
      → ((j : String) → has_key j d ≡ true → has_key j e ≡ true)
      → (xs : List String) → All (λ x. has_key (f x) d ≡ true) xs
      → All (λ x. has_key (f x) e ≡ true) xs
  All-Grows d e f g [] h = tt
  All-Grows d e f g (x ∷ xs) h = (g (f x) h.0, All-Grows d e f g xs h.1)

  abbrev pub Accounts : Keepers → Wanted → Weights → Type 0
  Accounts k x w = Covers k w × (is_answered k x w ≡ true)

  Accounts-Grows :
      (k l : Keepers) (x : Wanted) (w : Weights) → Grows k l → Accounts k x w → Accounts l x w
  Accounts-Grows k l x w g ((r, s), a) = (
    (
      All-Grows k.repos l.repos py.lower g.repos w.repos r,
      All-Grows k.stems l.stems (λ s. s) g.stems w.stems s,
    ),
    ground (arith, a, g.lanes (canonical py.normal x.lane), g.problems),
  )

  with_weights-Grows :
      (w : Weights) (why : String) (k : Keepers) → Grows k (with_weights py w why k)
  with_weights-Grows w why k = record {
    repos = λ j h. keep_all-has_key py.lower why j w.repos k.repos h;
    stems = λ j h. keep_all-has_key (λ s. s) why j w.stems k.stems h;
    lanes = λ j h. h;
    problems = λ h. h;
  }

  with_weights-Covers :
      (w : Weights) (why : String) (k : Keepers) → Covers (with_weights py w why k) w
  with_weights-Covers w why k =
      (keep_all-All py.lower why w.repos k.repos, keep_all-All (λ s. s) why w.stems k.stems)

  is_some_problem-append : (ps : List String) (p : String) → is_some_problem (ps ++ p ∷ []) ≡ true
  is_some_problem-append [] p = refl
  is_some_problem-append (q ∷ qs) p = refl

  with_lane-Grows : (spec why lane : String) (k : Keepers) → Grows k (with_lane py spec why lane k)
  with_lane-Grows spec why lane k = elim (Bool-cases (str_eq lane "")) [
    | inl e ↦
        rw (e, with_lane)
          record {
            repos = λ j h. h;
            stems = λ j h. h;
            lanes = λ j h. h;
            problems = λ h. is_some_problem-append k.problems _;
          }
    | inr e ↦
        rw (e, with_lane)
          record {
            repos = λ j h. h;
            stems = λ j h. h;
            lanes = λ j h. set_default-old (canonical py.normal lane) j _ k.lanes h;
            problems = λ h. h;
          }
  ]

  with_lane-answers :
      (spec why lane : String) (k : Keepers)
      → (has_key (canonical py.normal lane) (with_lane py spec why lane k).lanes
          || is_some_problem (with_lane py spec why lane k).problems)
        ≡ true
  with_lane-answers spec why lane k = elim (Bool-cases (str_eq lane "")) [
    | inl e ↦ rw (e, with_lane) (or_right _ _ (is_some_problem-append k.problems _))
    | inr e ↦ rw (e, with_lane) (or_left _ _ (set_default-new (canonical py.normal lane) _ k.lanes))
  ]

  add_weights-Accounts :
      (x : Wanted) (w : Weights) (k : Keepers)
      → Grows k (add_weights py w x.spec x.why x.lane k)
        × Accounts (add_weights py w x.spec x.why x.lane k) x w
  unfolding add_weights
  add_weights-Accounts x w k =
      let kept = with_weights py w x.why k in
      elim (Bool-cases (names_weights w || is_weightless py x.spec)) [
        | inl e ↦
            rw e (with_weights-Grows w x.why k, (with_weights-Covers w x.why k, ground (arith, e)))
        | inr e ↦
            let grown = with_lane-Grows x.spec x.why x.lane kept in
            let all = with_weights-Covers w x.why k in
            rw e (
              Grows-trans (with_weights-Grows w x.why k) grown,
              (
                (
                  All-Grows kept.repos _ py.lower grown.repos w.repos all.0,
                  All-Grows kept.stems _ (λ s. s) grown.stems w.stems all.1,
                ),
                ground (arith, with_lane-answers x.spec x.why x.lane kept),
              ),
            )
      ]

  keep_tools-has_key :
      (j : String) (ts : List (String × String)) (d : List (String × String))
      → has_key j d ≡ true
      → has_key j (keep_tools py ts d) ≡ true
  keep_tools-has_key j [] d h = h
  keep_tools-has_key j ((repo, why) ∷ ts) d h =
      keep_tools-has_key j ts _ (set_default-old (py.lower repo) j _ d h)

  keep_tools-All :
      (ts : List (String × String)) (d : List (String × String))
      → All (λ t. has_key (py.lower t.0) (keep_tools py ts d) ≡ true) ts
  keep_tools-All [] d = tt
  keep_tools-All ((repo, why) ∷ ts) d = (
    keep_tools-has_key (py.lower repo) ts _ (set_default-new (py.lower repo) _ d),
    keep_tools-All ts _,
  )

  with_tools-Grows : (k : Keepers) → Grows k (with_tools py k)
  with_tools-Grows k = record {
    repos = λ j h. keep_tools-has_key j tooling k.repos h;
    stems = λ j h. h;
    lanes = λ j h. h;
    problems = λ h. h;
  }

  module _ (aliases : List (String × Weights)) (owned : String → List Owned) where
    abbrev loaded : Wanted → Weights
    loaded x = resolve py aliases owned x.spec

    add_each-Grows : (xs : List Wanted) (k : Keepers) → Grows k (add_each py aliases owned xs k)
    add_each-Grows [] k = Grows-refl k
    add_each-Grows (x ∷ xs) k =
        Grows-trans (add_weights-Accounts x (loaded x) k).0 (add_each-Grows xs _)

    add_each-Accounts :
        (xs : List Wanted) (k l : Keepers)
        → Grows (add_each py aliases owned xs k) l
        → All (λ x. Accounts l x (loaded x)) xs
    add_each-Accounts [] k l g = tt
    add_each-Accounts (x ∷ xs) k l g =
        let next = add_weights py (loaded x) x.spec x.why x.lane k in
        (
          Accounts-Grows next l x (loaded x) (Grows-trans (add_each-Grows xs next) g)
              (add_weights-Accounts x (loaded x) k).1,
          add_each-Accounts xs next l g,
        )

  -- For every gateway alias, typed default and adopted winner, `keepers` keeps all the repos and
  -- file stems that its spec resolves to; a spec that names none, of an engine not listed as
  -- weightless, has its lane kept or adds a problem. Every tooling repo is kept too.
  pub keepers_lem :
      (files : List (String × List Model)) (owned : String → List Owned)
      (typed : List (String × String)) (adopted : List (String × List String))
      → let k = keepers py files owned typed adopted in
        let aliases = (aliases_of py files []).0 in
        All (λ x. Accounts k x (resolve py aliases owned x.spec)) (wanted_by aliases typed adopted)
        × All (λ t. has_key (py.lower t.0) k.repos ≡ true) tooling
  unfolding keepers
  keepers_lem files owned typed adopted =
      let got = aliases_of py files [] in
      let start : Keepers = record {
        repos = [];
        stems = [];
        problems = problems_of got;
        lanes = [];
      } in
      let all = add_each py got.0 owned (wanted_by got.0 typed adopted) start in
      (
        add_each-Accounts got.0 owned (wanted_by got.0 typed adopted) start (with_tools py all)
            (with_tools-Grows all),
        keep_tools-All tooling all.repos,
      )
