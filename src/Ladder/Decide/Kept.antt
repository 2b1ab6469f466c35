-- ===== src/Ladder/Decide/Kept.antt =====
-- What `decide` and the retest loop keep.
use localharness.Prelude.Sort.{IsOrder, IsSorted, All-sorted, sorted-IsSorted}
use localharness.Prelude.{
  All, All-append, ◌≤◌, ◌<◌, ℕ, ◌≡◌, inl, inr, Bool, true, false, ◌&&◌, not, Option, none, some,
  List, [], ◌∷◌, String, str_eq, is_none, arith, Bool-cases, if◌then◌else◌,
}
use localharness.Ladder.{
  Outcome, Tier, Reopen, retest, retest_eligible, in_retest_states, in_retest_tiers,
}
use localharness.Ladder.Store.{
  Row, Verdict, Proposal, Db, find_verdict, insert_verdict, events_of, falsy, retests,
}
use mathlib.Core.List.{append-nil}
use localharness.Ladder.Store.Sound.{IsSound, Linked-append, tier_of-append, events_of-append}
use localharness.Ladder.Store.Retry.{IsPolite, write-IsSound}
use localharness.Ladder.Decide.{
  candidate_verdict, decide_candidate, decide_candidate_as, repeated, newest_about, decide_named,
  decide, with_reason, find_name, Due, reopen_rows, reopen_due_retests, retest_row, due_rows,
  due_before, due_of, due_retests, reasons, contains_text, looks_like_path,
}

-- A verdict about no proposal is in no proposal's history.
insert_candidate-IsSound :
    (db : Db) (vid : ℕ) (row : Row)
    → IsSound db
    → IsSound (insert_verdict db (candidate_verdict vid row))
unfolding insert_verdict
insert_candidate-IsSound db vid row s = record {
  linked = λ q x h. Linked-append x _ db.verdicts (s.linked q x h);
  folded = λ q x h. rw (events_of-append q db.verdicts (candidate_verdict vid row)) (
      rw (append-nil (events_of q db.verdicts)) (
        rw (tier_of-append x (candidate_verdict vid row) db.verdicts (s.linked q x h))
          (s.folded q x h)));
}

decide_candidate-IsSound : (row : Row) (db : Db) → IsSound db → IsSound (decide_candidate row db).1
decide_candidate-IsSound row db s = go (
    if is_none row.score && str_eq row.run_path "" && falsy row.run_id
    then repeated (newest_about row.candidate_id db.verdicts) row
    else none)
  where
    go : (known : Option ℕ) → IsSound (decide_candidate_as row db known).1
    go none = insert_candidate-IsSound db _ row s
    go (some id) = s

module _ (others : ℕ → Db → Db) (polite : IsPolite others) where
  decide_named-IsSound :
      (name : String) (row : Row) (reopen : Option Reopen) (blank_why : Bool)
      (found : Option Proposal) (db : Db)
      → IsSound db
      → IsSound (decide_named others name row reopen blank_why found db).1
  decide_named-IsSound name row reopen blank_why (some p) db s =
      write-IsSound others polite p.id row reopen blank_why db s
  decide_named-IsSound name row reopen blank_why none db s =
      elim (Bool-cases (not (falsy row.candidate_id) && str_eq name "")) [
        | inl e ↦ rw e (decide_candidate-IsSound row db s)
        | inr e ↦ rw e s
      ]

  -- Where the other writers keep the states sound and edit no verdict, `decide` keeps every proposal's state equal
  -- to the fold of its own history, also where it raises.
  pub decide-IsSound :
      (name : String) (row : Row) (reopen : Option Reopen) (blank_why : Bool) (db : Db)
      → IsSound db
      → IsSound (decide others name row reopen blank_why db).1
  unfolding decide
  decide-IsSound name row reopen blank_why db s =
      let row' = with_reason reopen row in
      elim (Bool-cases (not (str_eq row'.reason "") && not (contains_text reasons row'.reason))) [
        | inl e ↦ rw e s
        | inr e ↦
            elim (Bool-cases
              (not (str_eq row'.run_path "") && not (looks_like_path row'.run_path))) [
                | inl f ↦ rw (e, f) s
                | inr f ↦
                    rw (e, f)
                      (decide_named-IsSound name row' reopen blank_why (find_name name db.proposals)
                        db s)
              ]
      ]

  module _ (sentence : ℕ → Option Outcome → Tier → String) (machine : Option ℕ) (now : ℕ) where
    reopen_rows-IsSound :
        (rs : List Due) (db : Db)
        → IsSound db
        → IsSound (reopen_rows sentence machine others now rs db).1
    unfolding reopen_rows
    reopen_rows-IsSound [] db s = s
    reopen_rows-IsSound (r ∷ rs) db s =
        reopen_rows-IsSound rs _
          (decide-IsSound r.name (retest_row sentence machine now r) (some retest) false db s)

    -- Where the other writers keep the states sound and edit no verdict, reopening every retest
    -- that has come due keeps every state equal to the fold of its history.
    pub reopen_due_retests-IsSound :
        (db : Db) → IsSound db → IsSound (reopen_due_retests sentence machine others now db).1
    unfolding reopen_due_retests
    reopen_due_retests-IsSound db s = reopen_rows-IsSound (due_retests now db) db s

-- What `due_retests` lists may be reopened by `reopen_due_retests`.
abbrev pub MayRetest : ℕ → Due → Type 0
MayRetest now r =
    (r.next_retest_at ≤ now)
    × (r.retest_count < retests)
    × (in_retest_states r.state ≡ true)
    × (in_retest_tiers r.tier ≡ true)

due_of-MayRetest :
    (now : ℕ) (p : Proposal) (v : Option Verdict) (at : Option ℕ)
    → All (MayRetest now) (due_of now p v at)
unfolding retest_eligible
due_of-MayRetest now p none at = tt
due_of-MayRetest now p (some v) none = tt
due_of-MayRetest now p (some v) (some at) = ground arith

due_rows-MayRetest :
    (now : ℕ) (vs : List Verdict) (ps : List Proposal) → All (MayRetest now) (due_rows now vs ps)
due_rows-MayRetest now vs [] = tt
due_rows-MayRetest now vs (p ∷ ps) =
    All-append (MayRetest now) (due_of now p (find_verdict p.state_verdict_id vs) p.next_retest_at)
      (due_rows now vs ps)
      (due_of-MayRetest now p (find_verdict p.state_verdict_id vs) p.next_retest_at)
      (due_rows-MayRetest now vs ps)

due_before-IsOrder : IsOrder due_before
due_before-IsOrder = record {
  asymmetric = λ a b h. ground arith;
  composes = λ a b c h k. ground arith;
}

-- The retests listed as due have come due, have attempts left, and are of proposals broken or
-- declined at a tier whose rejection may be asked again; they stand oldest first.
pub due_retests-MayRetest :
    (now : ℕ) (db : Db)
    → All (MayRetest now) (due_retests now db) × IsSorted due_before (due_retests now db)
unfolding due_retests
due_retests-MayRetest now db = (
  All-sorted due_before (MayRetest now) _ (due_rows-MayRetest now db.verdicts db.proposals),
  sorted-IsSorted due_before due_before-IsOrder (due_rows now db.verdicts db.proposals),
)
