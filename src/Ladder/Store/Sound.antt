-- ===== src/Ladder/Store/Sound.antt =====
-- The invariant that `state_audit` of harness/memory_store/transitions.py checks, for one move.
use mathlib.Core.Option
use mathlib.Core.List.{append-nil}
use localharness.Prelude.{
  ℕ, suc, ◌≡◌, refl, sym, ◌⊎◌, inl, inr, false, Option, none, some, List, [], ◌∷◌, ◌++◌, arith,
  ◌==◌, Bool-cases, ==_iff, if◌then◌else◌, ◌∙◌,
}
use localharness.Ladder.{
  Outcome, Tier, Reopen, Standing, fold, fold_step, transition_refused, fresh,
}
use localharness.Ladder.Fold.{fold_from-append}
use localharness.Table.{max_id, update_row, find_row-above, find_row-append, find_row-update_row}
use localharness.Ladder.Store.{
  Row, Verdict, Proposal, Db, find_verdict, find_proposal, tier_of, event_of, event_kind, events_of,
  new_verdict, moved, is_about, reschedule, move_state,
}

-- A proposal's state is the outcome of the verdict that it names, or it has neither.
abbrev pub Linked : List Verdict → Proposal → Type 0
Linked vs p =
    ((p.state_verdict_id ≡ none) × (p.state ≡ none))
    ⊎ ((i : ℕ) × (v : Verdict) × (p.state_verdict_id ≡ some (suc i))
        × (find_verdict (some (suc i)) vs ≡ some v)
        × (p.state ≡ some v.outcome))

abbrev pub standing_of : List Verdict → Proposal → Standing
standing_of vs p = record { state = p.state; tier = tier_of (find_verdict p.state_verdict_id vs) }

-- Every proposal's state is linked, and is the fold of its own history.
pub record IsSound (db : Db) : Type 0 where
  pub linked : (q : ℕ) (p : Proposal) → find_proposal q db.proposals ≡ some p → Linked db.verdicts p
  pub folded :
      (q : ℕ) (p : Proposal)
      → find_proposal q db.proposals ≡ some p
      → fold (events_of q db.verdicts) ≡ standing_of db.verdicts p

pub events_of-append :
    (q : ℕ) (vs : List Verdict) (v : Verdict)
    → events_of q (vs ++ v ∷ [])
      ≡ events_of q vs ++ (if is_about q v.proposal_id then event_of v ∷ [] else [])
unfolding events_of
events_of-append q [] v = ground arith
events_of-append q (x ∷ vs) v = ground (arith, events_of-append q vs v)

-- A verdict found before is found after one more is appended.
find_verdict-append :
    (i : Option ℕ) (v w : Verdict) (vs : List Verdict)
    → find_verdict i vs ≡ some v
    → find_verdict i (vs ++ w ∷ []) ≡ some v
find_verdict-append none v w vs h = cc
find_verdict-append (some i) v w vs h = rw (find_row-append (λ x. x.id) i vs w) (rw h)

pub Linked-append :
    (x : Proposal) (w : Verdict) (vs : List Verdict) → Linked vs x → Linked (vs ++ w ∷ []) x
Linked-append x w vs (inl h) = inl h
Linked-append x w vs (inr (i, v, a, b, c)) =
    inr (i, v, a, find_verdict-append (some (suc i)) v w vs b, c)

pub tier_of-append :
    (x : Proposal) (w : Verdict) (vs : List Verdict)
    → Linked vs x
    → tier_of (find_verdict x.state_verdict_id (vs ++ w ∷ []))
      ≡ tier_of (find_verdict x.state_verdict_id vs)
tier_of-append x w vs (inl h) = rw (h.0)
tier_of-append x w vs (inr (i, v, a, b, c)) =
    rw a (rw (find_verdict-append (some (suc i)) v w vs b) (rw b))

-- A move that the table allows is allowed too when the audit reads it back.
allowed-event_kind :
    (state : Option Outcome) (held : Tier) (vid pid : ℕ) (row : Row) (id : Option ℕ)
    (reopen : Option Reopen)
    → transition_refused state held row.outcome row.tier reopen ≡ none
    → transition_refused state held row.outcome row.tier
        (event_kind (new_verdict vid pid row id reopen))
      ≡ none
unfolding transition_refused
allowed-event_kind state held vid pid row id none h = ground arith
allowed-event_kind state held vid pid row id (some k) h = h

module _ (db : Db) (pid : ℕ) (p : Proposal) (row : Row) (held : Option ℕ) (reopen : Option Reopen)
    (sound : IsSound db) (here : find_proposal pid db.proposals ≡ some p)
    (allowed : transition_refused p.state
        (tier_of (find_verdict p.state_verdict_id db.verdicts))
        row.outcome
        row.tier
        reopen
      ≡ none) where
  abbrev vid : ℕ
  vid = suc (max_id (λ v. v.id) db.verdicts)

  abbrev new : Verdict
  new = new_verdict vid pid row held reopen

  find_verdict-new : find_verdict (some vid) (db.verdicts ++ new ∷ []) ≡ some new
  find_verdict-new =
      rw (find_row-append (λ x. x.id) vid db.verdicts new)
        (rw (find_row-above (λ x. x.id) vid db.verdicts (omega arith)) (ground arith))

  fold-new :
      fold (events_of pid (db.verdicts ++ new ∷ []))
      ≡ record { state = some row.outcome; tier = row.tier }
  unfolding fold
  fold-new = rw (events_of-append pid db.verdicts new) (
      rw ((==_iff pid pid).1 refl) (
        rw (fold_from-append fresh (events_of pid db.verdicts) (event_of new)) (
          rw (sound.folded pid p here) (
            unfold fold_step in
            rw (allowed-event_kind p.state _ vid pid row held reopen allowed)))))

  proposal_moved : Proposal → Proposal
  proposal_moved x = reschedule row reopen (move_state row.outcome vid x)

  find_proposal-moved :
      (q : ℕ)
      → find_proposal q (moved db pid row held reopen vid).proposals ≡ (
          if pid == q
          then Option.map proposal_moved (find_proposal q db.proposals)
          else find_proposal q db.proposals)
  unfolding moved proposal_moved
  find_proposal-moved q = ground (
    arith,
    find_row-update_row (λ x. x.id) pid q (reschedule row reopen)
        (update_row (λ x. x.id) pid (move_state row.outcome vid) db.proposals) (λ x. refl),
    find_row-update_row (λ x. x.id) pid q (move_state row.outcome vid) db.proposals (λ x. refl),
  )

  moved-cases :
      (q : ℕ) (x : Proposal)
      → find_proposal q (moved db pid row held reopen vid).proposals ≡ some x
      → ((q ≡ pid) × (x ≡ proposal_moved p))
        ⊎ (((pid == q) ≡ false) × (find_proposal q db.proposals ≡ some x))
  moved-cases q x h = elim (Bool-cases (pid == q)) [
    | inl e ↦ inl (sym ((==_iff pid q).0 e), ground (arith, find_proposal-moved q, ==_iff pid q))
    | inr e ↦ inr (e, rw (find_proposal-moved q, e) at h)
  ]

  -- The history of another proposal is untouched.
  events_of-other :
      (q : ℕ) → (pid == q) ≡ false → events_of q (db.verdicts ++ new ∷ []) ≡ events_of q db.verdicts
  events_of-other q e = rw (events_of-append q db.verdicts new) (rw e (append-nil _))

  Linked-moved :
      (q : ℕ) (x : Proposal)
      → find_proposal q (moved db pid row held reopen vid).proposals ≡ some x
      → Linked (db.verdicts ++ new ∷ []) x
  unfolding proposal_moved
  Linked-moved q x h = elim (moved-cases q x h) [
    | inl (e, f) ↦ rw f (inr (max_id (λ v. v.id) db.verdicts, new, refl, find_verdict-new, refl))
    | inr (e, f) ↦ Linked-append x new db.verdicts (sound.linked q x f)
  ]

  folded-moved :
      (q : ℕ) (x : Proposal)
      → find_proposal q (moved db pid row held reopen vid).proposals ≡ some x
      → fold (events_of q (db.verdicts ++ new ∷ [])) ≡ standing_of (db.verdicts ++ new ∷ []) x
  unfolding proposal_moved
  folded-moved q x h = elim (moved-cases q x h) [
    | inl (e, f) ↦ rw (e, f) (fold-new ∙ rw find_verdict-new)
    | inr (e, f) ↦
        rw (events_of-other q e)
          (rw (tier_of-append x new db.verdicts (sound.linked q x f)) (sound.folded q x f))
  ]

  -- A move that the table allows keeps the invariant.
  pub moved-IsSound : IsSound (moved db pid row held reopen vid)
  unfolding moved
  moved-IsSound = record { linked = Linked-moved; folded = folded-moved }
