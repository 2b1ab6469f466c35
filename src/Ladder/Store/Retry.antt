-- ===== src/Ladder/Store/Retry.antt =====
-- `_write` of harness/memory_store/transitions.py against other writers: its rounds of read, insert
-- and guarded update.
use localharness.Prelude.{
  sym, ℕ, zero, suc, ◌<◌, ◌≡◌, refl, inl, inr, ap, Bool, true, ◌&&◌, not, Option, none, some, List,
  [], ◌∷◌, ◌++◌, arith, ◌==◌, Bool-cases, ◌∙◌, Option-cases, is_none, or_else,
}
use localharness.Ladder.{Reopen, transition_refused}
use localharness.Table.{max_id}
use localharness.Ladder.Store.Sound.{Linked, IsSound, moved-IsSound}
use localharness.Ladder.Store.{
  Row, Verdict, Proposal, Db, find_verdict, find_proposal, tier_of, new_verdict, without_id,
  insert_verdict, delete_verdict, insert_or, attempt, write_rounds, write, restates, Written,
}

-- What the other writers keep to: they go through the same writer, and edit no verdict.
pub record IsPolite (others : ℕ → Db → Db) : Type 0 where
  pub keeps_sound : (n : ℕ) (db : Db) → IsSound db → IsSound (others n db)
  pub keeps_verdicts :
      (n : ℕ) (db : Db) (i : Option ℕ) (v : Verdict)
      → find_verdict i db.verdicts ≡ some v
      → find_verdict i (others n db).verdicts ≡ some v

without_id-append :
    (vid : ℕ) (vs : List Verdict) (v : Verdict)
    → max_id (λ x. x.id) vs < vid
    → v.id ≡ vid
    → without_id vid (vs ++ v ∷ []) ≡ vs
unfolding max_id
without_id-append vid [] v h e = ground arith
without_id-append vid (x ∷ vs) v h e = ground (arith, without_id-append vid vs v)

-- An attempt that lost the race leaves no trace.
pub delete_verdict-insert_verdict :
    (db : Db) (pid : ℕ) (row : Row) (held : Option ℕ) (reopen : Option Reopen)
    → let vid = suc (max_id (λ v. v.id) db.verdicts) in
      delete_verdict (insert_verdict db (new_verdict vid pid row held reopen)) vid ≡ db
unfolding delete_verdict insert_verdict
delete_verdict-insert_verdict db pid row held reopen =
    ap (λ vs. record db { verdicts = vs })
      (without_id-append _ db.verdicts (new_verdict _ pid row held reopen) (omega arith) refl)

-- A state verdict that is still the one read before has the state and the tier read before.
same_standing :
    (a b : Db) (p q : Proposal)
    → Linked a.verdicts p
    → Linked b.verdicts q
    → ((i : Option ℕ) (v : Verdict)
        → find_verdict i a.verdicts ≡ some v
        → find_verdict i b.verdicts ≡ some v)
    → (or_else q.state_verdict_id 0 == or_else p.state_verdict_id 0) ≡ true
    → (q.state ≡ p.state)
      × (tier_of (find_verdict q.state_verdict_id b.verdicts)
          ≡ tier_of (find_verdict p.state_verdict_id a.verdicts))
same_standing a b p q (inl h) (inl k) kept e = (cc, cc)
same_standing a b p q (inl h) (inr (i, v, x, y, z)) kept e = absurd (ground arith)
same_standing a b p q (inr (i, v, x, y, z)) (inl k) kept e = absurd (ground arith)
same_standing a b p q (inr (i, v, x, y, z)) (inr (j, w, x', y', z')) kept e =
    let same : suc j ≡ suc i = ground arith in
    let found : find_verdict (some (suc j)) b.verdicts ≡ some v =
      rw same (kept (some (suc i)) v y) in
    let v≡w : w ≡ v = cc (y', found) in
    (z' ∙ ap (λ u. some u.outcome) v≡w ∙ sym z, rw (x, x', y, y') (ap (λ u. u.tier) v≡w))

module _ (others : ℕ → Db → Db) (polite : IsPolite others) (pid : ℕ) (row : Row)
    (reopen : Option Reopen) where
  -- The rest of an attempt on a store that other writers may have changed since `db` was read.
  insert_or-IsSound :
      (n : ℕ) (db : Db) (p : Proposal) (again : Db → Written × Db)
      → IsSound db
      → find_proposal pid db.proposals ≡ some p
      → transition_refused p.state
          (tier_of (find_verdict p.state_verdict_id db.verdicts))
          row.outcome
          row.tier
          reopen
        ≡ none
      → ((d : Db) → IsSound d → IsSound (again d).1)
      → IsSound (insert_or others pid row reopen p.state_verdict_id (others n db) again).1
  insert_or-IsSound n db p again s here allowed next =
      elim (Option-cases (find_proposal pid (others n db).proposals)) [
        | inl gone ↦ rw gone (rw delete_verdict-insert_verdict (next _ (polite.keeps_sound n db s)))
        | inr (q, found) ↦
            elim (Bool-cases (or_else q.state_verdict_id 0 == or_else p.state_verdict_id 0)) [
              | inl e ↦
                  let same =
                    same_standing db (others n db) p q (s.linked pid p here)
                      ((polite.keeps_sound n db s).linked pid q found) (polite.keeps_verdicts n db)
                      e in
                  rw (found, e)
                    (moved-IsSound (others n db) pid q row p.state_verdict_id reopen
                      (polite.keeps_sound n db s) found (rw (same.0, same.1) allowed))
              | inr e ↦
                  rw (found, e)
                    (rw delete_verdict-insert_verdict (next _ (polite.keeps_sound n db s)))
            ]
      ]

  attempt-IsSound :
      (n : ℕ) (found : Option Proposal) (db : Db)
      → IsSound db
      → find_proposal pid db.proposals ≡ found
      → (again : Db → Written × Db) → ((d : Db) → IsSound d → IsSound (again d).1)
      → IsSound (attempt others pid row reopen n found db again).1
  attempt-IsSound n none db s here again next = s
  attempt-IsSound n (some p) db s here again next =
      let held = find_verdict p.state_verdict_id db.verdicts in
      elim (Bool-cases (restates p.state_verdict_id held row reopen)) [
        | inl e ↦ rw e s
        | inr e ↦
            elim (Option-cases
              (transition_refused p.state (tier_of held) row.outcome row.tier reopen)) [
                | inl allowed ↦ rw (e, allowed) (insert_or-IsSound n db p again s here allowed next)
                | inr (why, refused) ↦ rw (e, refused) s
              ]
      ]

  write_rounds-IsSound :
      (n : ℕ) (db : Db) → IsSound db → IsSound (write_rounds others pid row reopen n db).1
  unfolding write_rounds
  write_rounds-IsSound zero db s = s
  write_rounds-IsSound (suc n) db s =
      attempt-IsSound n (find_proposal pid db.proposals) db s refl
        (λ d. write_rounds others pid row reopen n d) (write_rounds-IsSound n)

  -- Where the other writers keep the states sound and edit no verdict, whatever they commit between
  -- the rounds, a write keeps every proposal's state equal to
  -- the fold of its own history.
  pub write-IsSound :
      (blank_why : Bool) (db : Db)
      → IsSound db
      → IsSound (write others pid row reopen blank_why db).1
  unfolding write
  write-IsSound blank_why db s = elim (Bool-cases (not (is_none reopen) && blank_why)) [
    | inl e ↦ rw e s
    | inr e ↦ rw e (write_rounds-IsSound 8 db s)
  ]
