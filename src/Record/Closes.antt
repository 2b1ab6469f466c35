-- ===== src/Record/Closes.antt =====
-- What a lane serves after `record` of harness/adopt.py.
use localharness.Prelude.{
  ℕ, ◌≤◌, ◌≡◌, refl, ap, ◌∙◌, ==_refl, Bool, true, false, ◌&&◌, not, Option, none, some, List, ◌∷◌,
  String, if◌then◌else◌, All, arith,
}
use localharness.Table.{find_row}
use localharness.Dict.{lookup}
use localharness.Ladder.Store.{Db, find_verdict}
use localharness.Ladder.Decide.{decided, decide}
use localharness.Served.{
  is_by_hand, Adoption, Candidate, Store, is_reference, fit, current, new_adoption, insert_adoption,
  is_adopted,
}
use localharness.Served.Adopted.{adopted_lem}
use localharness.Record.{
  Settled, recorded, held_back, or_challenger, machine_of, Answers, guarded, row_of, serve,
  record_as, record_,
}

pub if-false {ℓ} : {A : Type ℓ} (b : Bool) (x y : A) → b ≡ false → (if b then x else y) ≡ y
if-false b x y e = rw e refl

pub if-true {ℓ} : {A : Type ℓ} (b : Bool) (x y : A) → b ≡ true → (if b then x else y) ≡ x
if-true b x y e = rw e refl

module _ (an : Answers) (others : ℕ → Db → Db) where
  -- An adoption that is recorded is served: where it is not held, and is still one after the tests for
  -- reference models and for schemas, its candidate is known and no reference model, it fits
  -- here if it was made by hand, the verdict that `decide` gave is this machine's and no stored
  -- adoption's, and the clock has not gone back, the lane then serves the candidate's spec on this machine.
  pub record_lem :
      (v : Settled) (spec : String) (run_id : Option ℕ) (db db' : Db) (s s' : Store) (candidate : ℕ)
      (c : Candidate) (vid m : ℕ) (ids : List ℕ)
      → v.held ≡ false
      → (guarded an others spec v).adopts ≡ true
      → an.ensure (or_challenger spec v) s ≡ (some candidate, s')
      → an.machine ≡ some m
      → (is_by_hand (guarded an others spec v).how && not (fit s' candidate (some m)).ok) ≡ false
      → decide others
          (an.proposal_of (or_challenger spec v) s')
          (row_of an others (guarded an others spec v) candidate run_id)
          none
          true
          db
        ≡ (decided vid, db')
      → machine_of (find_verdict (some vid) db'.verdicts) ≡ some m
      → All (λ a. a.adopted_at ≤ an.now) s'.adoptions
      → is_adopted (some vid) s'.adoptions ≡ false
      → find_row (λ c. c.id) candidate s'.candidates ≡ some c
      → is_reference c.spec ≡ false
      → (new : Adoption) × (new.candidate_id ≡ candidate)
        × ((record_ an others v spec run_id db s).0 ≡ recorded vid)
        × (lookup
              (an.normal (guarded an others spec v).lane)
              (current (record_ an others v spec run_id db s).2 (m ∷ ids))
            ≡ some (record { row = new; spec = c.spec }))
  unfolding record_ record_as
  record_lem v spec run_id db db' s s' candidate c vid m ids open_ adopts ensured here fits wrote
        machine past fresh found own =
      let g = guarded an others spec v in
      let spec' = or_challenger spec v in
      let new : Adoption =
        new_adoption (an.normal g.lane) candidate
          (machine_of (find_verdict (some vid) db'.verdicts)) g.how g.all_machines an.now vid
          s'.adoptions in
      let tried =
        decide others (an.proposal_of spec' s') (row_of an others g candidate run_id) none true
          db in
      let all : record_ an others v spec run_id db s ≡ (recorded vid, db', insert_adoption new s') =
        if-false v.held (held_back, db, s)
          (record_as an others g spec' run_id (an.ensure spec' s) db) open_
        ∙ ap (λ o. record_as an others g spec' run_id o db) ensured
        ∙ if-false (g.adopts && (is_by_hand g.how && not (fit s' candidate an.machine).ok))
            (held_back, db, s') (serve an others g candidate tried s') (rw (here, adopts) fits)
        ∙ ap (λ d. serve an others g candidate d s') wrote
        ∙ if-true g.adopts (recorded vid, db', insert_adoption new s') (recorded vid, db', s')
            adopts in
      (
        new,
        refl,
        ap (λ r. r.0) all,
        ap (λ r. lookup (an.normal g.lane) (current r.2 (m ∷ ids))) all
            ∙ adopted_lem s' (m ∷ ids) (an.normal g.lane) candidate c
                (machine_of (find_verdict (some vid) db'.verdicts)) g.how g.all_machines an.now vid
                past fresh found own fits (ground (arith, machine, ==_refl m)),
      )
