-- ===== src/Record/Guards.antt =====
-- What `record` of harness/adopt.py asks before it adds an adoption.
use localharness.Prelude.{ℕ, ◌≡◌, Bool, true, false, ◌&&◌, ◌||◌, not, Option, some, String, ◌⊎◌}
use localharness.Ladder.Store.{Db, find_verdict}
use localharness.Reasons.{is_member}
use localharness.Served.{
  Store, is_by_hand, is_reference, fit, is_adopted, add_adoption, new_adoption,
}
use localharness.Record.{
  Settled, Recorded, recorded, Answers, or_challenger, schema_lanes, machine_of,
}

module _ (an : Answers) (others : ℕ → Db → Db) where
  -- A verdict that may adopt: it does, is not held, is about no reference model, and its engine
  -- enforces a schema where the lane asks for one.
  abbrev pub MayAdopt : String → Settled → Type 0
  MayAdopt spec v =
      (v.adopts ≡ true)
      × ((is_reference v.challenger ≡ false)
          × ((is_reference spec ≡ false)
              × ((not (is_member (an.normal v.lane) schema_lanes)
                    || an.enforces_schema (or_challenger spec v))
                  ≡ true)))

  -- The verdict was written, had no adoption, and its adoption is the one row that is added.
  abbrev pub IsAdded : Settled → ℕ → ℕ → Store → Recorded × Db × Store → Type 0
  IsAdded v candidate vid s r =
      (r.0 ≡ recorded vid)
      × ((is_adopted (some vid) s.adoptions ≡ false)
          × (r.2
              ≡ add_adoption
                  (new_adoption (an.normal v.lane) candidate
                    (machine_of (find_verdict (some vid) r.1.verdicts)) v.how v.all_machines an.now
                    vid s.adoptions)
                  s))

  Adds : Settled → ℕ → Store → Recorded × Db × Store → Type 0
  Adds v candidate s r = (v.adopts ≡ true) × ((vid : ℕ) × IsAdded v candidate vid s r)

  -- A by-hand adoption that does not fit is held back.
  abbrev pub is_too_large : Settled → ℕ → Store → Bool
  is_too_large v candidate s = is_by_hand v.how && not (fit s candidate an.machine).ok

  abbrev IsGuarded : String → Settled → Store → Option ℕ × Store → Recorded × Db × Store → Type 0
  IsGuarded spec v s ensured r =
      (r.2 ≡ s)
      ⊎ ((r.2 ≡ ensured.1)
          ⊎ ((v.held ≡ false)
              × (MayAdopt spec v
                  × ((candidate : ℕ) × ((ensured.0 ≡ some candidate)
                        × ((is_too_large v candidate ensured.1 ≡ false)
                            × ((vid : ℕ) × IsAdded v candidate vid ensured.1 r)))))))
