-- ===== src/Revisit/Kept.antt =====
-- Which verdicts harness/memory_store/revisit.py asks again.
use localharness.Prelude.{
  All, All-append, ◌≤◌, ℕ, ◌≡◌, inl, inr, true, ◌&&◌, not, Option, none, some, List, [], ◌∷◌,
  String, str_eq, arith, Bool-cases, or_else,
}
use localharness.Ladder.{is_terminal}
use localharness.Ladder.Store.{Verdict, Proposal, Db, find_verdict}
use localharness.Text.{after_char, above, colon}
use localharness.Revisit.{
  Facts, until_met, Waiting, waiting_of, revisitable_in, revisitable, exceeds,
}

module _ (strip : String → String) (number : String → Option ℕ) where
  -- The rows that may be asked again.
  abbrev pub MayRevisit : Facts → Waiting strip number → Type 0
  MayRevisit facts w =
      (is_terminal w.outcome ≡ true) × (until_met strip number w.until facts ≡ true)

  waiting_of-MayRevisit :
      (facts : Facts) (p : Proposal) (v : Option Verdict)
      → All (MayRevisit facts) (waiting_of strip number facts p v)
  unfolding waiting_of
  waiting_of-MayRevisit facts p none = tt
  waiting_of-MayRevisit facts p (some v) =
      elim (Bool-cases (
        not (str_eq v.until "")
        && (is_terminal v.outcome && until_met strip number v.until facts))) [
          | inl e ↦ rw e ((ground arith, ground arith), tt)
          | inr e ↦ rw e tt
        ]

  revisitable_in-MayRevisit :
      (facts : Facts) (vs : List Verdict) (ps : List Proposal)
      → All (MayRevisit facts) (revisitable_in strip number facts vs ps)
  unfolding revisitable_in
  revisitable_in-MayRevisit facts vs [] = tt
  revisitable_in-MayRevisit facts vs (p ∷ ps) =
      All-append (MayRevisit facts)
        (waiting_of strip number facts p (find_verdict p.state_verdict_id vs))
        (revisitable_in strip number facts vs ps)
        (waiting_of-MayRevisit facts p (find_verdict p.state_verdict_id vs))
        (revisitable_in-MayRevisit facts vs ps)

  -- Only verdicts that settle a proposal and whose condition the facts meet are asked again.
  revisitable-MayRevisit :
      (facts : Facts) (db : Db) → All (MayRevisit facts) (revisitable strip number facts db)
  unfolding revisitable
  revisitable-MayRevisit facts db = revisitable_in-MayRevisit facts db.verdicts db.proposals

  exceeds_mono :
      (a b : ℕ) (floor : Option ℕ)
      → a ≤ b
      → exceeds (some a) floor ≡ true
      → exceeds (some b) floor ≡ true
  exceeds_mono a b none h e = e
  exceeds_mono a b (some n) h e = ground arith

  -- More memory, and a higher ceiling, never lose a condition that was met.
  until_met_mono :
      (until : String) (facts : Facts) (memory ceiling : ℕ)
      → or_else facts.memory_gb 0 ≤ memory
      → or_else facts.ceiling_gb 0 ≤ ceiling
      → until_met strip number until facts ≡ true
      → until_met strip number until
          (record facts { memory_gb = some memory; ceiling_gb = some ceiling })
        ≡ true
  unfolding until_met
  until_met_mono until facts memory ceiling m c h = ground (
    arith,
    exceeds_mono (or_else facts.memory_gb 0) memory
        (number (after_char above (after_char colon until))) m,
    exceeds_mono (or_else facts.ceiling_gb 0) ceiling
        (number (after_char above (after_char colon until))) c,
  )
