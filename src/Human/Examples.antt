-- ===== src/Human/Examples.antt =====
-- Tests and concrete instances for a person's verdicts.
use localharness.Prelude.{
  str_eq_iff, ◌<◌, ◌≡◌, ◌≢◌, ◌&&◌, ◌||◌, ◌↔◌, not, refl, Bool, true, false, some, List, [], ◌∷◌,
  ◌++◌, map, String, ltb, length, replicate,
}
use localharness.Prelude.Sort.{sorted, insert_sorted}
use localharness.Table.{is_any}
use localharness.Dict.{put}
use localharness.Counter.{bump, counted_from, leader, occurrences}
use localharness.Human.{
  Vote, Pair, winners, total, not_judged, adopted, held, won, decided, decided_by, lane_verdict,
  decide_by_hand,
}
use localharness.Human.Won.{
  decide_by_hand_lem, decide_by_hand-not_judged, is_short, is_empty, answers_to,
}

program : Unit {0}
unfolding bump counted_from sorted insert_sorted leader put decided decided_by lane_verdict
    decide_by_hand
program = tt

abbrev lower : String → String
lower s = s

abbrev given_order : String → String → Bool
given_order a b = false

abbrev vote : String → String → String → String → Vote
vote case_id a b w = record { lane = "music"; case_id = case_id; left = a; right = b; winner = w }

abbrev votes : List Vote
votes =
    replicate 3 (vote "cover" "old" "new" "new")
    ++ replicate 2 (vote "lyrics" "old" "new" "")
    ++ replicate 3 (vote "lyrics" "old" "new" "new")

abbrev pairs : List Pair
pairs =
    record { case_id = "cover"; a = "old"; b = "new" }
    ∷ record { case_id = "lyrics"; a = "old"; b = "new" }
    ∷ []

held_at_eight : decide_by_hand lower given_order votes "music" "new" pairs false false 10 ≡ held 8 6
unfolding program
held_at_eight = refl

forced_at_eight :
    decide_by_hand lower given_order votes "music" "new" pairs true false 10
    ≡ adopted 8 6 true false
unfolding program
forced_at_eight = refl

old-ne-new : ◌≢◌ {A = String} "old" "new"
old-ne-new e = let h : false ≡ true = (str_eq_iff "old" "new").1 e in absurd cc

old_named : ◌≢◌ {A = String} "old" ""
old_named e = absurd cc

decide_by_hand_lem_example :
    (◌≢◌ {A = String} "new" "")
    × (is_any (λ p. is_short (answers_to lower given_order votes "music" p)) pairs ≡ false)
    × (8 ≡ total (map (λ p. length (answers_to lower given_order votes "music" p)) pairs))
    × (true ≡ ltb 8 10)
    × ((ltb 8 10 && not true) ≡ false)
    × (cases : List (String × String)) × (decided_by lower given_order votes "music" [] pairs
        ≡ some cases)
    × (occurrences "old" (winners cases) < occurrences "new" (winners cases))
decide_by_hand_lem_example =
    decide_by_hand_lem lower given_order votes "music" "new" pairs true false 10 8 6 true false
      forced_at_eight "old" old-ne-new old_named

-- Of a case with three candidates only the last pair counts: `a` beats both others and has won
-- nothing.
abbrev three : List Vote
three =
    replicate 3 (vote "cover" "a" "b" "a")
    ++ replicate 3 (vote "cover" "a" "c" "a")
    ++ replicate 3 (vote "cover" "b" "c" "b")

last_pair_counts :
    lane_verdict lower given_order three "music" (
      record { case_id = "cover"; a = "a"; b = "b" }
      ∷ record { case_id = "cover"; a = "a"; b = "c" }
      ∷ record { case_id = "cover"; a = "b"; b = "c" }
      ∷ [])
    ≡ won "b"
unfolding program
last_pair_counts = refl

-- One case of four is enough where the others have no preference.
abbrev one_of_four : List Vote
one_of_four =
    replicate 3 (vote "1" "old" "new" "new")
    ++ replicate 3 (vote "2" "old" "new" "")
    ++ replicate 3 (vote "3" "old" "new" "")
    ++ replicate 3 (vote "4" "old" "new" "")

one_case_adopts :
    decide_by_hand lower given_order one_of_four "music" "new"
      (map (λ c. record { case_id = c; a = "old"; b = "new" }) ("1" ∷ "2" ∷ "3" ∷ "4" ∷ []))
      false
      false
      10
    ≡ adopted 12 12 false false
unfolding program
one_case_adopts = refl

-- Two answers to a pair are not enough.
two_answers :
    decide_by_hand lower given_order
      (replicate 2 (vote "cover" "old" "new" "new"))
      "music"
      "new"
      pairs
      true
      false
      10
    ≡ not_judged
unfolding program
two_answers = refl

decide_by_hand-not_judged_example :
    (decide_by_hand lower given_order votes "music" "new" pairs false false 10 ≡ not_judged) ↔ (
      (is_empty pairs
        || is_any (λ p. is_short (answers_to lower given_order votes "music" p)) pairs)
      ≡ true)
decide_by_hand-not_judged_example =
    decide_by_hand-not_judged lower given_order votes "music" "new" pairs false false 10
