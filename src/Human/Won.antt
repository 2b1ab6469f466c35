-- ===== src/Human/Won.antt =====
-- What an adoption by hand rests on, by harness/human.py and harness/adopt.py.
use mathlib.Core.Path.{subst}
use localharness.Prelude.{
  ℕ, ◌<◌, ◌≡◌, ◌≢◌, ◌↔◌, refl, sym, ◌∙◌, Bool, true, false, ◌&&◌, ◌||◌, not, Option, none, some,
  List, [], ◌∷◌, map, String, arith, ltb, length, str_eq_iff, is_none, Option-cases, inl, inr,
}
use localharness.Table.{select, is_any}
use localharness.Dict.{put}
use localharness.Counter.{leader, occurrences, leader_lem}
use localharness.Human.{
  Vote, Pair, enough_answers, winners, is_named, Judged, unjudged, no_preference, won, judged_as,
  total, not_judged, adopted, answers, decided, decided_by, judge_cases, lane_verdict, after_vote,
  decide_by_hand,
}

occurrences-select :
    (v : String) (xs : List String) → v ≢ "" → occurrences v (select is_named xs) ≡ occurrences v xs
unfolding occurrences
occurrences-select v [] ne = refl
occurrences-select v (x ∷ xs) ne =
    ground (arith, str_eq_iff x "", str_eq_iff x v, occurrences-select v xs ne)

occurrences-is_named : (xs : List String) → occurrences "" (select is_named xs) ≡ 0
unfolding occurrences
occurrences-is_named [] = refl
occurrences-is_named (x ∷ xs) = ground (arith, str_eq_iff x "", occurrences-is_named xs)

abbrev pub is_short : List String → Bool
is_short xs = ltb (length xs) enough_answers

abbrev pub is_empty {ℓ} : {A : Type ℓ} → List A → Bool
is_empty [] = true
is_empty (x ∷ xs) = false

abbrev is_some_empty {ℓ} : {A : Type ℓ} → Option (List A) → Bool
is_some_empty none = false
is_some_empty (some d) = is_empty d

is_empty-put : (k v : String) (d : List (String × String)) → is_empty (put k v d) ≡ false
unfolding put
is_empty-put k v [] = refl
is_empty-put k v ((j, w) ∷ d) = ground arith

module _ (normal : String → String) (text_before : String → String → Bool) (votes : List Vote)
    (lane : String) where
  abbrev pub answers_to : Pair → List String
  answers_to p = answers normal text_before votes lane p

  decided-is_none :
      (p : Pair) → is_none (decided normal text_before votes lane p) ≡ is_short (answers_to p)
  unfolding decided
  decided-is_none p = ground arith

  decided_by-is_none :
      (d : List (String × String)) (ps : List Pair)
      → is_none (decided_by normal text_before votes lane d ps)
        ≡ is_any (λ p. is_short (answers_to p)) ps
  unfolding decided_by
  decided_by-is_none d [] = refl
  decided_by-is_none d (p ∷ ps) =
      rw (sym (decided-is_none p)) (elim (Option-cases (decided normal text_before votes lane p)) [
        | inl e ↦ rw (e, decided_by) refl
        | inr (w, e) ↦ rw (e, decided_by) (decided_by-is_none (put p.case_id w d) ps)
      ])

  decided_by-is_empty :
      (d : List (String × String)) (ps : List Pair)
      → (is_empty d && is_empty ps) ≡ false
      → is_some_empty (decided_by normal text_before votes lane d ps) ≡ false
  unfolding decided_by
  decided_by-is_empty d [] h = ground arith
  decided_by-is_empty d (p ∷ ps) h = elim (Option-cases (decided normal text_before votes lane p)) [
    | inl e ↦ rw (e, is_some_empty, decided_by) refl
    | inr (w, e) ↦
        rw (e, is_some_empty, decided_by)
          (decided_by-is_empty (put p.case_id w d) ps (rw (is_empty-put p.case_id w d) refl))
  ]

  abbrev is_unjudged : Judged → Bool
  is_unjudged unjudged = true
  is_unjudged _ = false

  judge_cases-is_unjudged :
      (o : Option (List (String × String)))
      → is_unjudged (judge_cases normal text_before votes o) ≡ (is_none o || is_some_empty o)
  unfolding judge_cases
  judge_cases-is_unjudged none = refl
  judge_cases-is_unjudged (some []) = refl
  judge_cases-is_unjudged (some (e ∷ d)) = after (leader (select is_named (winners (e ∷ d))))
    where
      after : (w : Option String) → is_unjudged (judged_as w) ≡ false
      after none = refl
      after (some w) = refl

  unjudged_pairs :
      (ps : List Pair)
      → let o = decided_by normal text_before votes lane [] ps in
        (is_none o || is_some_empty o) ≡ (is_empty ps || is_any (λ p. is_short (answers_to p)) ps)
  unfolding decided_by
  unjudged_pairs [] = refl
  unjudged_pairs (p ∷ ps) =
      rw (decided_by-is_none [] (p ∷ ps), decided_by-is_empty [] (p ∷ ps) refl) (ground arith)

  after_vote-unjudged :
      (challenger : String) (pairs : List Pair) (force all_machines : Bool) (least : ℕ) (j : Judged)
      → (after_vote normal text_before votes lane challenger pairs force all_machines least j
          ≡ not_judged)
        ↔ (is_unjudged j ≡ true)
  after_vote-unjudged challenger pairs force all_machines least unjudged = (λ h. refl, λ h. refl)
  after_vote-unjudged challenger pairs force all_machines least no_preference = (λ h. cc, λ h. cc)
  after_vote-unjudged challenger pairs force all_machines least (won w) = ground arith

  -- A lane is left unjudged exactly when there is no pair to judge, or some pair has fewer than three
  -- answers.
  pub decide_by_hand-not_judged :
      (challenger : String) (pairs : List Pair) (force all_machines : Bool) (least : ℕ)
      → (decide_by_hand normal text_before votes lane challenger pairs force all_machines least
          ≡ not_judged)
        ↔ ((is_empty pairs || is_any (λ p. is_short (answers_to p)) pairs) ≡ true)
  unfolding decide_by_hand lane_verdict
  decide_by_hand-not_judged challenger pairs force all_machines least =
      let o = decided_by normal text_before votes lane [] pairs in
      let j = judge_cases normal text_before votes o in
      let same = judge_cases-is_unjudged o ∙ unjudged_pairs pairs in
      let (there, back) = after_vote-unjudged challenger pairs force all_machines least j in
      (λ h. sym same ∙ there h, λ h. back (same ∙ h))

  after_vote-adopted :
      (challenger : String) (pairs : List Pair) (force all_machines : Bool) (least : ℕ) (j : Judged)
      (n agreed : ℕ) (forced everywhere : Bool)
      → after_vote normal text_before votes lane challenger pairs force all_machines least j
        ≡ adopted n agreed forced everywhere
      → (j ≡ won challenger)
        × (n ≡ total (map (λ p. length (answers_to p)) pairs))
        × (forced ≡ ltb n least)
        × ((ltb n least && not force) ≡ false)
  after_vote-adopted challenger pairs force all_machines least unjudged n agreed forced everywhere
        e =
      absurd cc
  after_vote-adopted challenger pairs force all_machines least no_preference n agreed forced
        everywhere e =
      absurd cc
  after_vote-adopted challenger pairs force all_machines least (won w) n agreed forced everywhere
        e =
      ground (arith, str_eq_iff w challenger)

  judge_cases-won :
      (o : Option (List (String × String))) (w : String)
      → judge_cases normal text_before votes o ≡ won w
      → (cases : List (String × String)) × (o ≡ some cases)
        × (leader (select is_named (winners cases)) ≡ some w)
  unfolding judge_cases
  judge_cases-won none w e = absurd cc
  judge_cases-won (some []) w e = absurd cc
  judge_cases-won (some (c ∷ d)) w e =
      (c ∷ d, refl, after (leader (select is_named (winners (c ∷ d)))) e)
    where
      after : (o : Option String) → judged_as o ≡ won w → o ≡ some w
      after none e = absurd cc
      after (some v) e = cc

  -- A by-hand adoption has three answers or more for every pair, and the least number of votes unless
  -- it was forced, which it records; the challenger's name is not empty, and more cases were decided
  -- for it than for any other name that is not.
  pub decide_by_hand_lem :
      (challenger : String) (pairs : List Pair) (force all_machines : Bool) (least : ℕ)
      (n agreed : ℕ) (forced everywhere : Bool)
      → decide_by_hand normal text_before votes lane challenger pairs force all_machines least
        ≡ adopted n agreed forced everywhere
      → (other : String) → other ≢ challenger
      → other ≢ ""
      → (challenger ≢ "")
        × (is_any (λ p. is_short (answers_to p)) pairs ≡ false)
        × (n ≡ total (map (λ p. length (answers_to p)) pairs))
        × (forced ≡ ltb n least)
        × ((ltb n least && not force) ≡ false)
        × (cases : List (String × String)) × (decided_by normal text_before votes lane [] pairs
            ≡ some cases)
        × (occurrences other (winners cases) < occurrences challenger (winners cases))
  unfolding decide_by_hand lane_verdict
  decide_by_hand_lem challenger pairs force all_machines least n agreed forced everywhere e other ne
        named =
      let o = decided_by normal text_before votes lane [] pairs in
      let (won_, counted, mark, allowed) =
        after_vote-adopted challenger pairs force all_machines least
          (judge_cases normal text_before votes o) n agreed forced everywhere e in
      let (cases, some_, led) = judge_cases-won o challenger won_ in
      let named' = has_name cases led in
      (
        named',
        sym (decided_by-is_none [] pairs) ∙ rw some_ refl,
        counted,
        mark,
        allowed,
        cases,
        some_,
        leads cases named' led,
      )
    where
      has_name :
          (cases : List (String × String))
          → leader (select is_named (winners cases)) ≡ some challenger
          → challenger ≢ ""
      has_name cases led same =
          let xs = select is_named (winners cases) in
          let more = leader_lem xs challenger led other ne in
          let none_led : occurrences challenger xs ≡ 0 =
            subst (λ c. occurrences c xs ≡ 0) (sym same) (occurrences-is_named (winners cases)) in
          omega (arith, more, none_led)

      leads :
          (cases : List (String × String))
          → challenger ≢ ""
          → leader (select is_named (winners cases)) ≡ some challenger
          → occurrences other (winners cases) < occurrences challenger (winners cases)
      leads cases named' led =
          let xs = winners cases in
          let more = leader_lem (select is_named xs) challenger led other ne in
          omega (
            arith,
            occurrences-select other xs named,
            occurrences-select challenger xs named',
            more,
          )
