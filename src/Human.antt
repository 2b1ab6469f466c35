-- ===== src/Human.antt =====
-- harness/human.py, and decide_by_hand of harness/adopt.py: a lane's winner from a person's answers.
-- The order of names is a parameter; a share of votes is a fraction, and messages are left out.
pub mod Won
pub mod Examples
use localharness.Prelude.{
  ℕ, suc, ◌+◌, max, Bool, true, false, ◌&&◌, not, Option, none, some, List, [], ◌∷◌, map, String,
  ltb, ◌==◌, length, str_eq, if◌then◌else◌,
}
use localharness.Table.{select}
use localharness.Dict.{put}
use localharness.Lanes.{canonical}
use localharness.Counter.{counted_from, leader}

-- ENOUGH
abbrev pub enough_answers : ℕ
enough_answers = 3

-- MIN_VOTES of harness/adopt.py
abbrev pub min_votes : ℕ
min_votes = 10

-- A row of `human_votes`; the empty winner is a tie.
pub record Vote : Type 0 where
  pub lane : String
  pub case_id : String
  pub left : String
  pub right : String
  pub winner : String

-- One A/B that a person is asked about.
pub record Pair : Type 0 where
  pub case_id : String
  pub a : String
  pub b : String

-- "" where nobody leads.
abbrev pub or_tie : Option String → String
or_tie none = ""
or_tie (some w) = w

-- The dict of the cases' winners, in the order in which the cases came first.
abbrev pub winners : List (String × String) → List String
winners d = map (λ e. e.1) d

abbrev pub is_named : String → Bool
is_named w = not (str_eq w "")

-- lane_verdict: not judged, no preference, or who won.
pub data Judged : Type 0 where
  unjudged no_preference : Judged
  won : String → Judged

abbrev pub judged_as : Option String → Judged
judged_as none = no_preference
judged_as (some w) = won w

abbrev pub largest : List (String × ℕ) → ℕ
largest [] = 0
largest (e ∷ d) = max e.1 (largest d)

abbrev pub total : List ℕ → ℕ
total [] = 0
total (n ∷ ns) = n + total ns

-- The verdict of decide_by_hand; `held` is the empty adoption of too few votes.
pub data ByHand : Type 0 where
  not_judged incumbent_stays incumbent_preferred : ByHand
  held : (votes : ℕ) (agreed : ℕ) → ByHand
  adopted : (votes : ℕ) (agreed : ℕ) (forced : Bool) (all_machines : Bool) → ByHand

module _ (normal : String → String) (text_before : String → String → Bool) (votes : List Vote) where
  abbrev pub is_about : String → String → String → String → Vote → Bool
  is_about lane case_id lo hi v =
      str_eq v.lane (canonical normal lane)
      && (str_eq v.case_id case_id && (str_eq v.left lo && str_eq v.right hi))

  -- `lo, hi = sorted((a, b))`, and the winners of the rows.
  abbrev pub answers : String → Pair → List String
  answers lane p =
      let swap = text_before p.b p.a in
      let lo = if swap then p.b else p.a in
      let hi = if swap then p.a else p.b in
      map (λ v. v.winner) (select (is_about lane p.case_id lo hi) votes)

  -- tally
  abbrev pub tally : String → Pair → List (String × ℕ)
  unfolding counted_from
  tally lane p = counted_from [] (answers lane p)

  unfoldable pub decided : String → Pair → Option String
  unfolding leader
  decided lane p =
      if ltb (length (answers lane p)) enough_answers
      then none
      else some (or_tie (leader (answers lane p)))

  -- The loop of lane_verdict: none where a pair has too few answers.
  unfoldable pub decided_by :
      String → List (String × String) → List Pair → Option (List (String × String))
  unfolding decided put
  decided_by lane d [] = some d
  decided_by lane d (p ∷ ps) = elim (decided lane p) [
    | none ↦ none
    | some w ↦ decided_by lane (put p.case_id w d) ps
  ]

  abbrev pub judge_cases : Option (List (String × String)) → Judged
  unfolding leader
  judge_cases none = unjudged
  judge_cases (some []) = unjudged
  judge_cases (some (e ∷ d)) = judged_as (leader (select is_named (winners (e ∷ d))))

  unfoldable pub lane_verdict : String → List Pair → Judged
  unfolding decided_by
  lane_verdict lane pairs = judge_cases (decided_by lane [] pairs)

  -- vote_stats: the answers, and those that went with their pair's most common one.
  abbrev pub vote_stats : String → List Pair → ℕ × ℕ
  vote_stats lane pairs = (
    total (map (λ p. length (answers lane p)) pairs),
    total (map (λ p. largest (tally lane p)) pairs),
  )

  abbrev pub after_vote :
      String → String → List Pair → (force all_machines : Bool) → ℕ → Judged → ByHand
  after_vote lane challenger pairs force all_machines least unjudged = not_judged
  after_vote lane challenger pairs force all_machines least no_preference = incumbent_stays
  after_vote lane challenger pairs force all_machines least (won w) =
      let (n, agreed) = vote_stats lane pairs in
      if not (str_eq w challenger)
      then incumbent_preferred
      else if ltb n least && not force
      then held n agreed
      else adopted n agreed (ltb n least) all_machines

  unfoldable pub decide_by_hand :
      String → String → List Pair → (force all_machines : Bool) → ℕ → ByHand
  unfolding lane_verdict
  decide_by_hand lane challenger pairs force all_machines least =
      after_vote lane challenger pairs force all_machines least (lane_verdict lane pairs)
