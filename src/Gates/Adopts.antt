-- ===== src/Gates/Adopts.antt =====
-- When harness/adopt.py replaces an incumbent, and what bears on it.
use localharness.Prelude.{
  ◌≡◌, ◌↔◌, refl, ap, sym, ◌∙◌, Bool, true, false, ◌&&◌, not, Option, some, List, [], ◌∷◌, String,
  arith, ◌==◌, none, str_eq, or_else, Bool-cases, inl, inr,
}
use localharness.Dict.{lookup}
use localharness.Paired.{
  Row, Cell, ratio_leb, alpha, discordant, passes_from, count_pairs, shared, cell_of, head_to_head,
}
use localharness.Holdout.{Split, on_holdout}
use localharness.Power.{Plan}
use localharness.Gates.{
  Summary, Measures, better, p_value, paired_p, gates, is_empty, rows_on, read_through, decide,
  own_rows, summary, summary_over,
}

module _ (ms : Measures) (incumbent challenger : Summary) (rows : List Row) (split : Option Split)
    (plan : Option Plan) where
  -- A challenger is adopted exactly when, on the rows that are read (the holdout's, where there is a
  -- split), its summary is ahead in the lane's order, there is a row, the two share a case, and the
  -- effective cells' p-value is within alpha.
  pub decide-adopts :
      let read = read_through ms split incumbent challenger rows in
      let got = paired_p ms read.rows incumbent.candidate challenger.candidate in
      ((decide ms incumbent challenger rows split plan).adopt ≡ true) ↔ (
        (better ms.text_before ms.direction read.incumbent read.challenger ≡ true)
        × (is_empty read.rows ≡ false)
        × (((discordant got.cell == 0) && (got.cell.unchanged == 0)) ≡ false)
        × (ratio_leb (p_value got) alpha ≡ true))
  unfolding decide gates
  decide-adopts = ground arith

passes_from-nil :
    (name : String) (d : List (String × Bool)) (rows : List Row)
    → own_rows name rows ≡ []
    → passes_from name d rows ≡ d
unfolding passes_from
passes_from-nil name d [] h = refl
passes_from-nil name d (r ∷ rows) h = elim (Bool-cases (str_eq r.candidate name)) [
  | inl e ↦ absurd ground (arith, h, e)
  | inr e ↦ rw e (passes_from-nil name d rows (rw e at h))
]

count_pairs-nil : (a b : Bool) (d : List (String × Bool)) → count_pairs a b d [] ≡ 0
unfolding count_pairs lookup
count_pairs-nil a b [] = refl
count_pairs-nil a b ((k, v) ∷ d) = omega (arith, count_pairs-nil a b d)

shared-nil : (d : List (String × Bool)) → shared d [] ≡ 0
unfolding shared lookup
shared-nil [] = refl
shared-nil ((k, v) ∷ d) = omega (arith, shared-nil d)

-- Whether the cell shares no case.
abbrev is_apart : Cell → Bool
is_apart cell = (discordant cell == 0) && (cell.unchanged == 0)

cell_of-left : (name : String) (d : List (String × Bool)) → is_apart (cell_of name [] d) ≡ true
unfolding count_pairs shared
cell_of-left name d = refl

cell_of-right : (name : String) (d : List (String × Bool)) → is_apart (cell_of name d []) ≡ true
cell_of-right name d =
    rw (count_pairs-nil true false d, count_pairs-nil false true d, shared-nil d) refl

module _ (ms : Measures) (held : List Row) (name_i name_c : String) where
  summary_over-none :
      (name : String) (rows : List Row) → summary_over ms name rows ≡ none → rows ≡ []
  summary_over-none name [] h = refl
  summary_over-none name (r ∷ rs) h = absurd cc

  head_to_head-left :
      summary ms held name_i ≡ none → is_apart (head_to_head held name_i name_c) ≡ true
  unfolding head_to_head
  head_to_head-left h =
      let no_pass =
        passes_from-nil name_i [] held (summary_over-none name_i (own_rows name_i held) h) in
      rw no_pass (cell_of-left name_c (passes_from name_c [] held))

  head_to_head-right :
      summary ms held name_c ≡ none → is_apart (head_to_head held name_i name_c) ≡ true
  unfolding head_to_head
  head_to_head-right h =
      let no_pass =
        passes_from-nil name_c [] held (summary_over-none name_c (own_rows name_c held) h) in
      rw no_pass (cell_of-right name_c (passes_from name_i [] held))

  gates-is_apart :
      (a b : Summary)
      → is_apart (head_to_head held name_i name_c) ≡ true
      → (gates ms a b held name_i name_c).0 ≡ false
  unfolding gates paired_p
  gates-is_apart a b h = ground arith

  gates-is_empty :
      (a b : Summary) → is_empty held ≡ true → (gates ms a b held name_i name_c).0 ≡ false
  unfolding gates
  gates-is_empty a b h = ground arith

  -- The decision by summaries over the rows that are read.
  abbrev by_summaries : Option Summary → Option Summary → Bool
  by_summaries none b = false
  by_summaries (some a) none = false
  by_summaries (some a) (some b) = (gates ms a b held name_i name_c).0

  gates-by_summaries :
      (i c : Summary) (a b : Option Summary)
      → summary ms held name_i ≡ a
      → summary ms held name_c ≡ b
      → (gates ms (or_else a i) (or_else b c) held name_i name_c).0 ≡ by_summaries a b
  gates-by_summaries i c none b e f = gates-is_apart i (or_else b c) (head_to_head-left e)
  gates-by_summaries i c (some a) none e f = gates-is_apart a c (head_to_head-right f)
  gates-by_summaries i c (some a) (some b) e f = refl

  -- The decision as a function of the rows that are read and the two names.
  abbrev on_held : Bool
  on_held = not (is_empty held) && by_summaries (summary ms held name_i) (summary ms held name_c)

module _ (ms : Measures) where
  decide-on_held :
      (incumbent challenger : Summary) (rows : List Row) (split : Split) (plan : Option Plan)
      → (decide ms incumbent challenger rows (some split) plan).adopt
        ≡ on_held ms (rows_on split on_holdout rows) incumbent.candidate challenger.candidate
  unfolding decide
  decide-on_held incumbent challenger [] split plan =
      gates-is_empty ms [] incumbent.candidate challenger.candidate incumbent challenger refl
  decide-on_held incumbent challenger (r ∷ rs) split plan =
      let held = rows_on split on_holdout (r ∷ rs) in
      let name_i = incumbent.candidate in
      let name_c = challenger.candidate in
      let a = summary ms held name_i in
      let b = summary ms held name_c in
      elim (Bool-cases (is_empty held)) [
        | inl e ↦
            gates-is_empty ms held name_i name_c (or_else a incumbent) (or_else b challenger) e
            ∙ sym (rw e refl)
        | inr e ↦
            gates-by_summaries ms held name_i name_c incumbent challenger a b refl refl
            ∙ sym (rw e refl)
      ]

  -- With a split, only the holdout's rows bear on the adoption: two runs of the same two candidates
  -- whose rows agree there are decided alike, whatever their rows on the dev side and outside the
  -- split, their summaries over the whole run, and the plans.
  pub decide-holdout :
      (i c i' c' : Summary) (before after : List Row) (split : Split) (plan plan' : Option Plan)
      → i.candidate ≡ i'.candidate
      → c.candidate ≡ c'.candidate
      → rows_on split on_holdout before ≡ rows_on split on_holdout after
      → (decide ms i c before (some split) plan).adopt
        ≡ (decide ms i' c' after (some split) plan').adopt
  decide-holdout i c i' c' before after split plan plan' same_i same_c same =
      decide-on_held i c before split plan
      ∙ ap (λ held. on_held ms held i.candidate c.candidate) same
      ∙ ap (λ n. on_held ms (rows_on split on_holdout after) n c.candidate) same_i
      ∙ ap (λ n. on_held ms (rows_on split on_holdout after) i'.candidate n) same_c
      ∙ sym (decide-on_held i' c' after split plan')
