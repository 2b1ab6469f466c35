-- ===== src/Paired.antt =====
-- harness/paired.py: two candidates compared cell by cell, and the exact McNemar test. A
-- probability is a fraction of natural numbers; the source rounds the same fraction to a float.
pub mod Test
pub mod Cells
pub mod Examples
use localharness.Prelude.{
  ℕ, zero, suc, ◌+◌, ◌-◌, ◌*◌, ◌^◌, min, Bool, true, false, ◌&&◌, not, Option, none, some, List, [],
  ◌∷◌, ◌++◌, String, ltb, leb, ◌==◌, str_eq, if◌then◌else◌,
}
use localharness.Dict.{lookup, put}

pub record Ratio : Type 0 where
  pub num : ℕ
  pub den : ℕ

abbrev pub one : Ratio
one = record { num = 1; den = 1 }

-- a ≤ b, by cross multiplication.
abbrev pub ratio_leb : Ratio → Ratio → Bool
ratio_leb a b = leb (a.num * b.den) (b.num * a.den)

-- ALPHA of harness/adopt.py, and the 0.05 of `verdict`.
abbrev pub alpha : Ratio
alpha = record { num = 1; den = 20 }

-- math.comb, by Pascal's rule.
unfoldable pub comb : ℕ → ℕ → ℕ
comb n zero = 1
comb zero (suc k) = 0
comb (suc n) (suc k) = comb n k + comb n (suc k)

-- sum(math.comb(n, i) for i in range(0, k + 1))
unfoldable pub tail : ℕ → ℕ → ℕ
tail n zero = comb n zero
tail n (suc k) = tail n k + comb n (suc k)

abbrev pub capped : Ratio → Ratio
capped p = if leb p.den p.num then one else p

unfoldable pub sign_test : ℕ → ℕ → Ratio
sign_test k n =
    if n == 0 then one else capped (record { num = 2 * tail n (min k (n - k)); den = 2 ^ n })

pub record Cell : Type 0 where
  pub candidate : String
  pub lost : ℕ
  pub gained : ℕ
  pub unchanged : ℕ

abbrev pub discordant : Cell → ℕ
discordant c = c.lost + c.gained

unfoldable pub cell_p : Cell → Ratio
cell_p c = sign_test (min c.lost c.gained) (discordant c)

pub data Finding : Type 0 where
  identical differs no_evidence : Finding

unfoldable pub verdict : Cell → Finding
verdict c =
    if discordant c == 0
    then identical
    else if ratio_leb (cell_p c) alpha
    then differs
    else no_evidence

-- One result row, as far as the comparison reads it.
pub record Row : Type 0 where
  pub candidate : String
  pub case_id : String
  pub passed : Bool

-- {case_id: passed} over one candidate's rows: the last row of a case counts.
unfoldable pub passes_from : String → List (String × Bool) → List Row → List (String × Bool)
passes_from name d [] = d
passes_from name d (r ∷ rs) =
    passes_from name (if str_eq r.candidate name then put r.case_id r.passed d else d) rs

abbrev pub same : Bool → Bool → Bool
same true b = b
same false b = not b

abbrev pub counted : Bool → Bool → Bool → Option Bool → ℕ
counted a b v none = 0
counted a b v (some w) = if same v a && same w b then 1 else 0

-- sum(1 for k in keys if …): the shared keys that have these two values.
unfoldable pub count_pairs : Bool → Bool → List (String × Bool) → List (String × Bool) → ℕ
count_pairs a b [] other = 0
count_pairs a b ((k, v) ∷ d) other = counted a b v (lookup k other) + count_pairs a b d other

abbrev pub is_shared : Option Bool → ℕ
is_shared none = 0
is_shared (some _) = 1

-- len(mine.keys() & theirs.keys())
unfoldable pub shared : List (String × Bool) → List (String × Bool) → ℕ
shared [] other = 0
shared ((k, v) ∷ d) other = is_shared (lookup k other) + shared d other

abbrev pub cell_of : String → List (String × Bool) → List (String × Bool) → Cell
cell_of name mine theirs =
    let lost = count_pairs true false mine theirs in
    let gained = count_pairs false true mine theirs in
    record {
      candidate = name;
      lost = lost;
      gained = gained;
      unchanged = shared mine theirs - lost - gained;
    }

unfoldable pub head_to_head : List Row → String → String → Cell
unfolding passes_from
head_to_head rows incumbent challenger =
    cell_of challenger (passes_from incumbent [] rows) (passes_from challenger [] rows)

-- `_verdicts`: the key of a cell is its case and the index of its row.
unfoldable pub indexed_from : ℕ → String → List Row → List ((String × ℕ) × Bool)
indexed_from i name [] = []
indexed_from i name (r ∷ rs) =
    let rest = indexed_from (suc i) name rs in
    if str_eq r.candidate name then ((r.case_id, i), r.passed) ∷ rest else rest

abbrev key_eq : String × ℕ → String × ℕ → Bool
key_eq a b = str_eq a.0 b.0 && (a.1 == b.1)

unfoldable pub lookup_cell : String × ℕ → List ((String × ℕ) × Bool) → Option Bool
lookup_cell k [] = none
lookup_cell k ((j, v) ∷ d) = if key_eq j k then some v else lookup_cell k d

unfoldable pub count_cells :
    Bool → Bool → List ((String × ℕ) × Bool) → List ((String × ℕ) × Bool) → ℕ
unfolding lookup_cell
count_cells a b [] other = 0
count_cells a b ((k, v) ∷ d) other = counted a b v (lookup_cell k other) + count_cells a b d other

unfoldable pub shared_cells : List ((String × ℕ) × Bool) → List ((String × ℕ) × Bool) → ℕ
unfolding lookup_cell
shared_cells [] other = 0
shared_cells ((k, v) ∷ d) other = is_shared (lookup_cell k other) + shared_cells d other

-- One candidate's cell in `cells`.
unfoldable pub cell_across : List Row → List Row → String → Cell
unfolding indexed_from count_cells shared_cells
cell_across before after name =
    let a = indexed_from 0 name before in
    let b = indexed_from 0 name after in
    let lost = count_cells true false a b in
    let gained = count_cells false true a b in
    record {
      candidate = name;
      lost = lost;
      gained = gained;
      unchanged = shared_cells a b - lost - gained;
    }
