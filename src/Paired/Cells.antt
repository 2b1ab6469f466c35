-- ===== src/Paired/Cells.antt =====
-- The cells of harness/paired.py partition the cases that both sides ran.
use localharness.Prelude.{ℕ, ◌+◌, ◌≤◌, ◌≡◌, Bool, true, false, Option, List, [], ◌∷◌, String, arith}
use localharness.Dict.{lookup}
use localharness.Paired.{
  Row, count_pairs, shared, counted, is_shared, passes_from, head_to_head, cell_across,
  indexed_from, count_cells, shared_cells, lookup_cell,
}

counted-le :
    (v : Bool) (w : Option Bool) → counted true false v w + counted false true v w ≤ is_shared w
counted-le v w = ground arith

count_pairs-le :
    (d e : List (String × Bool))
    → count_pairs true false d e + count_pairs false true d e ≤ shared d e
unfolding count_pairs shared
count_pairs-le [] e = omega arith
count_pairs-le ((k, v) ∷ d) e = omega (arith, counted-le v (lookup k e), count_pairs-le d e)

-- The lost, gained and unchanged cells of a comparison are together the cases that both ran.
pub head_to_head-partition :
    (rows : List Row) (incumbent challenger : String)
    → let c = head_to_head rows incumbent challenger in
      c.lost + c.gained + c.unchanged
      ≡ shared (passes_from incumbent [] rows) (passes_from challenger [] rows)
unfolding head_to_head
head_to_head-partition rows incumbent challenger =
    omega (arith, count_pairs-le (passes_from incumbent [] rows) (passes_from challenger [] rows))

cells-le :
    (d e : List ((String × ℕ) × Bool))
    → count_cells true false d e + count_cells false true d e ≤ shared_cells d e
unfolding count_cells shared_cells
cells-le [] e = omega arith
cells-le ((k, v) ∷ d) e = omega (arith, counted-le v (lookup_cell k e), cells-le d e)

-- The lost, gained and unchanged cells of one candidate across two runs are together the cells
-- that both runs have.
pub cell_across-partition :
    (before after : List Row) (name : String)
    → let c = cell_across before after name in
      c.lost + c.gained + c.unchanged
      ≡ shared_cells (indexed_from 0 name before) (indexed_from 0 name after)
unfolding cell_across
cell_across-partition before after name =
    omega (arith, cells-le (indexed_from 0 name before) (indexed_from 0 name after))
