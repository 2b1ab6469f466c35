-- ===== src/Downloads/Examples.antt =====
-- Tests and concrete instances for harness/downloads.py.
use localharness.Prelude.{
  ℕ, max, ◌≡◌, refl, true, false, none, some, List, [], ◌∷◌, String, length, str_eq,
}
use localharness.Table.{max_id, find_row, update_row}
use localharness.Downloads.{
  hub, fetch, Download, Disk, begun, live, start, finish, removed, have, complete_rows, in_flight,
  drift,
}
use localharness.Downloads.Life.{start_lem, have_lem}

program : Unit {0}
unfolding max_id find_row update_row live start finish removed have complete_rows in_flight drift
program = tt

abbrev lower : String → String
lower s = s

abbrev disk : Disk
disk = record {
  exists = λ p. str_eq p "/hub/m";
  loadable = λ k p. str_eq p "/hub/m";
  measure = λ k p. (7, 2);
  requires_in = λ p r. [];
}

abbrev one_row : List Download
one_row = begun 3 1 100 "org/m" hub "/hub/m" "" fetch ∷ []

started_twice : (start lower 1 200 "org/m" hub "/hub/m" "" fetch one_row).0 ≡ 3
unfolding program
started_twice = refl

nothing_live : live lower 1 none (some hub) (some "/hub/m") [] ≡ []
unfolding program
nothing_live = refl

start_lem_example :
    length (
      live lower 1 none
        (some hub)
        (some "/hub/m")
        (start lower 1 200 "org/m" hub "/hub/m" "" fetch one_row).1)
    ≡ max 1 (length (live lower 1 none (some hub) (some "/hub/m") one_row))
start_lem_example = start_lem lower 1 200 "org/m" hub "/hub/m" "" fetch one_row

have_lem_example :
    let begun_ : ℕ × List Download = start lower 1 100 "org/m" hub "/hub/m" "" fetch [] in
    (after : List Download) × (finish disk 160 begun_.0 none false begun_.1 ≡ some after)
    × (have lower 1 disk true "org/m" after ≡ true)
have_lem_example =
    have_lem lower 1 disk true 100 160 "org/m" hub "/hub/m" "" fetch [] nothing_live refl refl
