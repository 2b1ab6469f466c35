-- ===== src/Holdout.antt =====
-- harness/holdout.py: a lane's cases split into a holdout and a dev side by a draw. A draw is the
-- natural number below 16 ^ 12 that the hash gives; the hash and the order of texts are parameters.
pub mod Sides
pub mod Examples
use Prim.Native.Char.{code}
use localharness.Prelude.{
  ℕ, zero, suc, ◌+◌, ◌-◌, ◌*◌, ◌^◌, min, max, Bool, true, false, ◌&&◌, ◌||◌, not, Option, none,
  some, List, [], ◌∷◌, map, String, ltb, leb, ◌==◌, length, take, drop, str_eq, if◌then◌else◌,
}
use localharness.Prelude.Sort.{sorted}
use localharness.Table.{select}

-- MIN_HOLDOUT, MIN_DEV
abbrev pub min_holdout : ℕ
min_holdout = 3

abbrev pub min_dev : ℕ
min_dev = 3

pub record Split : Type 0 where
  pub lane : String
  pub dev : List String
  pub holdout : List String
  pub too_small : Bool

-- The text before the first "#".
unfoldable pub base_id : String → String
base_id String.[] = String.[]
base_id (String.◌∷◌ c s) = if code c == 35 then String.[] else String.◌∷◌ c (base_id s)

abbrev pub is_in : String → List String → Bool
is_in x [] = false
is_in x (y ∷ ys) = str_eq x y || is_in x ys

-- `Split.side`; `neither` is the empty text.
pub data Side : Type 0 where
  on_holdout on_dev neither : Side

unfoldable pub side : Split → String → Side
unfolding base_id
side s case_id =
    if is_in (base_id case_id) s.holdout
    then on_holdout
    else if is_in (base_id case_id) s.dev
    then on_dev
    else neither

-- `d < FRACTION`, which is 0.3.
abbrev pub is_under : ℕ × String → Bool
is_under d = ltb (d.0 * 10) (3 * 16 ^ 12)

module _ (text_before : String → String → Bool) where
  abbrev pub drawn_before : ℕ × String → ℕ × String → Bool
  drawn_before a b = ltb a.0 b.0 || ((a.0 == b.0) && text_before a.1 b.1)

  abbrev pub drawn_ids : List (ℕ × String) → List String
  drawn_ids draws = map (λ d. d.1) (sorted drawn_before draws)

  -- How many of the ids, in the order drawn, are held out.
  abbrev pub held_out : List (ℕ × String) → ℕ
  held_out draws =
      min (max (length (select is_under draws)) min_holdout) (length (drawn_ids draws) - min_dev)

  -- `assign`, from the draw and the id of each case.
  unfoldable pub assign : String → List (ℕ × String) → Split
  assign lane draws =
      let ids = drawn_ids draws in
      if ltb (length ids) (min_holdout + min_dev)
      then record {
        lane = lane;
        dev = sorted text_before ids;
        holdout = sorted text_before ids;
        too_small = true;
      }
      else record {
        lane = lane;
        dev = sorted text_before (drop (held_out draws) ids);
        holdout = sorted text_before (take (held_out draws) ids);
        too_small = false;
      }
