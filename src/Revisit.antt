-- ===== src/Revisit.antt =====
-- harness/memory_store/revisit.py: verdicts whose condition a machine now meets, and their
-- retraction. Amounts are natural numbers of one unit, and `number` reads one from a text as float()
-- does, and `strip` is str.strip; digits are those of ASCII.
pub mod Kept
pub mod Examples
use Prim.Native.Char.{Char, code}
use Prim.Native.String.{◌++◌ as str_append}
use text.Mathlib.Text.{starts_with}
use localharness.Prelude.{
  ℕ, ◌+◌, ◌-◌, ◌*◌, Bool, true, false, ◌&&◌, ◌||◌, not, Option, none, some, List, [], ◌∷◌, ◌++◌,
  String, ltb, leb, ◌==◌, str_eq, if◌then◌else◌, or_else,
}
use localharness.Text.{before_char, after_char, has_char, split, colon, comma, dot, above, bar}
use localharness.Dict.{lookup}
use localharness.Ladder.{Outcome, queued, inspect, Tier, retraction, in_terminal, is_terminal}
use localharness.Ladder.Store.{Row, Verdict, Proposal, Db, find_verdict}
use localharness.Ladder.Decide.{Decided, decided, retract}

abbrev pub is_digit : Char → Bool
is_digit c = leb 48 (code c) && leb (code c) 57

-- int(s) where s.isdigit(): a digit at least, and nothing else.
unfoldable pub digits_from : ℕ → String → Option ℕ
digits_from n String.[] = some n
digits_from n (String.◌∷◌ x s) =
    let rest = digits_from (10 * n + (code x - 48)) s in if is_digit x then rest else none

unfoldable pub digits : String → Option ℕ
unfolding digits_from
digits String.[] = none
digits (String.◌∷◌ x s) = digits_from 0 (String.◌∷◌ x s)

abbrev pub all_digits : List String → Option (List ℕ)
all_digits [] = some []
all_digits (w ∷ ws) = elim (digits w) [
  | none ↦ none
  | some n ↦ elim (all_digits ws) [ none ↦ none | some ns ↦ some (n ∷ ns) ]
]

unfoldable pub version_tuple : Option String → Option (List ℕ)
unfolding split digits
version_tuple v = all_digits (split dot (or_else v ""))

-- Python's order of tuples of integers.
unfoldable pub tuple_ltb : List ℕ → List ℕ → Bool
tuple_ltb [] [] = false
tuple_ltb [] (b ∷ bs) = true
tuple_ltb (x ∷ xs) [] = false
tuple_ltb (x ∷ xs) (y ∷ ys) = let rest = tuple_ltb xs ys in ltb x y || ((x == y) && rest)

abbrev pub is_newer : Option (List ℕ) → Option (List ℕ) → Bool
is_newer (some a) (some b) = tuple_ltb b a
is_newer _ _ = false

-- The order of texts, by code point.
unfoldable pub text_ltb : String → String → Bool
text_ltb String.[] String.[] = false
text_ltb String.[] (String.◌∷◌ y t) = true
text_ltb (String.◌∷◌ x s) String.[] = false
text_ltb (String.◌∷◌ x s) (String.◌∷◌ y t) =
    let rest = text_ltb s t in ltb (code x) (code y) || ((code x == code y) && rest)

-- The shape of _ISO_DATE: `d` stands for a digit.
unfoldable pub matches : String → String → Bool
matches String.[] s = true
matches (String.◌∷◌ d t) String.[] = false
matches (String.◌∷◌ d t) (String.◌∷◌ x s) =
    let rest = matches t s in (if code d == 100 then is_digit x else code x == code d) && rest

abbrev pub is_iso_date : String → Bool
unfolding matches
is_iso_date s = matches "dddd-dd-dd" s

-- What a machine, and an upstream, are known by. `limits` is the dict of the facts or, where they
-- have none, the harness's own.
pub record Facts : Type 0 where
  pub runtimes : String
  pub memory_gb : Option ℕ
  pub ceiling_gb : Option ℕ
  pub versions : List (String × String)
  pub limits : List (String × ℕ)
  pub last_commit : String

abbrev pub is_member : String → List String → Bool
is_member w [] = false
is_member w (x ∷ xs) = str_eq w x || is_member w xs

abbrev pub is_any_member : List String → List String → Bool
is_any_member [] have = false
is_any_member (w ∷ ws) have = is_member w have || is_any_member ws have

abbrev pub exceeds : Option ℕ → Option ℕ → Bool
exceeds (some a) (some b) = ltb b a
exceeds _ _ = false

module _ (strip : String → String) (number : String → Option ℕ) where
  unfoldable pub until_met : String → Facts → Bool
  unfolding before_char after_char has_char split version_tuple text_ltb lookup
  until_met until facts =
      let key = before_char colon until in
      let want = after_char colon until in
      let amount =
        starts_with want ">"
        && exceeds
            (some
              (or_else (if str_eq key "memory_gb" then facts.memory_gb else facts.ceiling_gb) 0))
            (number (after_char above want)) in
      let version =
        is_newer (version_tuple (lookup (before_char above want) facts.versions))
          (version_tuple (some (after_char above want))) in
      let limit =
        exceeds (lookup (before_char above want) facts.limits) (number (after_char above want)) in
      let seen = strip facts.last_commit in
      let later = is_iso_date seen && (is_iso_date want && text_ltb want seen) in
      if str_eq until ""
      then false
      else if str_eq key "runtime"
      then is_any_member (split bar want) (split comma facts.runtimes)
      else if str_eq key "memory_gb" || str_eq key "ceiling_gb"
      then amount
      else if str_eq key "version"
      then has_char above want && version
      else if str_eq key "limit"
      then has_char above want && limit
      else if str_eq key "commit_after"
      then later
      else false

  -- One row of the query: a name, and the condition that its verdict waits on.
  pub record Waiting : Type 0 where
    pub name : String
    pub outcome : Outcome
    pub until : String

  abbrev pub waiting_of : Facts → Proposal → Option Verdict → List Waiting
  unfolding until_met
  waiting_of facts p none = []
  waiting_of facts p (some v) =
      if not (str_eq v.until "") && (is_terminal v.outcome && until_met v.until facts)
      then record { name = p.name; outcome = v.outcome; until = v.until } ∷ []
      else []

  abbrev pub revisitable_in : Facts → List Verdict → List Proposal → List Waiting
  unfolding until_met
  revisitable_in facts vs [] = []
  revisitable_in facts vs (p ∷ ps) =
      waiting_of facts p (find_verdict p.state_verdict_id vs) ++ revisitable_in facts vs ps

  unfoldable pub revisitable : Facts → Db → List Waiting
  unfolding until_met
  revisitable facts db = revisitable_in facts db.verdicts db.proposals

  module _ (machine : Option ℕ) (others : ℕ → Db → Db) (now : ℕ) where
    abbrev pub retracted_row : Waiting → Row
    retracted_row r = record {
      outcome = queued;
      tier = inspect;
      detail = str_append (str_append "retracted: " r.until) " is met here";
      run_path = "";
      run_id = none;
      score = none;
      decided_at = now;
      until = "";
      machine_id = machine;
      candidate_id = none;
      reason = "";
    }

    abbrev pub named_so_far : String → Option (List String) → Option (List String)
    named_so_far name none = none
    named_so_far name (some names) = some (name ∷ names)

    -- What a round leaves, from what `decide` did and what the rounds after it would leave.
    abbrev pub one_more :
        String → Decided → Option (List String) × Db → Db → Option (List String) × Db
    one_more name (decided vid) (names, after) db = (named_so_far name names, after)
    one_more name _ rest db = (none, db)

    -- The loop of requeue_revisitable; none where a retraction raises, which ends it.
    unfoldable pub requeue_rows : List Waiting → Db → Option (List String) × Db
    unfolding retract
    requeue_rows [] db = (some [], db)
    requeue_rows (r ∷ rs) db =
        let (d, db') = retract others r.name (retracted_row r) false db in
        let (names, db'') = requeue_rows rs db' in one_more r.name d (names, db'') db'

    unfoldable pub requeue_revisitable : Facts → Db → Option (List String) × Db
    unfolding revisitable requeue_rows
    requeue_revisitable facts db = requeue_rows (revisitable facts db) db
