-- ===== src/Gateway/Switch.antt =====
-- The switch of harness/gateway_switch.py: regenerate the served config and restart, up to three
-- times, record every attempt, and put the old config back when none took.
pub mod Answers
pub mod Restored
use localharness.Prelude.{
  ℕ, zero, suc, ◌+◌, ◌-◌, Bool, true, false, ◌&&◌, not, Option, none, some, is_none, List, [], ◌∷◌,
  ◌++◌, map, String, leb, ◌==◌, str_eq, if◌then◌else◌,
}
use localharness.Dict.{lookup, put}
use localharness.Gateway.{Got, Outcome, switched, failed, Row, old_spec}

-- What GET /model/info comes to: the served model of each alias, or why there is none.
pub data Info : Type 0 where
  no_answer not_json : Info
  bad_status : ℕ → Info
  serving : List (String × String) → Info

-- Why the gateway does not serve what is wanted; the first reason of `not_serving` that applies.
pub data Trouble : Type 0 where
  unanswered not_its_json restart_failed : Trouble
  http : ℕ → Trouble
  wrong : List (String × String) → Trouble

abbrev is_text : Option String → String → Bool
is_text none model = false
is_text (some t) model = str_eq t model

-- The wanted aliases that are not served with their model.
unfoldable pub wrong_aliases :
    List (String × String) → List (String × String) → List (String × String)
wrong_aliases served [] = []
wrong_aliases served ((alias, model) ∷ want) =
    let rest = wrong_aliases served want in
    if is_text (lookup alias served) model then rest else (alias, model) ∷ rest

abbrev trouble_of : List (String × String) → Option Trouble
trouble_of [] = none
trouble_of (w ∷ ws) = some (wrong (w ∷ ws))

unfoldable pub not_serving : Info → List (String × String) → Option Trouble
unfolding wrong_aliases
not_serving no_answer want = some unanswered
not_serving not_json want = some not_its_json
not_serving (bad_status n) want = some (http n)
not_serving (serving served) want = trouble_of (wrong_aliases served want)

-- `_await_serving` over the answers it gets up to its deadline, the last of them being the one
-- read at or after the deadline.
unfoldable pub await_serving : List Info → List (String × String) → Option Trouble
unfolding not_serving
await_serving [] want = some unanswered
await_serving (i ∷ []) want = not_serving i want
await_serving (i ∷ j ∷ is) want =
    let rest = await_serving (j ∷ is) want in
    elim (not_serving i want) [ none ↦ none | some t ↦ rest ]

-- What the machine's files and the store hold: the served config's text, the switches, and how
-- often the gateway was restarted.
pub record Machine : Type 0 where
  pub file : Option String
  pub rows : List Row
  pub restarts : ℕ

-- What one attempt meets outside: the text `write_served` writes, the lanes' adopted specs, the
-- wait's answer, whether the restart worked, what the gateway then serves, and a clock reading.
pub record Attempt : Type 0 where
  pub text : String
  pub defaults : List (String × String)
  pub got : Got
  pub restarted : Bool
  pub infos : List Info
  pub later : ℕ

abbrev pub or_blank : Option String → String
or_blank none = ""
or_blank (some t) = t

abbrev pub settle {ℓ} : {A : Type ℓ} → Option Trouble → A → (Trouble → A) → A
settle none taken go = taken
settle (some t) taken go = go t

module _ {Params : Type 0} (params_eq : Params → Params → Bool) (model_of : Params → String)
    (load : Option String → List (String × Params)) (alias : String → String)
    (say : Trouble → String) where
  abbrev is_same : Option Params → Params → Bool
  is_same none p = false
  is_same (some q) p = params_eq p q

  -- The lanes whose alias changed: its adopted spec and its new model.
  unfoldable pub moved_lanes :
      List (String × String)
      → List (String × Params)
      → List (String × Params)
      → List (String × String × String)
  moved_lanes defaults old [] = []
  moved_lanes defaults old ((lane, p) ∷ new) =
      let rest = moved_lanes defaults old new in
      if is_same (lookup lane old) p
      then rest
      else (lane, or_blank (lookup lane defaults), model_of p) ∷ rest

  abbrev old_model : String → List (String × Params) → String
  old_model lane old = elim (lookup lane old) [ none ↦ "" | some p ↦ model_of p ]

  abbrev pub row_of :
      List (String × Params) → Got → ℕ → Outcome → String → List Row → String → String → Row
  row_of old got requested_at outcome reason rows lane spec = record {
    lane = lane;
    old_spec = old_spec rows lane (old_model lane old);
    new_spec = spec;
    how = got.how;
    requested_at = requested_at;
    switched_at = got.switched_at;
    in_flight_then = got.busy;
    outcome = outcome;
    reason = reason;
  }

  -- `_record`: the table with a row for each moved lane behind it.
  unfoldable pub record_rows :
      List (String × Params)
      → Got
      → ℕ
      → Outcome
      → String
      → List (String × String × String)
      → List Row
      → List Row
  record_rows old got requested_at outcome reason [] rows = rows
  record_rows old got requested_at outcome reason ((lane, spec, model) ∷ moved) rows =
      record_rows old got requested_at outcome reason moved
        (rows ++ row_of old got requested_at outcome reason rows lane spec ∷ [])

  abbrev pub want_of : List (String × String × String) → List (String × String)
  want_of moved = map (λ m. (alias m.0, m.2)) moved

  unfoldable pub why_of : Attempt → List (String × String × String) → Option Trouble
  why_of a moved =
      if a.restarted then await_serving a.infos (want_of moved) else some restart_failed

  abbrev pub moved_in : List (String × Params) → Attempt → List (String × String × String)
  moved_in old a = moved_lanes a.defaults old (load (some a.text))

  abbrev pub late : Attempt → Got
  late a = record { how = a.got.how; busy = a.got.busy; switched_at = a.later; round = a.got.round }

  abbrev written : Attempt → Machine → Machine
  written a m = record { file = some a.text; rows = m.rows; restarts = suc m.restarts }

  abbrev with_rows : List Row → Machine → Machine
  with_rows rows m = record { file = m.file; rows = rows; restarts = m.restarts }

  abbrev restored : Option String → Machine → Machine
  restored none m = m
  restored (some text) m = record { file = some text; rows = m.rows; restarts = suc m.restarts }

  -- The attempts that are left, and whether one of them took.
  unfoldable pub attempts :
      Option String → List (String × Params) → ℕ → List Attempt → Machine → Bool × Machine
  unfolding moved_lanes record_rows why_of
  attempts before old requested_at [] m = (false, restored before m)
  attempts before old requested_at (a ∷ more) m =
      let moved = moved_in old a in
      let tried = written a m in
      let rest = attempts before old requested_at more in
      settle (why_of a moved)
        (true, with_rows (record_rows old a.got requested_at switched "" moved m.rows) tried)
        (λ t.
          rest
            (with_rows (record_rows old (late a) requested_at failed (say t) moved m.rows) tried))

  abbrev covers : List (String × Params) → List (String × Params) → Bool
  covers [] d = true
  covers ((lane, p) ∷ c) d = is_same (lookup lane d) p && covers c d

  -- Two alias maps are equal when each has the entries of the other.
  abbrev pub same_aliases : List (String × Params) → List (String × Params) → Bool
  same_aliases c d = covers c d && covers d c

  -- `switch` with the three attempts it may make; `fresh` is what the served config would say.
  unfoldable pub switch :
      List (String × Params) → ℕ → Attempt → Attempt → Attempt → Machine → Bool × Machine
  unfolding attempts
  switch fresh requested_at a b c m =
      let old = load m.file in
      if same_aliases fresh old
      then (false, m)
      else attempts m.file old requested_at (a ∷ b ∷ c ∷ []) m
