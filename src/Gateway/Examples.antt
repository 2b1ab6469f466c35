-- ===== src/Gateway/Examples.antt =====
-- Tests and concrete instances for harness/gateway_switch.py.
use localharness.Prelude.{
  ℕ, zero, suc, ◌*◌, ◌≤◌, ◌≡◌, ◌⊎◌, refl, Bool, true, false, Option, none, some, List, [], ◌∷◌,
  String, arith, All, length, pos, str_eq,
}
use localharness.Dict.{lookup, put, remove}
use localharness.Table.{select}
use localharness.Gateway.{
  Reply, answered, refused_connection, in_flight, idle, Got, wait_from, wait_then_restart, Outcome,
  switched, failed, Row, unresolved, unresolved_from, attempts_of, last_switched, old_spec,
}
use localharness.Gateway.Wait.{Earned, wait_then_restart_lem}
use localharness.Gateway.Unresolved.{is_failure, since_switch, unresolved_lem}
use localharness.Gateway.Switch.{
  serving, Trouble, Machine, Attempt, switch, same_aliases, attempts, not_serving, wrong_aliases,
  await_serving, moved_lanes, record_rows, why_of,
}
use localharness.Gateway.Switch.Restored.{SomeTook, Failed, IsRestored, switch_lem}

program : Unit {0}
unfolding in_flight wait_from wait_then_restart unresolved unresolved_from lookup put remove
    last_switched old_spec switch attempts not_serving wrong_aliases await_serving moved_lanes
    record_rows why_of
program = tt

-- A clock that gains ten seconds a round, and a gateway busy in its first two rounds.
abbrev clock : ℕ → ℕ
clock n = 10 * n

abbrev reply : ℕ → Reply
reply zero = answered 200 (some (pos 3))
reply (suc zero) = answered 503 (some (pos 1))
reply (suc (suc n)) = refused_connection

wait_then_restart-idle :
    wait_then_restart clock reply 60 1200 20
    ≡ some (record { how = idle; busy = some 0; switched_at = 100; round = 8 })
unfolding program
wait_then_restart-idle = refl

wait_then_restart_lem_example :
    (got : Got) × (wait_then_restart clock reply 60 1200 200 ≡ some got)
    × (got.round ≤ 119)
    × Earned clock reply 60 1200 got
wait_then_restart_lem_example =
    wait_then_restart_lem clock reply 60 1200 119 200 (omega arith) (omega arith)

abbrev row : String → Outcome → Row
row lane outcome = record {
  lane = lane;
  old_spec = "old";
  new_spec = "new";
  how = idle;
  requested_at = 1;
  switched_at = 2;
  in_flight_then = some 0;
  outcome = outcome;
  reason = "";
}

abbrev rows : List Row
rows = row "code" failed ∷ row "code" switched ∷ row "web" failed ∷ row "code" failed ∷ []

unresolved-rows : attempts_of (lookup "code" (unresolved rows)) ≡ 1
unfolding program
unresolved-rows = refl

unresolved_lem_example :
    attempts_of (lookup "code" (unresolved rows))
    ≡ length (select (is_failure "code") (since_switch "code" rows))
unresolved_lem_example = unresolved_lem "code" rows

abbrev params_eq : String → String → Bool
params_eq a b = str_eq a b

abbrev model_of : String → String
model_of p = p

-- A config's text is the model that it gives the code lane.
abbrev load : Option String → List (String × String)
load none = []
load (some text) = ("code", text) ∷ []

abbrev alias : String → String
alias lane = lane

abbrev say : Trouble → String
say t = "it does not serve"

abbrev try_with : String → Attempt
try_with model = record {
  text = "new";
  defaults = ("code", "new") ∷ [];
  got = record { how = idle; busy = some 0; switched_at = 100; round = 8 };
  restarted = true;
  infos = serving (("code", model) ∷ []) ∷ [];
  later = 220;
}

abbrev machine : Machine
machine = record { file = some "old"; rows = []; restarts = 0 }

-- All three attempts fail: the old config is back, and three failures are on record.
switch-fails :
    (r : Bool × Machine) × (switch params_eq model_of load alias say
        (("code", "new") ∷ [])
        1
        (try_with "x")
        (try_with "x")
        (try_with "x")
        machine
      ≡ r)
    × (r.1.file ≡ some "old")
    × (length r.1.rows ≡ 3)
    × (r.1.restarts ≡ 4)
unfolding program
switch-fails = (_, refl, refl, refl, refl)

switch_lem_example :
    let r : Bool × Machine =
      switch params_eq model_of load alias say
        (("code", "new") ∷ [])
        1
        (try_with "x")
        (try_with "new")
        (try_with "new")
        machine in
    let same =
      same_aliases params_eq model_of load alias say (("code", "new") ∷ []) (load (some "old")) in
    let tries : List Attempt = try_with "x" ∷ try_with "new" ∷ try_with "new" ∷ [] in
    ((r.0 ≡ true)
      × ((same ≡ false) × SomeTook params_eq model_of load alias say (load (some "old")) r.1 tries))
    ⊎ ((r.0 ≡ false)
        × (((same ≡ true) × (r.1 ≡ machine))
            ⊎ (All (Failed params_eq model_of load alias say (load (some "old"))) tries
                × IsRestored params_eq model_of load alias say (some "old") (some "new") r.1.file)))
switch_lem_example =
    switch_lem params_eq model_of load alias say (("code", "new") ∷ []) 1 (try_with "x")
      (try_with "new") (try_with "new") machine
