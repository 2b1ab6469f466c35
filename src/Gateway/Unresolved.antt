-- ===== src/Gateway/Unresolved.antt =====
-- The failures since a lane's last good switch, in harness/gateway_switch.py.
use localharness.Prelude.{
  ℕ, suc, ◌+◌, length, ◌≡◌, refl, Bool, false, ◌&&◌, not, List, [], ◌∷◌, String, arith, str_eq,
  str_eq_iff, if◌then◌else◌,
}
use localharness.Dict.{lookup, put, remove, lookup-put, lookup-remove}
use localharness.Table.{select, is_any}
use localharness.Gateway.{Row, took, Failing, attempts_of, unresolved, unresolved_from}

abbrev pub is_switch : String → Row → Bool
is_switch lane r = took r.outcome && str_eq r.lane lane

abbrev pub is_failure : String → Row → Bool
is_failure lane r = not (took r.outcome) && str_eq r.lane lane

lookup-nil : (lane : String) → attempts_of (lookup lane []) ≡ 0
unfolding lookup
lookup-nil lane = refl

abbrev failing : Row → ℕ → Failing
failing r n = record { new_spec = r.new_spec; reason = r.reason; at = r.switched_at; attempts = n }

-- The rows after the last switch of a lane that took, all rows where none did.
unfoldable pub since_switch : String → List Row → List Row
since_switch lane [] = []
since_switch lane (r ∷ rs) =
    let later = since_switch lane rs in
    if is_any (is_switch lane) rs then later else if is_switch lane r then rs else r ∷ rs

since_switch-none :
    (lane : String) (rows : List Row)
    → is_any (is_switch lane) rows ≡ false
    → since_switch lane rows ≡ rows
unfolding since_switch
since_switch-none lane [] h = refl
since_switch-none lane (r ∷ rs) h = ground arith

attempts_from :
    (lane : String) (d : List (String × Failing)) (rows : List Row)
    → attempts_of (lookup lane (unresolved_from d rows))
      ≡ (if is_any (is_switch lane) rows then 0 else attempts_of (lookup lane d))
        + length (select (is_failure lane) (since_switch lane rows))
unfolding unresolved_from since_switch
attempts_from lane d [] = omega arith
attempts_from lane d (r ∷ rs) = ground (
  arith,
  str_eq_iff r.lane lane,
  since_switch-none lane rs,
  lookup-remove r.lane lane d,
  lookup-put r.lane lane (failing r (suc (attempts_of (lookup r.lane d)))) d,
  attempts_from lane
      (if took r.outcome
        then remove r.lane d
        else put r.lane (failing r (suc (attempts_of (lookup r.lane d)))) d)
      rs,
)

-- The attempts reported for a lane, 0 where it is not reported, are its failures since its last
-- switch that took.
pub unresolved_lem :
    (lane : String) (rows : List Row)
    → attempts_of (lookup lane (unresolved rows))
      ≡ length (select (is_failure lane) (since_switch lane rows))
unfolding unresolved
unresolved_lem lane rows = ground (arith, attempts_from lane [] rows, lookup-nil lane)
