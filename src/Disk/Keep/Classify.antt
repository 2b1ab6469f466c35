-- ===== src/Disk/Keep/Classify.antt =====
-- `_classify` of harness/disk.py: which group an entry is in, by the keepers, its download row and
-- the verdict on its proposals.
use Prim.Native.String.{◌++◌ as append}
use localharness.Prelude.{
  ℕ, Bool, true, false, Option, none, some, List, [], ◌∷◌, ◌++◌, map, String, str_eq, ltb, ◌==◌,
  if◌then◌else◌,
}
use localharness.Prelude.Sort.{sorted}
use localharness.Newest.{last_of}
use localharness.Dict.{lookup, put}
use localharness.Lanes.{is_in, canonical}
use localharness.Revisit.{text_ltb}
use localharness.Ladder.{
  Outcome, Tier, measured, declined, broken, ignored, screened, inspect, judge, fetch, screen,
  measure, adopt,
}
use localharness.Ladder.Tier.{other}
use localharness.Downloads.{Download, hub, gguf}
use localharness.Disk.{Blob, Inventory, Entry, Group, keep, rejected, unknown, unrecorded_text}
use localharness.Disk.Group.{queued}
use localharness.Disk.Keep.{Python, Keepers, stem}

-- A proposal's state and the verdict that set it.
pub record Latest : Type 0 where
  pub name : String
  pub pid : ℕ
  pub lane : String
  pub id : ℕ
  pub outcome : Outcome
  pub tier : Tier
  pub decided_at : ℕ

abbrev pub outcome_text : Outcome → String
outcome_text measured = "measured"
outcome_text declined = "declined"
outcome_text broken = "broken"
outcome_text Outcome.queued = "queued"
outcome_text ignored = "ignored"
outcome_text screened = "screened"

abbrev pub tier_text : Tier → String
tier_text inspect = "inspect"
tier_text judge = "judge"
tier_text fetch = "fetch"
tier_text screen = "screen"
tier_text measure = "measure"
tier_text adopt = "adopt"
tier_text (other t) = t

-- FETCHED_TIERS
abbrev pub is_fetched : Tier → Bool
is_fetched inspect = false
is_fetched judge = false
is_fetched (other _) = false
is_fetched _ = true

abbrev pub at_tier : Latest → String
at_tier v = append (outcome_text v.outcome) (append " at " (tier_text v.tier))

abbrev pub group_of : Outcome → Bool → Group
group_of measured f = keep
group_of Outcome.queued f = queued
group_of screened f = queued
group_of broken true = rejected
group_of declined true = rejected
group_of _ _ = unknown

-- The group and its reason: why it is kept, whether it has no row, and the last verdict.
abbrev pub decide_group : Option String → Bool → Option Latest → Group × String
decide_group (some why) unrecorded last = (keep, why)
decide_group none true last = (unknown, unrecorded_text)
decide_group none false none = (unknown, "no alias, no verdict, not tooling")
decide_group none false (some v) = (group_of v.outcome (is_fetched v.tier), at_tier v)

-- The first of two answers that is there.
abbrev pub or_why : Option String → Option String → Option String
or_why none b = b
or_why (some a) b = some a

abbrev pub first_kept : List (String × String) → List String → Option String
first_kept d [] = none
first_kept d (s ∷ ss) = or_why (lookup s d) (first_kept d ss)

-- `by_pid.get(pid)`: the last row of the proposal.
abbrev pub by_pid : List Latest → ℕ → Option Latest
by_pid rows pid = last_of (λ r. r.pid == pid) rows

abbrev pub found : List Latest → List ℕ → List Latest
found rows [] = []
found rows (i ∷ is) = elim (by_pid rows i) [ some r ↦ r ∷ found rows is | none ↦ found rows is ]

-- `max(seen, key=id)`
abbrev pub newest_of : List Latest → Option Latest
newest_of [] = none
newest_of (r ∷ rs) = elim (newest_of rs) [
  | none ↦ some r
  | some s ↦ if ltb r.id s.id then some s else some r
]

abbrev pub lane_of : Option Latest → String
lane_of none = ""
lane_of (some r) = r.lane

abbrev pub or_blank : List String → List String
or_blank [] = "" ∷ []
or_blank (x ∷ xs) = x ∷ xs

abbrev pub semicolons : List String → String
semicolons [] = ""
semicolons (r ∷ []) = r
semicolons (r ∷ rs) = append r (append "; " (semicolons rs))

abbrev pub values : List (String × String) → List String
values [] = []
values ((k, v) ∷ d) = v ∷ values d

abbrev pub pair_before : String × String → String × String → Bool
pair_before a b = text_ltb a.0 b.0

module _ (py : Python) where
  -- `_lane_kept`, where the keepers have a lane.
  abbrev pub lane_seen : Keepers → List String → Option String
  lane_seen k seen = or_why (first_kept k.lanes (sorted text_ltb seen)) (
      if is_in "" seen
      then some
          (append "no lane recorded while " (semicolons (values (sorted pair_before k.lanes))))
      else none)

  unfoldable pub lane_kept : List ℕ → Keepers → List Latest → Option String
  lane_kept pids k rows = elim k.lanes [
    | [] ↦ none
    | _ ∷ _ ↦ lane_seen k (or_blank (map (λ i. canonical py.normal (lane_of (by_pid rows i))) pids))
  ]

  -- `_stems`: `name_of` gives a path's last part.
  abbrev pub entry_stems : (String → String) → Entry → List String
  entry_stems name_of e =
      map (λ p. stem py (name_of p)) e.links
      ++ elim e.kind [ gguf ↦ stem py e.name ∷ [] | hub ↦ [] ]

  abbrev pub repo_kept : Keepers → String → Option String
  repo_kept k repo = if str_eq repo "" then none else lookup (py.lower repo) k.repos

  unfoldable pub why_kept : (String → String) → Entry → Keepers → List Latest → Option String
  why_kept name_of e k rows =
      or_why (repo_kept k e.repo)
        (or_why (first_kept k.stems (entry_stems name_of e)) (lane_kept e.proposal_ids k rows))

  abbrev pub with_group : Entry → Option Latest → Group × String → Entry
  with_group e last got = record {
    kind = e.kind;
    path = e.path;
    name = e.name;
    repo = e.repo;
    size = e.size;
    mtime = e.mtime;
    group = got.0;
    why = got.1;
    outcome = elim last [ some v ↦ some v.outcome | none ↦ e.outcome ];
    tier = elim last [ some v ↦ v.tier | none ↦ e.tier ];
    decided_at = elim last [ some v ↦ v.decided_at | none ↦ e.decided_at ];
    verdict_id = elim last [ some v ↦ some v.id | none ↦ e.verdict_id ];
    links = e.links;
    download_id = e.download_id;
    proposal_ids = e.proposal_ids;
    unrecorded = e.unrecorded;
  }

  -- `_classify`. A reason that the keepers hold is never the empty text.
  unfoldable pub classify_entry : (String → String) → Entry → Keepers → List Latest → Entry
  classify_entry name_of e k rows =
      let last = newest_of (found rows e.proposal_ids) in
      with_group e last (decide_group (why_kept name_of e k rows) e.unrecorded last)

  abbrev pub named_in : List Latest → List (String × Latest) → List (String × Latest)
  named_in [] out = out
  named_in (r ∷ rs) out = named_in rs (put (py.lower r.name) r out)

  -- `latest_verdicts(conn).values()` from the query's rows in the order of the verdicts.
  unfoldable pub latest_verdicts : List Latest → List Latest
  latest_verdicts rows = map (λ p. p.1) (named_in rows [])

  -- `inventory`: `scanned` is what `_scan` found, with its rows; `stored` is whether there is a store.
  unfoldable pub inventory :
      (String → String)
      → Bool
      → String
      → String
      → List Entry
      → List Blob
      → Keepers
      → List Latest
      → List Download
      → Inventory
  inventory name_of stored root ggufs scanned incomplete k rows missing =
      let verdicts = if stored then latest_verdicts rows else [] in
      record {
        hub = root;
        gguf = ggufs;
        entries = map (λ e. classify_entry name_of e k verdicts) scanned;
        incomplete = incomplete;
        problems = (if stored then [] else "no discovery store" ∷ []) ++ k.problems;
        gone = if stored then missing else [];
      }
