-- ===== src/Router/Examples.antt =====
-- Tests and concrete instances for harness/router.py: a router that is the list of what it holds.
use mathlib.Core.Option.{some-injective}
use localharness.Prelude.{
  ◌≡◌, ◌∙◌, refl, ap, sym, Bool, true, false, ◌&&◌, ◌||◌, not, Option, none, some, List, [], ◌∷◌,
  String, arith, str_eq, str_eq_iff, length, All,
}
use localharness.Dict.{lookup, put}
use localharness.Lanes.{is_in}
use localharness.Router.{Server, statuses, resident, look, release, unload_each, settle}
use localharness.Router.Released.{IsFaithful, holds, release_lem, settle_lem}
use localharness.Router.Watched.{watched, sightings, falls, watched_lem}

program : Unit {0}
unfolding lookup put statuses resident look release unload_each settle
program = tt

-- Two stems, each held or not.
abbrev Pair : Type 0
Pair = Bool × Bool

abbrev word : Bool → String
word true = "loaded"
word false = "unloaded"

abbrev after : Pair → String → Pair
after (a, b) p = (a && not (str_eq p "a"), b && not (str_eq p "b"))

abbrev server : Server Pair
server = record {
  models = λ r. some (("a", word r.0) ∷ ("b", word r.1) ∷ []);
  unload = λ r p. some (after r p);
}

held : (a b : Bool) (q : String) → holds server (a, b) q ≡ (a && str_eq q "a" || b && str_eq q "b")
unfolding program
held true true q = ground arith
held true false q = ground arith
held false true q = ground arith
held false false q = ground arith

server-IsFaithful : IsFaithful server
server-IsFaithful = record {
  unloaded = λ (a, b) s p q e. rw (← some-injective _ _ e) (
      held (a && not (str_eq p "a")) (b && not (str_eq p "b")) q
      ∙ ground (
        arith,
        str_eq_iff p "a",
        str_eq_iff p "b",
        str_eq_iff p q,
        str_eq_iff q "a",
        str_eq_iff q "b",
      )
      ∙ ap (λ h. not (str_eq p q) && h) (sym (held a b q)));
}

released : (release server (some ("a" ∷ [])) true (true, true) ("a" ∷ "b" ∷ [])).1 ≡ "b" ∷ []
unfolding program
released = refl

release_lem_example :
    (holds server (release server (some ("a" ∷ [])) true (true, true) ("a" ∷ "b" ∷ [])).0 "a"
      ≡ holds server (true, true) "a")
    × All
        (λ s. (is_in s ("a" ∷ []) ≡ false) × (true ≡ true))
        (release server (some ("a" ∷ [])) true (true, true) ("a" ∷ "b" ∷ [])).1
release_lem_example =
    release_lem server server-IsFaithful ("a" ∷ []) true (true, true) ("a" ∷ "b" ∷ []) "a" refl

settle_lem_example : holds server (settle server (some ("a" ∷ [])) true (true, true)).0 "b" ≡ false
settle_lem_example =
    settle_lem server server-IsFaithful ("a" ∷ []) (λ r p. (after r p, refl)) (true, true) "b" refl
      refl

abbrev looks : List (String × (String × Option (List (String × String))))
looks =
    ("c1", ("start", some (("m", "loaded") ∷ [])))
    ∷ ("c1", ("end", none))
    ∷ ("c2", ("start", some (("n", "loaded") ∷ [])))
    ∷ []

one_swap : falls false (sightings "m" looks) ≡ 1
unfolding program
one_swap = refl

watched_lem_example :
    length (watched looks record { model = "m"; swaps = []; held = false }).swaps
    ≡ falls false (sightings "m" looks)
watched_lem_example = watched_lem "m" looks
