-- ===== src/Router/Watched.antt =====
-- What a Watch of harness/router.py counts.
use localharness.Prelude.{
  ℕ, ◌+◌, ◌≡◌, refl, ap, Bool, false, ◌&&◌, not, Option, none, some, List, [], ◌∷◌, String, arith,
  length, length-append, Bool-cases, Option-cases, inl, inr, if◌then◌else◌,
}
use localharness.Router.{Watch, look, looked, statuses, status_in, is_holding}

-- The looks of a run: a case, when in it, and the router's answer.
abbrev pub watched : List (String × (String × Option (List (String × String)))) → Watch → Watch
watched [] w = w
watched ((case, (at, answer)) ∷ looks) w = watched looks (look w case at answer)

-- Whether each answer that came shows the model held; one that did not come is left out.
abbrev pub sightings :
    String → List (String × (String × Option (List (String × String)))) → List Bool
sightings model [] = []
sightings model ((case, (at, answer)) ∷ looks) = elim (statuses answer) [
  | none ↦ sightings model looks
  | some d ↦ is_holding (status_in model d) ∷ sightings model looks
]

-- How often a sighting is lost: true, and then false at once.
abbrev pub falls : Bool → List Bool → ℕ
falls held [] = 0
falls held (b ∷ bs) = (if held && not b then 1 else 0) + falls b bs

looked_lem :
    (w : Watch) (case at : String) (d : List (String × String))
    → ((looked w case at (some d)).held ≡ is_holding (status_in w.model d))
      × ((looked w case at (some d)).model ≡ w.model)
      × (length (looked w case at (some d)).swaps
          ≡ length w.swaps + (if w.held && not (is_holding (status_in w.model d)) then 1 else 0))
looked_lem w case at d = elim (Bool-cases (is_holding (status_in w.model d))) [
  | inl e ↦ rw (e, looked) (refl, refl, ground arith)
  | inr e ↦ elim (Bool-cases w.held) [
    | inl h ↦ rw (e, h, looked) (refl, refl, length-append w.swaps _)
    | inr h ↦ rw (e, h, looked) (refl, refl, ground arith)
  ]
]

watched_from :
    (looks : List (String × (String × Option (List (String × String))))) (w : Watch)
    → length (watched looks w).swaps ≡ length w.swaps + falls w.held (sightings w.model looks)
unfolding look
watched_from [] w = ground arith
watched_from ((case, (at, answer)) ∷ looks) w = elim (Option-cases (statuses answer)) [
  | inl n ↦ rw (n, watched, sightings) (watched_from looks w)
  | inr (d, e) ↦
      let v = looked w case at (some d) in
      let (held, model, swaps) = looked_lem w case at d in
      let b = is_holding (status_in w.model d) in
      rw (e, look, sightings, watched)
        (omega (
          arith,
          watched_from looks v,
          swaps,
          ap (λ h. falls h (sightings v.model looks)) held,
          ap (λ m. falls b (sightings m looks)) model,
        ))
]

-- Over any run of looks, the swaps that a watch records are as many as there are sightings of the
-- model as held that the next answered look finds lost, starting from a watch that does not hold it:
-- a look that the router did not answer, and a model that was never held, count nothing.
pub watched_lem :
    (model : String) (looks : List (String × (String × Option (List (String × String)))))
    → length (watched looks record { model = model; swaps = []; held = false }).swaps
      ≡ falls false (sightings model looks)
watched_lem model looks =
    omega (arith, watched_from looks record { model = model; swaps = []; held = false })
