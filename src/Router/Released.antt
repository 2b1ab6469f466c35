-- ===== src/Router/Released.antt =====
-- What `release` and `settle` of harness/router.py leave in memory. `IsFaithful` is what llama-server
-- documents of an unload: the model that it names goes, and no other.
use localharness.Prelude.{
  ◌≡◌, refl, ap, ◌∙◌, Bool, true, false, ◌&&◌, ◌||◌, not, some, List, [], ◌∷◌, String, arith,
  str_eq, str_eq_iff, All, Bool-cases, Option-cases, inl, inr,
}
use localharness.Table.{select}
use localharness.Lanes.{is_in}
use localharness.Router.{Server, resident, distinct_from, unload_each, release, settle}

module _ {R : Type 0} (server : Server R) where
  -- Whether the router holds a stem in memory.
  abbrev pub holds : R → String → Bool
  holds r q = is_in q (resident (server.models r))

  pub record IsFaithful : Type 0 where
    pub unloaded :
        (r s : R) (p q : String)
        → server.unload r p ≡ some s
        → holds s q ≡ (not (str_eq p q) && holds r q)

  module _ (law : IsFaithful) (keepers : List String) where
    unload_each-kept :
        (free : Bool) (r : R) (ss : List String) (q : String)
        → is_in q keepers ≡ true
        → holds (unload_each server keepers free r ss).0 q ≡ holds r q
    unfolding unload_each
    unload_each-kept free r [] q kept = refl
    unload_each-kept free r (s ∷ ss) q kept = elim (Bool-cases (is_in s keepers || not free)) [
      | inl e ↦ rw (e, unload_each) (unload_each-kept free r ss q kept)
      | inr e ↦ elim (Option-cases (server.unload r s)) [
        | inl n ↦ rw (e, n, unload_each) (unload_each-kept free r ss q kept)
        | inr (t, u) ↦
            rw (e, u, unload_each)
              (unload_each-kept free t ss q kept
                ∙ law.unloaded r t s q u
                ∙ ground (arith, str_eq_iff s q, kept, e))
      ]
    ]

    -- What is unloaded is unprotected, and goes only while no run is in flight.
    unload_each-All :
        (free : Bool) (r : R) (ss : List String)
        → All
            (λ s. (is_in s keepers ≡ false) × (free ≡ true))
            (unload_each server keepers free r ss).1
    unfolding unload_each
    unload_each-All free r [] = tt
    unload_each-All free r (s ∷ ss) = elim (Bool-cases (is_in s keepers || not free)) [
      | inl e ↦ rw (e, unload_each) (unload_each-All free r ss)
      | inr e ↦ elim (Option-cases (server.unload r s)) [
        | inl n ↦ rw (e, n, unload_each) (unload_each-All free r ss)
        | inr (t, u) ↦
            rw (e, u, unload_each) ((neither (is_in s keepers) free e), unload_each-All free t ss)
      ]
    ]
      where
        neither : (a b : Bool) → (a || not b) ≡ false → (a ≡ false) × (b ≡ true)
        neither a b e = (ground (arith, e), ground (arith, e))

    -- `release` unloads no protected stem, provided that an unload takes away only the model it names:
    -- such a stem is held afterwards exactly if it was before, whatever stems are given and whichever
    -- unloads fail. What it reports as unloaded is not protected, and while a run is in flight it
    -- unloads nothing.
    pub release_lem :
        (free : Bool) (r : R) (stems : List String) (q : String)
        → is_in q keepers ≡ true
        → (holds (release server (some keepers) free r stems).0 q ≡ holds r q)
          × All
              (λ s. (is_in s keepers ≡ false) × (free ≡ true))
              (release server (some keepers) free r stems).1
    unfolding release
    release_lem free r stems q kept = (unload_each-kept free r _ q kept, unload_each-All free r _)

    module _ (works : (r : R) (p : String) → (s : R) × (server.unload r p ≡ some s)) where
      unload_each-other :
          (q : String)
          → is_in q keepers ≡ false
          → (r : R) (ss : List String)
          → holds (unload_each server keepers true r ss).0 q ≡ (holds r q && not (is_in q ss))
      unfolding unload_each
      unload_each-other q bare r [] = ground arith
      unload_each-other q bare r (s ∷ ss) = elim (Bool-cases (is_in s keepers)) [
        | inl e ↦
            rw (e, unload_each)
              (unload_each-other q bare r ss ∙ ground (arith, str_eq_iff q s, bare, e))
        | inr e ↦
            let (t, u) = works r s in
            rw (e, u, unload_each)
              (unload_each-other q bare t ss
                ∙ ap (λ b. b && not (is_in q ss)) (law.unloaded r t s q u)
                ∙ ground (arith, str_eq_iff q s, str_eq_iff s q))
      ]

      is_in-select :
          (test : String → Bool) (q : String) (xs : List String)
          → is_in q (select test xs) ≡ (is_in q xs && test q)
      is_in-select test q [] = refl
      is_in-select test q (x ∷ xs) = ground (arith, str_eq_iff q x, is_in-select test q xs)

      is_in-distinct :
          (q : String) (seen xs : List String)
          → is_in q (distinct_from seen xs)
            ≡ (is_in q xs && (not (str_eq q "") && not (is_in q seen)))
      is_in-distinct q seen [] = refl
      is_in-distinct q seen (x ∷ xs) =
          ground (arith, str_eq_iff q x, str_eq_iff x "", is_in-distinct q (x ∷ seen) xs)

      -- Where no run is in flight, and every unload works and takes away just the model it names,
      -- `settle` leaves only protected stems in memory: no other stem, unless it is the empty text, is
      -- held.
      pub settle_lem :
          (r : R) (q : String)
          → is_in q keepers ≡ false
          → str_eq q "" ≡ false
          → holds (settle server (some keepers) true r).0 q ≡ false
      unfolding settle release
      settle_lem r q bare named =
          let held = resident (server.models r) in
          let here : String → Bool = λ s. is_in s held in
          let once = distinct_from [] held in
          unload_each-other q bare r (select here once)
          ∙ all_gone (is_in q held) (is_in q (select here once)) (is_in q once)
              (is_in-select here q once) (is_in-distinct q [] held ∙ rw named (ground arith))
        where
          all_gone : (h s d : Bool) → s ≡ (d && h) → d ≡ h → (h && not s) ≡ false
          all_gone h s d e f = ground (arith, e, f)
