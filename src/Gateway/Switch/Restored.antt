-- ===== src/Gateway/Switch/Restored.antt =====
-- What a switch of harness/gateway_switch.py leaves behind.
use localharness.Prelude.{
  ℕ, ◌≡◌, refl, Bool, true, false, Option, none, some, List, [], ◌∷◌, map, String, All, Bool-cases,
  ◌⊎◌, inl, inr, arith,
}
use localharness.Gateway.Switch.{
  Trouble, Machine, Attempt, moved_in, why_of, attempts, settle, switch, same_aliases,
}
use localharness.Gateway.Switch.Answers.{Serves, SomeServes, await_serving-none, await_serving-some}

-- The config's text after some attempts.
abbrev last_text : Option String → List Attempt → Option String
last_text file [] = file
last_text file (a ∷ more) = last_text (some a.text) more

module _ {Params : Type 0} (params_eq : Params → Params → Bool) (model_of : Params → String)
    (load : Option String → List (String × Params)) (alias : String → String)
    (say : Trouble → String) where
  -- The alias and the model of each lane that an attempt moves.
  abbrev pub moved_models : List (String × Params) → Attempt → List (String × String)
  moved_models old a =
      map (λ m. (alias m.0, m.2)) (moved_in params_eq model_of load alias say old a)

  -- The restart of an attempt worked, an answer within the wait then served each moved lane's model,
  -- and the config holds the attempt's text.
  abbrev pub Took : List (String × Params) → Machine → Attempt → Type 0
  Took old m a =
      (a.restarted ≡ true) × (SomeServes (moved_models old a) a.infos × (m.file ≡ some a.text))

  abbrev pub SomeTook : List (String × Params) → Machine → List Attempt → Type 0
  SomeTook old m [] = ⊥
  SomeTook old m (a ∷ more) = Took old m a ⊎ SomeTook old m more

  -- The config is what it was before, or is the last one written where there was none.
  abbrev pub IsRestored : Option String → Option String → Option String → Type 0
  IsRestored before last file = (file ≡ before) ⊎ ((before ≡ none) × (file ≡ last))

  -- The restart did not work, or no answer named each moved lane's model.
  abbrev pub Failed : List (String × Params) → Attempt → Type 0
  Failed old a = (a.restarted ≡ false) ⊎ All (λ i. ¬ Serves (moved_models old a) i) a.infos

  why_of-some :
      (old : List (String × Params)) (a : Attempt) (t : Trouble)
      → why_of params_eq model_of load alias say a
          (moved_in params_eq model_of load alias say old a)
        ≡ some t
      → Failed old a
  unfolding why_of
  why_of-some old a t h = elim (Bool-cases a.restarted) [
    | inl e ↦ inr (await_serving-some a.infos (moved_models old a) t (rw e at h))
    | inr e ↦ inl e
  ]

  why_of-none :
      (old : List (String × Params)) (a : Attempt)
      → why_of params_eq model_of load alias say a
          (moved_in params_eq model_of load alias say old a)
        ≡ none
      → (a.restarted ≡ true) × SomeServes (moved_models old a) a.infos
  unfolding why_of
  why_of-none old a h = elim (Bool-cases a.restarted) [
    | inl e ↦ (e, await_serving-none a.infos (moved_models old a) (rw e at h))
    | inr e ↦ absurd ground (arith, h, e)
  ]

  module _ (before : Option String) (old : List (String × Params)) (at : ℕ) where
    abbrev run : List Attempt → Machine → Bool × Machine
    run = attempts params_eq model_of load alias say before old at

    abbrev Ends : Option String → List Attempt → Bool × Machine → Type 0
    Ends last tries r =
        ((r.0 ≡ true) × SomeTook old r.1 tries)
        ⊎ ((r.0 ≡ false) × (All (Failed old) tries × IsRestored before last r.1.file))

    settle-Ends :
        (last : Option String) (a : Attempt) (more : List Attempt) (taken : Machine)
        (go : Trouble → Bool × Machine) (w : Option Trouble)
        → why_of params_eq model_of load alias say a
            (moved_in params_eq model_of load alias say old a)
          ≡ w
        → taken.file ≡ some a.text
        → ((t : Trouble) → Ends last more (go t))
        → Ends last (a ∷ more) (settle w (true, taken) go)
    settle-Ends last a more taken go none e f on =
        let (restarted, serves) = why_of-none old a e in inl (refl, inl (restarted, (serves, f)))
    settle-Ends last a more taken go (some t) e f on = elim (on t) [
      | inl (x, y) ↦ inl (x, inr y)
      | inr (x, (failed, left)) ↦ inr (x, ((why_of-some old a t e, failed), left))
    ]

  attempts-Ends :
      (before : Option String) (old : List (String × Params)) (at : ℕ) (tries : List Attempt)
      (m : Machine)
      → Ends before old at (last_text m.file tries) tries (run before old at tries m)
  unfolding attempts
  attempts-Ends none old at [] m = inr (refl, (tt, inr (refl, refl)))
  attempts-Ends (some text) old at [] m = inr (refl, (tt, inl refl))
  attempts-Ends before old at (a ∷ more) m =
      settle-Ends before old at (last_text (some a.text) more) a more _ _ _ refl refl
        (λ t. attempts-Ends before old at more _)

  -- A switch that took restarted the gateway in one of its attempts, an answer of the gateway then
  -- named the model of each lane that moved, and the config has the text of that attempt. One that
  -- did not take found the config as it should be and left it, or in each of its three attempts the
  -- restart failed or no answer named each moved lane's model, and the config is what it was before,
  -- or, where there was none, the text of the last attempt.
  pub switch_lem :
      (fresh : List (String × Params)) (at : ℕ) (a b c : Attempt) (m : Machine)
      → let r : Bool × Machine = switch params_eq model_of load alias say fresh at a b c m in
        let same = same_aliases params_eq model_of load alias say fresh (load m.file) in
        ((r.0 ≡ true) × ((same ≡ false) × SomeTook (load m.file) r.1 (a ∷ b ∷ c ∷ [])))
        ⊎ ((r.0 ≡ false)
            × (((same ≡ true) × (r.1 ≡ m))
                ⊎ (All (Failed (load m.file)) (a ∷ b ∷ c ∷ [])
                    × IsRestored m.file (some c.text) r.1.file)))
  unfolding switch
  switch_lem fresh at a b c m =
      elim (Bool-cases (same_aliases params_eq model_of load alias say fresh (load m.file))) [
        | inl s ↦ rw s (inr (refl, inl (refl, refl)))
        | inr s ↦ rw s (elim (attempts-Ends m.file (load m.file) at (a ∷ b ∷ c ∷ []) m) [
          | inl (x, took) ↦ inl (x, (refl, took))
          | inr (x, rest) ↦ inr (x, inr rest)
        ])
      ]
