-- ===== src/Gateway/Switch/Answers.antt =====
-- What the wait of harness/gateway_switch.py for the served aliases has seen when it ends.
use localharness.Prelude.{
  ◌≡◌, refl, true, Option, none, some, List, [], ◌∷◌, String, str_eq_iff, All, Bool-cases,
  Option-cases, ◌⊎◌, inl, inr, arith,
}
use localharness.Dict.{lookup}
use localharness.Gateway.Switch.{
  Info, no_answer, not_json, bad_status, serving, Trouble, is_text, trouble_of, wrong_aliases,
  not_serving, await_serving,
}

-- The gateway's answer names each wanted alias's model.
abbrev pub Serves : List (String × String) → Info → Type 0
Serves want (serving served) = All (λ w. lookup w.0 served ≡ some w.1) want
Serves want _ = ⊥

abbrev pub SomeServes : List (String × String) → List Info → Type 0
SomeServes want [] = ⊥
SomeServes want (i ∷ is) = Serves want i ⊎ SomeServes want is

is_text-some : (o : Option String) (model : String) → is_text o model ≡ true → o ≡ some model
is_text-some none model h = absurd cc
is_text-some (some t) model h = ground (arith, str_eq_iff t model)

wrong_aliases-nil :
    (served want : List (String × String))
    → wrong_aliases served want ≡ []
    → All (λ w. lookup w.0 served ≡ some w.1) want
unfolding wrong_aliases
wrong_aliases-nil served [] h = tt
wrong_aliases-nil served ((alias, model) ∷ want) h =
    elim (Bool-cases (is_text (lookup alias served) model)) [
      | inl e ↦
          (is_text-some (lookup alias served) model e, wrong_aliases-nil served want (rw e at h))
      | inr e ↦ absurd ground (arith, h, e)
    ]

trouble_of-none : (ws : List (String × String)) → trouble_of ws ≡ none → ws ≡ []
trouble_of-none [] h = refl
trouble_of-none (w ∷ ws) h = absurd cc

not_serving-none :
    (i : Info) (want : List (String × String)) → not_serving i want ≡ none → Serves want i
unfolding not_serving
not_serving-none no_answer want h = absurd cc
not_serving-none not_json want h = absurd cc
not_serving-none (bad_status n) want h = absurd cc
not_serving-none (serving served) want h =
    wrong_aliases-nil served want (trouble_of-none (wrong_aliases served want) h)

pub await_serving-none :
    (is : List Info) (want : List (String × String))
    → await_serving is want ≡ none
    → SomeServes want is
unfolding await_serving
await_serving-none [] want h = absurd cc
await_serving-none (i ∷ []) want h = inl (not_serving-none i want h)
await_serving-none (i ∷ j ∷ is) want h = elim (Option-cases (not_serving i want)) [
  | inl e ↦ inl (not_serving-none i want e)
  | inr (t, e) ↦ inr (await_serving-none (j ∷ is) want (later (not_serving i want) t e h))
]
  where
    later :
        (o : Option Trouble) (t : Trouble)
        → o ≡ some t
        → elim o [ none ↦ none | some t ↦ await_serving (j ∷ is) want ] ≡ none
        → await_serving (j ∷ is) want ≡ none
    later none t e h = absurd cc
    later (some u) t e h = h

wrong_aliases-All :
    (served want : List (String × String))
    → All (λ w. lookup w.0 served ≡ some w.1) want
    → wrong_aliases served want ≡ []
unfolding wrong_aliases
wrong_aliases-All served [] h = refl
wrong_aliases-All served ((alias, model) ∷ want) h =
    rw (h.0) (ground (arith, str_eq_iff model model, wrong_aliases-All served want h.1))

not_serving-some :
    (i : Info) (want : List (String × String)) (t : Trouble)
    → not_serving i want ≡ some t
    → ¬ Serves want i
unfolding not_serving
not_serving-some no_answer want t h k = k
not_serving-some not_json want t h k = k
not_serving-some (bad_status n) want t h k = k
not_serving-some (serving served) want t h k =
    let none_wrong = wrong_aliases-All served want k in
    let clash : ◌≡◌ {A = Option Trouble} none (some t) = rw (none_wrong, trouble_of) at h in
    absurd cc

pub await_serving-some :
    (is : List Info) (want : List (String × String)) (t : Trouble)
    → await_serving is want ≡ some t
    → All (λ i. ¬ Serves want i) is
unfolding await_serving
await_serving-some [] want t h = tt
await_serving-some (i ∷ []) want t h = (not_serving-some i want t h, tt)
await_serving-some (i ∷ j ∷ is) want t h = elim (Option-cases (not_serving i want)) [
  | inl e ↦
      let clash : ◌≡◌ {A = Option Trouble} none (some t) = rw (e, await_serving) at h in absurd cc
  | inr (u, e) ↦
      (not_serving-some i want u e, await_serving-some (j ∷ is) want t (rw (e, await_serving) at h))
]
