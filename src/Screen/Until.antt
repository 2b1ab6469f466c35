-- ===== src/Screen/Until.antt =====
-- The condition that harness/screen.py writes on a load failure, and the reader of it,
-- harness/memory_store/revisit.py.
use Prim.Native.Char.{Char, code}
use Prim.Native.String.append
use Prim.Native.String.{◌++◌ as text_append}
use text.Mathlib.Text.{starts_with}
use localharness.Prelude.{
  ℕ, ◌≡◌, refl, ap, ◌∙◌, sym, Bool, true, false, Option, none, some, List, [], ◌∷◌, String, arith,
  str_eq, str_eq_iff, All, Bool-cases, inl, inr, ◌==◌, if◌then◌else◌,
}
use localharness.Text.{before_char, after_char, has_char, colon, above, comma, split}
use localharness.Dict.{lookup}
use localharness.Revisit.{tuple_ltb, is_newer, version_tuple, until_met, Facts, digits}
use localharness.Screen.{
  engine_runtimes, or_text, installed, engine_runtime, load_runtime, load_until,
}

module _ (c : ℕ) (x : Char) (t : String) where
  before_char-append :
      (s : String)
      → has_char c s ≡ false
      → (code x == c) ≡ true
      → before_char c (text_append s (String.◌∷◌ x t)) ≡ s
  unfolding has_char before_char
  before_char-append String.[] h e = rw (append.nil (String.◌∷◌ x t), e) refl
  before_char-append (String.◌∷◌ y s) h e =
      rw (append.cons y s (String.◌∷◌ x t)) (ground (arith, before_char-append s, h, e))

  after_char-append :
      (s : String)
      → has_char c s ≡ false
      → (code x == c) ≡ true
      → after_char c (text_append s (String.◌∷◌ x t)) ≡ t
  unfolding has_char after_char
  after_char-append String.[] h e = rw (append.nil (String.◌∷◌ x t), e) refl
  after_char-append (String.◌∷◌ y s) h e =
      rw (append.cons y s (String.◌∷◌ x t)) (ground (arith, after_char-append s, h, e))

  has_char-append :
      (s : String) → (code x == c) ≡ true → has_char c (text_append s (String.◌∷◌ x t)) ≡ true
  unfolding has_char
  has_char-append String.[] e = rw (append.nil (String.◌∷◌ x t), e) refl
  has_char-append (String.◌∷◌ y s) e =
      rw (append.cons y s (String.◌∷◌ x t)) (ground (arith, has_char-append s, e))

tuple_ltb_irrefl : (xs : List ℕ) → tuple_ltb xs xs ≡ false
unfolding tuple_ltb
tuple_ltb_irrefl [] = refl
tuple_ltb_irrefl (x ∷ xs) = ground (arith, tuple_ltb_irrefl xs)

append-one : (x : Char) (r : String) → text_append (String.◌∷◌ x String.[]) r ≡ String.◌∷◌ x r
append-one x r = append.cons x String.[] r ∙ ap (String.◌∷◌ x) (append.nil r)

append_assoc_one :
    (x : Char) (r s : String)
    → text_append (text_append s (String.◌∷◌ x String.[])) r ≡ text_append s (String.◌∷◌ x r)
append_assoc_one x r String.[] =
    ap (λ t. text_append t r) (append.nil (String.◌∷◌ x String.[]))
    ∙ append-one x r
    ∙ sym (append.nil (String.◌∷◌ x r))
append_assoc_one x r (String.◌∷◌ y s) =
    ap (λ t. text_append t r) (append.cons y s (String.◌∷◌ x String.[]))
    ∙ append.cons y (text_append s (String.◌∷◌ x String.[])) r
    ∙ ap (String.◌∷◌ y) (append_assoc_one x r s)
    ∙ sym (append.cons y s (String.◌∷◌ x r))

abbrev colon_char : Char
colon_char = Char.char 58 tt

abbrev above_char : Char
above_char = Char.char 62 tt

-- The text that the reader takes apart.
abbrev version_until : String → String → String
version_until runtime version =
    text_append "version:" (text_append runtime (text_append ">" version))

version_until-parts :
    (runtime version : String)
    → version_until runtime version
      ≡ text_append "version"
          (String.◌∷◌ colon_char (text_append runtime (String.◌∷◌ above_char version)))
version_until-parts runtime version =
    ap (λ t. text_append "version:" (text_append runtime t)) (append-one above_char version)
    ∙ append_assoc_one colon_char (text_append runtime (String.◌∷◌ above_char version)) "version"

module _ (runtime version : String) (plain : has_char above runtime ≡ false) where
  version_until-key : before_char colon (version_until runtime version) ≡ "version"
  unfolding has_char
  version_until-key =
      ap (before_char colon) (version_until-parts runtime version)
      ∙ before_char-append colon colon_char _ "version" refl refl

  version_until-want :
      after_char colon (version_until runtime version)
      ≡ text_append runtime (String.◌∷◌ above_char version)
  unfolding has_char
  version_until-want =
      ap (after_char colon) (version_until-parts runtime version)
      ∙ after_char-append colon colon_char _ "version" refl refl

  version_until-named : str_eq (version_until runtime version) "" ≡ false
  unfolding before_char
  version_until-named = elim (Bool-cases (str_eq (version_until runtime version) "")) [
    | inr e ↦ e
    | inl e ↦
        let same : ◌≡◌ {A = String} "version" "" =
          sym version_until-key ∙ ap (before_char colon) ((str_eq_iff _ "").0 e) in
        let h : false ≡ true = (str_eq_iff "version" "").1 same in absurd cc
  ]

  -- `until_met` compares the version on record with the one that the condition names.
  until_met-version :
      (strip : String → String) (number : String → Option ℕ) (facts : Facts)
      → until_met strip number (version_until runtime version) facts
        ≡ is_newer (version_tuple (lookup runtime facts.versions)) (version_tuple (some version))
  unfolding until_met version_tuple
  until_met-version strip number facts =
      rw
        (
          version_until-named,
          version_until-key,
          version_until-want,
          before_char-append above above_char version runtime plain refl,
          after_char-append above above_char version runtime plain refl,
          has_char-append above above_char version runtime refl,
        )
        refl

if-plain :
    (b : Bool) (x y : String)
    → has_char above x ≡ false
    → has_char above y ≡ false
    → has_char above (if b then x else y) ≡ false
if-plain true x y h k = h
if-plain false x y h k = k

-- The texts that name a runtime have no `>`.
runtimes-plain :
    (d : List (String × String)) (k : String)
    → All (λ r. has_char above r.1 ≡ false) d
    → has_char above (or_text (lookup k d) "") ≡ false
unfolding lookup has_char
runtimes-plain [] k all = refl
runtimes-plain ((j, v) ∷ d) k all = elim (Bool-cases (str_eq j k)) [
  | inl e ↦ rw (e, or_text) (if-plain (str_eq v "") "" v refl all.0)
  | inr e ↦ rw e (runtimes-plain d k all.1)
]

load_runtime-plain :
    (strip : String → String) (candidate : String)
    → has_char above (load_runtime strip candidate) ≡ false
unfolding load_runtime engine_runtime has_char
load_runtime-plain strip candidate =
    if-plain (starts_with candidate "llamacpp:") "llama.cpp" _ refl (
      if-plain (str_eq (engine_runtime strip candidate) "") "mlx-lm"
        (engine_runtime strip candidate) refl
        (runtimes-plain engine_runtimes (strip (before_char colon (before_char comma candidate))) (
          refl,
          (refl, (refl, (refl, (refl, (refl, (refl, (refl, (refl, (refl, (refl, tt)))))))))),
        )))

is_newer_irrefl : (o : Option (List ℕ)) → is_newer o o ≡ false
is_newer_irrefl none = refl
is_newer_irrefl (some xs) = tuple_ltb_irrefl xs

-- A package's own version is not newer than itself, also where none is on record.
own_version :
    (o : Option String) → is_newer (version_tuple o) (version_tuple (some (or_text o "0"))) ≡ false
unfolding version_tuple split digits
own_version none = refl
own_version (some v) = elim (Bool-cases (str_eq v "")) [
  | inl e ↦ rw (e, or_text, (str_eq_iff v "").0 e) refl
  | inr e ↦ rw (e, or_text) (is_newer_irrefl (version_tuple (some v)))
]

module _ (strip : String → String) (number : String → Option ℕ) (candidate : String) where
  -- The condition that a load failure writes is read back as it was meant: it is met exactly when the
  -- version of that runtime which the facts record is newer than the one that was installed, and so
  -- it is not met on the versions that the failure was seen with.
  pub load_until_lem :
      (versions : List (String × String)) (facts : Facts)
      → (until_met strip number (load_until strip versions candidate) facts
          ≡ is_newer
              (version_tuple (lookup (load_runtime strip candidate) facts.versions))
              (version_tuple (some (installed versions (load_runtime strip candidate)))))
        × (until_met strip number (load_until strip facts.versions candidate) facts ≡ false)
  unfolding load_until installed
  load_until_lem versions facts =
      let runtime = load_runtime strip candidate in
      let plain = load_runtime-plain strip candidate in
      (
        until_met-version runtime (installed versions runtime) plain strip number facts,
        until_met-version runtime (installed facts.versions runtime) plain strip number facts
            ∙ own_version (lookup runtime facts.versions),
      )
