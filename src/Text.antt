-- ===== src/Text.antt =====
-- Python's `partition`, `split` and `in` on texts.
use Prim.Native.Char.{Char, code}
use text.Mathlib.Text.{find?}
use localharness.Prelude.{
  ℕ, Bool, false, ◌||◌, not, List, [], ◌∷◌, String, ◌==◌, is_none, if◌then◌else◌, str_eq, Option,
  none, some,
}

-- `p in s`
abbrev pub contains : String → String → Bool
contains s p = not (is_none (find? s p))

-- The three parts of `s.partition(c)`, and `s.split(c)`, by the code of c.
unfoldable pub before_char : ℕ → String → String
before_char c String.[] = String.[]
before_char c (String.◌∷◌ x s) = if code x == c then String.[] else String.◌∷◌ x (before_char c s)

unfoldable pub after_char : ℕ → String → String
after_char c String.[] = String.[]
after_char c (String.◌∷◌ x s) = let rest = after_char c s in if code x == c then s else rest

unfoldable pub has_char : ℕ → String → Bool
has_char c String.[] = false
has_char c (String.◌∷◌ x s) = (code x == c) || has_char c s

abbrev pub put_first : Char → List String → List String
put_first x [] = String.◌∷◌ x String.[] ∷ []
put_first x (w ∷ ws) = String.◌∷◌ x w ∷ ws

unfoldable pub split : ℕ → String → List String
split c String.[] = String.[] ∷ []
split c (String.◌∷◌ x s) =
    let rest = split c s in if code x == c then String.[] ∷ rest else put_first x rest

-- `s.endswith(p)` and `s.removesuffix(p)`, for a text p that is not empty.
unfoldable pub ends_with : String → String → Bool
ends_with String.[] p = false
ends_with (String.◌∷◌ x s) p = str_eq (String.◌∷◌ x s) p || ends_with s p

unfoldable pub drop_end : String → String → String
drop_end String.[] p = String.[]
drop_end (String.◌∷◌ x s) p =
    let rest = drop_end s p in if str_eq (String.◌∷◌ x s) p then String.[] else String.◌∷◌ x rest

-- `s.startswith(p)` with what follows p.
unfoldable pub drop_start : String → String → Option String
drop_start s String.[] = some s
drop_start String.[] (String.◌∷◌ y p) = none
drop_start (String.◌∷◌ x s) (String.◌∷◌ y p) =
    let rest = drop_start s p in if code x == code y then rest else none

-- Characters by their codes.
abbrev pub colon : ℕ
colon = 58

abbrev pub comma : ℕ
comma = 44

abbrev pub dot : ℕ
dot = 46

abbrev pub above : ℕ
above = 62

abbrev pub bar : ℕ
bar = 124

abbrev pub slash : ℕ
slash = 47

abbrev pub at_sign : ℕ
at_sign = 64
