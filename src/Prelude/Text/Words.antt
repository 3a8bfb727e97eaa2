-- ===== src/Prelude/Text/Words.antt =====
-- Python's `str.split()`, `str.endswith` and `int(text)`. The digits are those of ASCII.
pub mod Laws
pub mod Digits
use Prim.Native.Nat.{ℕ, ◌+◌, ◌-◌, ◌*◌}
use Prim.Native.Char.{Char, code}
use Prim.Native.String
use Prim.Native.String.{String}
use mathlib.Core.Bool.{Bool, true, false, ◌&&◌}
use mathlib.Core.Option
use mathlib.Core.Option.{Option, none, some}
use mathlib.Core.List.{List, [], ◌∷◌}
use native.Mathlib.Omega.{arith}
use enterprise_llm_assistant.Prelude.Equality.{if◌then◌else◌, leb, eqb, string_eq, ◌==◌}
use enterprise_llm_assistant.Prelude.Int.{ℤ, pos, neg}
use enterprise_llm_assistant.Prelude.Text.{is_space, starts_with, strip, truthy}

-- A word before the words after it; the empty one is none.
abbrev prepend : String → List String → List String
prepend word words = if truthy word then word ∷ words else words

-- The word that a text begins with, and the words after it.
runs : String → String × List String
unfolding truthy
runs String.[] = ("", [])
runs (String.◌∷◌ c s) =
    let (word, words) = runs s in
    if is_space (code c) then ("", prepend word words) else (String.◌∷◌ c word, words)

-- `s.split()`
unfoldable pub split : String → List String
unfolding runs truthy
split s = let (word, words) = runs s in prepend word words

-- `s.endswith(suffix)`
unfoldable pub ends_with : String → String → Bool
ends_with suffix String.[] = suffix == ""
ends_with suffix (String.◌∷◌ c s) =
    let rest = ends_with suffix s in if suffix == String.◌∷◌ c s then true else rest

-- The text without as many characters as `prefix` has.
unfoldable pub drop_chars : String → String → String
drop_chars String.[] s = s
drop_chars (String.◌∷◌ _ prefix) String.[] = String.[]
drop_chars (String.◌∷◌ _ prefix) (String.◌∷◌ c s) = drop_chars prefix s

is_digit : ℕ → Bool
is_digit c = leb b'0' c && leb c b'9'

-- The digits after `acc`; an underscore stands between two digits, and `after` says that a digit came before.
digits : Bool → ℕ → String → Option ℕ
unfolding is_digit
digits true acc String.[] = some acc
digits false acc String.[] = none
digits after acc (String.◌∷◌ c s) = elim (is_digit (code c)) [
  | true ↦ digits true (acc * 10 + (code c - b'0')) s
  | false ↦ elim (after && eqb (code c) b'_') [ true ↦ digits false acc s | false ↦ none ]
]

signed : String → Option ℤ
unfolding digits
signed String.[] = none
signed (String.◌∷◌ c s) =
    if eqb (code c) b'-'
    then Option.map neg (digits false 0 s)
    else if eqb (code c) b'+'
    then Option.map pos (digits false 0 s)
    else Option.map pos (digits false 0 (String.◌∷◌ c s))

-- `int(text)`; `none` is a ValueError.
unfoldable pub int_of_text : String → Option ℤ
unfolding signed
int_of_text s = signed (strip s)

-- `s.replace(old, new)` for one character each.
unfoldable pub replace_char : ℕ → Char → String → String
replace_char old new String.[] = String.[]
replace_char old new (String.◌∷◌ c s) =
    String.◌∷◌ (if eqb (code c) old then new else c) (replace_char old new s)

-- What stands before the first `separator`, and what stands after it.
unfoldable pub partition : String → String → Option (String × String)
partition separator String.[] = none
partition separator (String.◌∷◌ c s) =
    let rest : Option (String × String) = elim (partition separator s) [
      | none ↦ none
      | some (before, after) ↦ some (String.◌∷◌ c before, after)
    ] in
    if starts_with separator (String.◌∷◌ c s)
    then some ("", drop_chars separator (String.◌∷◌ c s))
    else rest

-- `s[: s.rfind(c)]`, if the character is there.
unfoldable pub until_last : Char → String → Option String
until_last c String.[] = none
until_last c (String.◌∷◌ d s) =
    let rest = until_last c s in
    elim rest [
      | some inside ↦ some (String.◌∷◌ d inside)
      | none ↦ if eqb (code d) (code c) then some "" else none
    ]
