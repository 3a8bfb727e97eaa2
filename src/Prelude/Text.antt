-- ===== src/Prelude/Text.antt =====
-- Python's `str.strip`, `str.lower`, `str.title`, `str.join`, `in` and the truth of a string. The letters
-- whose case is mapped are those of ASCII; a character outside it keeps its case.
pub mod Laws
pub mod Words
use Prim.Native.Nat.{zero, suc, ◌/◌, ◌%◌, ℕ, ◌+◌, ◌-◌, ◌<◌, ◌≤◌, compare, Ordering}
use Prim.Native.Char.{Char, char, code, IsScalar}
use Prim.Native.String
use Prim.Native.String.{String, count, ◌++◌ as ◌<>◌}
use mathlib.Core.Path.{◌≡◌, refl}
use mathlib.Core.Bool.{Bool, true, false, ◌&&◌, ◌||◌, not}
use mathlib.Core.Option.{Option, none, some}
use mathlib.Core.List.{List, [], ◌∷◌}
use mathlib.Core.Logic.{dite, ◌≢◌}
use native.Mathlib.Decide.{dec_le}
use native.Mathlib.Omega.{arith}
use enterprise_llm_assistant.Prelude.Equality.{if◌then◌else◌, ltb, leb, eqb}

-- `str.isspace` of one character, in full.
unfoldable pub is_space : ℕ → Bool
is_space c =
    leb 9 c && leb c 13
    || leb 28 c && leb c 32
    || eqb c 0x85
    || eqb c 0xa0
    || eqb c 0x1680
    || leb 0x2000 c && leb c 0x200a
    || eqb c 0x2028
    || eqb c 0x2029
    || eqb c 0x202f
    || eqb c 0x205f
    || eqb c 0x3000

pub shifted : (n : ℕ) → n ≤ b'Z' → IsScalar (n + 32)
shifted n h = let e : compare (n + 32) 55296 ≡ Ordering.lt = ground arith in rw e tt

lower_char : Char → Char
lower_char (char n p) =
    dite (dec_le b'A' n)
      (λ _. dite (dec_le n b'Z') (λ h. char (n + 32) (shifted n h)) (λ _. char n p)) (λ _. char n p)

unfoldable pub lower : String → String
unfolding lower_char dec_le
lower String.[] = String.[]
lower (String.◌∷◌ c s) = String.◌∷◌ (lower_char c) (lower s)

unfoldable pub lstrip : String → String
unfolding is_space
lstrip String.[] = String.[]
lstrip (String.◌∷◌ c s) = if is_space (code c) then lstrip s else String.◌∷◌ c s

is_empty : String → Bool
is_empty String.[] = true
is_empty (String.◌∷◌ _ _) = false

unfoldable pub rstrip : String → String
unfolding is_space is_empty
rstrip String.[] = String.[]
rstrip (String.◌∷◌ c s) =
    let rest = rstrip s in
    if is_space (code c) && is_empty rest then String.[] else String.◌∷◌ c rest

-- `s.strip()`
unfoldable pub strip : String → String
unfolding lstrip rstrip
strip s = rstrip (lstrip s)

-- `bool(s)`
unfoldable pub truthy : String → Bool
unfolding is_empty
truthy s = not (is_empty s)

pub truthy_of_ne_empty : (s : String) → s ≢ "" → truthy s ≡ true
unfolding truthy
truthy_of_ne_empty String.[] h = absurd (h refl)
truthy_of_ne_empty (String.◌∷◌ c s) h = refl

pub truthy_of_count : (s : String) → 0 < count s → truthy s ≡ true
unfolding truthy
truthy_of_count String.[] h = absurd (omega arith)
truthy_of_count (String.◌∷◌ c s) h = refl

-- `s or ""`
unfoldable pub or_empty : Option String → String
or_empty none = ""
or_empty (some s) = s

-- `s[:n]`
unfoldable pub first : ℕ → String → String
first zero s = String.[]
first (suc n) String.[] = String.[]
first (suc n) (String.◌∷◌ c s) = String.◌∷◌ c (first n s)

digit : ℕ → String
digit n =
    if eqb n 0
    then "0"
    else if eqb n 1
    then "1"
    else if eqb n 2
    then "2"
    else if eqb n 3
    then "3"
    else if eqb n 4
    then "4"
    else if eqb n 5
    then "5"
    else if eqb n 6
    then "6"
    else if eqb n 7
    then "7"
    else if eqb n 8
    then "8"
    else "9"

-- A number of at most `fuel` digits, written before `rest`.
decimal_onto : ℕ → ℕ → String → String
decimal_onto zero n rest = rest
decimal_onto (suc fuel) n rest =
    let whole = decimal_onto fuel (n / 10) (digit (n % 10) <> rest) in
    if leb n 9 then digit n <> rest else whole

-- `str(n)`; a number has at most as many digits as it counts, and one more.
unfoldable pub decimal : ℕ → String
unfolding digit decimal_onto
decimal n = decimal_onto (suc n) n ""

pub upper_shifted : (n : ℕ) → n ≤ b'z' → IsScalar (n - 32)
upper_shifted n h = let e : compare (n - 32) 55296 ≡ Ordering.lt = ground arith in rw e tt

upper_char : Char → Char
upper_char (char n p) =
    dite (dec_le b'a' n)
      (λ _. dite (dec_le n b'z') (λ h. char (n - 32) (upper_shifted n h)) (λ _. char n p))
      (λ _. char n p)

is_letter : ℕ → Bool
is_letter c = leb b'A' c && leb c b'Z' || leb b'a' c && leb c b'z'

-- The rest of a text after a letter, or after something else.
title_after : Bool → String → String
unfolding upper_char lower_char is_letter dec_le
title_after inside String.[] = String.[]
title_after true (String.◌∷◌ c s) = String.◌∷◌ (lower_char c) (title_after (is_letter (code c)) s)
title_after false (String.◌∷◌ c s) = String.◌∷◌ (upper_char c) (title_after (is_letter (code c)) s)

-- `s.title()`
unfoldable pub title : String → String
unfolding title_after
title s = title_after false s

unfoldable pub starts_with : String → String → Bool
starts_with String.[] s = true
starts_with (String.◌∷◌ c needle) String.[] = false
starts_with (String.◌∷◌ c needle) (String.◌∷◌ d s) = eqb (code c) (code d) && starts_with needle s

-- `needle in s`
unfoldable pub occurs_in : String → String → Bool
unfolding starts_with is_empty
occurs_in needle String.[] = is_empty needle
occurs_in needle (String.◌∷◌ c s) = starts_with needle (String.◌∷◌ c s) || occurs_in needle s

-- `separator.join(parts)`
unfoldable pub join : String → List String → String
join separator [] = ""
join separator (part ∷ []) = part
join separator (part ∷ next ∷ parts) = part <> separator <> join separator (next ∷ parts)

-- Python's `s < t` for strings.
unfoldable pub before : String → String → Bool
before String.[] String.[] = false
before String.[] (String.◌∷◌ d t) = true
before (String.◌∷◌ c s) String.[] = false
before (String.◌∷◌ c s) (String.◌∷◌ d t) =
    let rest = before s t in
    if ltb (code c) (code d) then true else if eqb (code c) (code d) then rest else false
