-- ===== src/Prelude/Text/Words/Digits.antt =====
-- `int` reads what `str` writes of a number, and no white space stands in it.
use Prim.Native.Nat.{ℕ, zero, suc, ◌+◌, ◌-◌, ◌*◌, ◌/◌, ◌%◌, ◌≤◌, ◌<◌}
use Prim.Native.Char.{Char, char, code}
use Prim.Native.String.{String, ◌++◌ as ◌<>◌}
use mathlib.Core.Path.{◌≡◌, refl, ap, ◌∙◌}
use mathlib.Core.Bool.{Bool, true, false, ◌&&◌}
use mathlib.Core.Option
use mathlib.Core.Option.{Option, none, some}
use mathlib.Core.Logic.{inl, inr}
use native.Mathlib.Omega.{arith}
use text.Mathlib.TextLemmas.{nil-append, cons-append}
use enterprise_llm_assistant.Prelude.Equality.{leb, Bool-cases}
use enterprise_llm_assistant.Prelude.Int.{pos}
use enterprise_llm_assistant.Prelude.Text.{is_space, truthy, decimal, digit, decimal_onto}
use enterprise_llm_assistant.Prelude.Text.Words.{is_digit, digits, signed, int_of_text}
use enterprise_llm_assistant.Prelude.Text.Words.Laws.{spaceless, strip-word}

digits-char :
    (after : Bool) (acc : ℕ) (c : Char) (s : String)
    → is_digit (code c) ≡ true
    → digits after acc (String.◌∷◌ c "" <> s) ≡ digits true (acc * 10 + (code c - b'0')) s
unfolding digits
digits-char after acc c s h = rw (cons-append c "" s, nil-append s) (ground arith)

digits-cons :
    (after : Bool) (acc n : ℕ) (s : String)
    → n ≤ 9
    → digits after acc (digit n <> s) ≡ digits true (acc * 10 + n) s
unfolding digit is_digit
digits-cons after acc zero s h = digits-char after acc (char b'0' tt) s refl
digits-cons after acc (suc zero) s h = digits-char after acc (char b'1' tt) s refl
digits-cons after acc (suc (suc zero)) s h = digits-char after acc (char b'2' tt) s refl
digits-cons after acc (suc (suc (suc zero))) s h = digits-char after acc (char b'3' tt) s refl
digits-cons after acc (suc (suc (suc (suc zero)))) s h = digits-char after acc (char b'4' tt) s refl
digits-cons after acc (suc (suc (suc (suc (suc zero))))) s h =
    digits-char after acc (char b'5' tt) s refl
digits-cons after acc (suc (suc (suc (suc (suc (suc zero)))))) s h =
    digits-char after acc (char b'6' tt) s refl
digits-cons after acc (suc (suc (suc (suc (suc (suc (suc zero))))))) s h =
    digits-char after acc (char b'7' tt) s refl
digits-cons after acc (suc (suc (suc (suc (suc (suc (suc (suc zero)))))))) s h =
    digits-char after acc (char b'8' tt) s refl
digits-cons after acc (suc (suc (suc (suc (suc (suc (suc (suc (suc zero))))))))) s h =
    digits-char after acc (char b'9' tt) s refl
digits-cons after acc (suc (suc (suc (suc (suc (suc (suc (suc (suc (suc n)))))))))) s h =
    absurd (omega arith)

digits-decimal_onto :
    (after : Bool) (fuel n : ℕ) (rest : String)
    → n < fuel
    → digits after 0 (decimal_onto fuel n rest) ≡ digits true n rest
unfolding decimal_onto
digits-decimal_onto after zero n rest h = absurd (omega arith)
digits-decimal_onto after (suc fuel) n rest h = elim (Bool-cases (leb n 9)) [
  | inl e ↦
      rw (e, decimal_onto)
        (digits-cons after 0 n rest (ground arith)
          ∙ ap (λ (m : ℕ). digits true m rest) (omega arith))
  | inr e ↦
      rw (e, decimal_onto)
        (digits-decimal_onto after fuel (n / 10) (digit (n % 10) <> rest) (ground arith)
          ∙ digits-cons true (n / 10) (n % 10) rest (omega arith)
          ∙ ap (λ (m : ℕ). digits true m rest) (omega arith))
]

-- Every character is a digit.
numeral : String → Bool
unfolding is_digit
numeral String.[] = true
numeral (String.◌∷◌ c s) = is_digit (code c) && numeral s

numeral-digit : (n : ℕ) (s : String) → numeral (digit n <> s) ≡ numeral s
unfolding digit numeral
numeral-digit n s = ground (
  arith,
  cons-append (char b'0' tt) "" s,
  cons-append (char b'1' tt) "" s,
  cons-append (char b'2' tt) "" s,
  cons-append (char b'3' tt) "" s,
  cons-append (char b'4' tt) "" s,
  cons-append (char b'5' tt) "" s,
  cons-append (char b'6' tt) "" s,
  cons-append (char b'7' tt) "" s,
  cons-append (char b'8' tt) "" s,
  cons-append (char b'9' tt) "" s,
  nil-append s,
)

numeral-decimal_onto :
    (fuel n : ℕ) (rest : String) → numeral (decimal_onto fuel n rest) ≡ numeral rest
unfolding decimal_onto
numeral-decimal_onto zero n rest = refl
numeral-decimal_onto (suc fuel) n rest = ground (
  arith,
  numeral-digit n rest,
  numeral-digit (n % 10) rest,
  numeral-decimal_onto fuel (n / 10) (digit (n % 10) <> rest),
)

truthy-digit : (n : ℕ) (s : String) → truthy (digit n <> s) ≡ true
unfolding digit truthy
truthy-digit n s = ground (
  arith,
  cons-append (char b'0' tt) "" s,
  cons-append (char b'1' tt) "" s,
  cons-append (char b'2' tt) "" s,
  cons-append (char b'3' tt) "" s,
  cons-append (char b'4' tt) "" s,
  cons-append (char b'5' tt) "" s,
  cons-append (char b'6' tt) "" s,
  cons-append (char b'7' tt) "" s,
  cons-append (char b'8' tt) "" s,
  cons-append (char b'9' tt) "" s,
)

truthy-decimal_onto :
    (fuel n : ℕ) (rest : String) → n < fuel → truthy (decimal_onto fuel n rest) ≡ true
unfolding decimal_onto
truthy-decimal_onto zero n rest h = absurd (omega arith)
truthy-decimal_onto (suc fuel) n rest h =
    ground (arith, truthy-digit n rest, truthy-decimal_onto fuel (n / 10) (digit (n % 10) <> rest))

numeral-spaceless : (s : String) → numeral s ≡ true → spaceless s ≡ true
unfolding numeral spaceless is_space
numeral-spaceless String.[] h = refl
numeral-spaceless (String.◌∷◌ c s) h = ground (arith, numeral-spaceless s)

signed-numeral :
    (s : String) → truthy s ≡ true → numeral s ≡ true → signed s ≡ Option.map pos (digits false 0 s)
unfolding signed numeral truthy
signed-numeral String.[] h k = cc
signed-numeral (String.◌∷◌ c s) h k = ground arith

pub truthy-decimal : (n : ℕ) → truthy (decimal n) ≡ true
unfolding decimal
truthy-decimal n = truthy-decimal_onto (suc n) n "" (omega arith)

pub spaceless-decimal : (n : ℕ) → spaceless (decimal n) ≡ true
unfolding decimal numeral
spaceless-decimal n = numeral-spaceless (decimal n) (numeral-decimal_onto (suc n) n "")

numeral-decimal : (n : ℕ) → numeral (decimal n) ≡ true
unfolding decimal numeral
numeral-decimal n = numeral-decimal_onto (suc n) n ""

digits-decimal : (n : ℕ) → digits false 0 (decimal n) ≡ some n
unfolding decimal digits
digits-decimal n = digits-decimal_onto false (suc n) n "" (omega arith)

-- `int(str(n))` is n.
pub int_of_text-decimal : (n : ℕ) → int_of_text (decimal n) ≡ some (pos n)
unfolding int_of_text
int_of_text-decimal n =
    ap signed (strip-word (decimal n) (spaceless-decimal n))
    ∙ signed-numeral (decimal n) (truthy-decimal n) (numeral-decimal n)
    ∙ ap (Option.map pos) (digits-decimal n)
