-- ===== src/Prelude/Text/Laws.antt =====
-- Trimming and lowering a text twice is doing it once.
use Prim.Native.Char.{Char, char, code}
use Prim.Native.String.{String}
use mathlib.Core.Path.{◌≡◌, refl, ap, ◌∙◌, ap₂}
use native.Mathlib.Omega.{arith}
use enterprise_llm_assistant.Prelude.Text.{
  is_space, lower_char, lower, lstrip, rstrip, is_empty, strip,
}
use text.Mathlib.TextEquality.{Char-path}

lower_char_idem : (c : Char) → lower_char (lower_char c) ≡ lower_char c
unfolding lower_char
lower_char_idem (char n p) = Char-path _ _ (ground arith)

is_space-lower_char : (c : Char) → is_space (code (lower_char c)) ≡ is_space (code c)
unfolding lower_char is_space
is_space-lower_char (char n p) = ground arith

lower_idem : (s : String) → lower (lower s) ≡ lower s
unfolding lower
lower_idem String.[] = refl
lower_idem (String.◌∷◌ c s) = ap₂ String.◌∷◌ (lower_char_idem c) (lower_idem s)

lower-lstrip : (s : String) → lower (lstrip s) ≡ lstrip (lower s)
unfolding lower lstrip
lower-lstrip String.[] = refl
lower-lstrip (String.◌∷◌ c s) = ground (arith, is_space-lower_char c, lower-lstrip s)

is_empty-lower : (s : String) → is_empty (lower s) ≡ is_empty s
unfolding lower is_empty
is_empty-lower String.[] = refl
is_empty-lower (String.◌∷◌ c s) = refl

lower-rstrip : (s : String) → lower (rstrip s) ≡ rstrip (lower s)
unfolding lower rstrip
lower-rstrip String.[] = refl
lower-rstrip (String.◌∷◌ c s) =
    ground (arith, is_space-lower_char c, lower-rstrip s, is_empty-lower (rstrip s))

lstrip-rstrip-lstrip : (s : String) → lstrip (rstrip (lstrip s)) ≡ rstrip (lstrip s)
unfolding lstrip rstrip
lstrip-rstrip-lstrip String.[] = refl
lstrip-rstrip-lstrip (String.◌∷◌ c s) = ground (arith, lstrip-rstrip-lstrip s)

rstrip_idem : (s : String) → rstrip (rstrip s) ≡ rstrip s
unfolding rstrip
rstrip_idem String.[] = refl
rstrip_idem (String.◌∷◌ c s) = ground (arith, rstrip_idem s)

pub lower-strip : (s : String) → lower (strip s) ≡ strip (lower s)
unfolding strip
lower-strip s = lower-rstrip (lstrip s) ∙ ap rstrip (lower-lstrip s)

pub strip_idem : (s : String) → strip (strip s) ≡ strip s
unfolding strip
strip_idem s = ap rstrip (lstrip-rstrip-lstrip s) ∙ rstrip_idem (lstrip s)

-- Trimming and lowering, done twice, is trimming and lowering done once.
pub lower-strip_idem : (s : String) → lower (strip (lower (strip s))) ≡ lower (strip s)
lower-strip_idem s = simp (lower-strip, lower_idem, strip_idem)
