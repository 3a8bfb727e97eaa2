-- ===== src/Prelude/Text/Words/Laws.antt =====
-- `split` takes apart what was written with spaces, and `strip` leaves a word as it is.
use Prim.Native.Char.{Char, char, code}
use Prim.Native.String.{String, ◌++◌ as ◌<>◌}
use mathlib.Core.Path.{◌≡◌, refl, ap, ◌∙◌}
use mathlib.Core.Bool.{Bool, true, false, ◌&&◌, not}
use mathlib.Core.List.{List, [], ◌∷◌}
use native.Mathlib.Omega.{arith}
use text.Mathlib.TextLemmas.{nil-append, cons-append}
use enterprise_llm_assistant.Prelude.Text.{is_space, is_empty, lstrip, rstrip, strip, truthy}
use enterprise_llm_assistant.Prelude.Text.Words.{runs, split}

-- No character is white space.
unfoldable pub spaceless : String → Bool
spaceless String.[] = true
spaceless (String.◌∷◌ c s) = not (is_space (code c)) && spaceless s

spaceless-cons :
    (c : Char) (w : String)
    → spaceless (String.◌∷◌ c w) ≡ true
    → (is_space (code c) ≡ false) × (spaceless w ≡ true)
unfolding spaceless
spaceless-cons c w h = (ground arith, ground arith)

runs-cons :
    (c : Char) (s : String)
    → is_space (code c) ≡ false
    → runs (String.◌∷◌ c s) ≡ (String.◌∷◌ c (runs s).0, (runs s).1)
unfolding runs
runs-cons c s h = ground arith

runs-word : (w : String) → spaceless w ≡ true → runs w ≡ (w, [])
unfolding runs
runs-word String.[] h = refl
runs-word (String.◌∷◌ c w) h =
    let (letter, rest) = spaceless-cons c w h in
    runs-cons c w letter
    ∙ ap (λ (r : String × List String). (String.◌∷◌ c r.0, r.1)) (runs-word w rest)

runs-space : (s : String) → runs (" " <> s) ≡ ("", split s)
unfolding runs split is_space
runs-space s = rw (cons-append (char b' ' tt) "" s, nil-append s) refl

runs-word_space : (w s : String) → spaceless w ≡ true → runs (w <> (" " <> s)) ≡ (w, split s)
runs-word_space String.[] s h = ap runs (nil-append (" " <> s)) ∙ runs-space s
runs-word_space (String.◌∷◌ c w) s h =
    let (letter, rest) = spaceless-cons c w h in
    ap runs (cons-append c w (" " <> s))
    ∙ runs-cons c (w <> (" " <> s)) letter
    ∙ ap (λ (r : String × List String). (String.◌∷◌ c r.0, r.1)) (runs-word_space w s rest)

-- A word, a space and a text.
pub split-word_space :
    (w s : String) → truthy w ≡ true → spaceless w ≡ true → split (w <> (" " <> s)) ≡ w ∷ split s
unfolding split
split-word_space w s some_char h = ground (arith, runs-word_space w s h)

pub split-word : (w : String) → truthy w ≡ true → spaceless w ≡ true → split w ≡ w ∷ []
unfolding split
split-word w some_char h = ground (arith, runs-word w h)

pub rstrip-word : (w : String) → spaceless w ≡ true → rstrip w ≡ w
unfolding rstrip spaceless
rstrip-word String.[] h = refl
rstrip-word (String.◌∷◌ c w) h = ground (arith, rstrip-word w)

is_empty-append : (s w : String) → truthy w ≡ true → is_empty (s <> w) ≡ false
unfolding is_empty truthy
is_empty-append String.[] w h = rw (nil-append w) (ground arith)
is_empty-append (String.◌∷◌ c s) w h = rw (cons-append c s w) refl

pub rstrip-append_word :
    (s w : String) → truthy w ≡ true → spaceless w ≡ true → rstrip (s <> w) ≡ s <> w
unfolding rstrip truthy
rstrip-append_word String.[] w some_char h = rw (nil-append w) (rstrip-word w h)
rstrip-append_word (String.◌∷◌ c s) w some_char h =
    rw (cons-append c s w) (ground (arith, rstrip-append_word s w some_char h, is_empty-append s w))

pub lstrip-cons :
    (c : Char) (s : String) → is_space (code c) ≡ false → lstrip (String.◌∷◌ c s) ≡ String.◌∷◌ c s
unfolding lstrip
lstrip-cons c s h = ground arith

pub strip-word : (w : String) → spaceless w ≡ true → strip w ≡ w
unfolding strip
strip-word String.[] h = refl
strip-word (String.◌∷◌ c w) h =
    ap rstrip (lstrip-cons c w (spaceless-cons c w h).0) ∙ rstrip-word (String.◌∷◌ c w) h
