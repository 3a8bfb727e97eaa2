-- ===== src/Clients/Kubernetes/Query/RoundTrip.antt =====
-- What the commands of the playbook's description are parsed to.
use Prim.Native.String.{◌++◌ as ◌<>◌}
use Prim.Native.Char.{char}
use package.text.Mathlib.TextLemmas.{cons-append, append_assoc}
use enterprise_llm_assistant.Core.Json.{number, text}
use enterprise_llm_assistant.Core.Json.Values.{JsonText, int_of}
use enterprise_llm_assistant.Clients.KubernetesApi.{Answer}
use enterprise_llm_assistant.Clients.Kubernetes.Query.{
  json_dict, parse_words, parse_k8s_query, scaled,
}
use enterprise_llm_assistant.Prelude.{
  ℕ, String, true, false, [], ◌∷◌, ◌≡◌, refl, sym, ◌∙◌, ap, arith,
}
use enterprise_llm_assistant.Prelude.{string_eq}
use enterprise_llm_assistant.Prelude.Int.{pos}
use enterprise_llm_assistant.Prelude.Text.{
  truthy, decimal, strip, lower, lstrip, rstrip, starts_with, is_space,
}
use enterprise_llm_assistant.Prelude.Text.Words.{split}
use enterprise_llm_assistant.Prelude.Text.Words.Laws.{
  spaceless, lstrip-cons, rstrip-append_word, split-word_space, split-word,
}
use enterprise_llm_assistant.Prelude.Text.Words.Digits.{
  truthy-decimal, spaceless-decimal, int_of_text-decimal,
}
use enterprise_llm_assistant.Prelude.Exec.{ok}

-- `scale deploy NAME N`
abbrev pub scale_command : String → ℕ → String
scale_command name n = "scale" <> (" " <> ("deploy" <> (" " <> (name <> (" " <> decimal n)))))

abbrev pub scaling : String → ℕ → Answer
scaling name n =
    ("action", text "scale")
    ∷ ("kind", text "deployment")
    ∷ ("name", text name)
    ∷ ("replicas", number (pos n))
    ∷ []

split-scale_command :
    (name : String) (n : ℕ)
    → truthy name ≡ true
    → spaceless name ≡ true
    → split (scale_command name n) ≡ "scale" ∷ "deploy" ∷ name ∷ decimal n ∷ []
unfolding spaceless truthy is_space
split-scale_command name n some_char h =
    split-word_space "scale" _ refl refl
    ∙ ap (λ ws. "scale" ∷ ws)
        (split-word_space "deploy" _ refl refl
          ∙ ap (λ ws. "deploy" ∷ ws)
              (split-word_space name _ some_char h
                ∙ ap (λ ws. name ∷ ws)
                    (split-word (decimal n) (truthy-decimal n) (spaceless-decimal n))))

scaled-decimal :
    (J : JsonText) (name : String) (n : ℕ) → scaled J (name ∷ decimal n ∷ []) ≡ ok (scaling name n)
unfolding scaled int_of
scaled-decimal J name n = ground (arith, int_of_text-decimal n)

scaled_words :
    (J : JsonText) (whole name : String) (n : ℕ)
    → parse_words J whole ("scale" ∷ "deploy" ∷ name ∷ decimal n ∷ [])
      ≡ scaled J (name ∷ decimal n ∷ [])
unfolding parse_words string_eq lower
scaled_words J whole name n = refl

abbrev before_number : String → String
before_number name = "scale" <> (" " <> ("deploy" <> (" " <> (name <> " "))))

scale_command-number :
    (name : String) (n : ℕ) → before_number name <> decimal n ≡ scale_command name n
scale_command-number name n = simp append_assoc

scale_command-cons :
    (name : String) (n : ℕ)
    → scale_command name n
      ≡ String.◌∷◌
          (char b's' tt)
          ("cale" <> (" " <> ("deploy" <> (" " <> (name <> (" " <> decimal n))))))
scale_command-cons name n = cons-append (char b's' tt) "cale" _

-- The command begins with a letter and ends with a digit.
strip-scale_command : (name : String) (n : ℕ) → strip (scale_command name n) ≡ scale_command name n
unfolding strip is_space
strip-scale_command name n =
    ap (λ s. rstrip (lstrip s)) (scale_command-cons name n)
    ∙ ap rstrip (
        lstrip-cons (char b's' tt) _ refl
        ∙ sym (scale_command-cons name n)
        ∙ sym (scale_command-number name n))
    ∙ rstrip-append_word (before_number name) (decimal n) (truthy-decimal n) (spaceless-decimal n)
    ∙ scale_command-number name n

no_brace : (name : String) (n : ℕ) → starts_with "{" (scale_command name n) ≡ false
unfolding starts_with
no_brace name n = ap (starts_with "{") (scale_command-cons name n)

-- The command `scale deploy NAME N`, with a name that has no white space, is parsed to the scaling of
-- the deployment NAME to N replicas.
pub parse-scale_command :
    (J : JsonText) (name : String) (n : ℕ)
    → truthy name ≡ true
    → spaceless name ≡ true
    → parse_k8s_query J (scale_command name n) ≡ ok (scaling name n)
unfolding parse_k8s_query json_dict
parse-scale_command J name n some_char h = ground (
  arith,
  strip-scale_command name n,
  no_brace name n,
  split-scale_command name n some_char h,
  scaled_words J (scale_command name n) name n,
  scaled-decimal J name n,
)
