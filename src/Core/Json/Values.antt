-- ===== src/Core/Json/Values.antt =====
-- What Python makes of the values of a JSON document: dicts, truth, `str`, `int` and `==`. The module `json`
-- and what depends on the digits of a float are a parameter.
use Prim.Native.String.{◌++◌ as ◌<>◌}
use enterprise_llm_assistant.Core.Exceptions.{type_error, value_error}
use enterprise_llm_assistant.Core.Json.{
  Json, Items, Fields, null, boolean, number, float, text, array, object, no_items, item, no_fields,
  field,
}
use enterprise_llm_assistant.Prelude.{
  ℕ, suc, String, Bool, true, false, ◌&&◌, not, Option, none, some, List, [], ◌∷◌, ◌≡◌, refl,
}
use enterprise_llm_assistant.Prelude.{string_eq, eqb, ◌==◌, length}
use enterprise_llm_assistant.Prelude.Int.{ℤ, pos, negsuc, eqb_int}
use enterprise_llm_assistant.Prelude.Text.{truthy, decimal}
use enterprise_llm_assistant.Prelude.Text.Words.{int_of_text}
use enterprise_llm_assistant.Prelude.Dict
use enterprise_llm_assistant.Prelude.Dict.{Dict}
use enterprise_llm_assistant.Prelude.Exec.{Result, ok, raised}

pub record JsonText : Type 0 where
  -- `json.loads`; `none` is a JSONDecodeError.
  pub loads : String → Option Json
  -- The text of the JSONDecodeError.
  pub decode_error : String → String
  -- `dict(value)` of a value that is not a dict.
  pub dict_from : Json → Result (Dict String Json)
  -- `json.dumps`
  pub dumps : Json → String
  -- `repr` of a list, of a dict and of a text.
  pub repr : Json → String
  pub float_truthy : String → Bool
  -- `int` of a float, which an infinity does not have.
  pub float_int : String → Result ℤ
  pub float_is : String → ℤ → Bool
  pub same_float : String → String → Bool

-- A dict as a value, and back.
unfoldable pub fields_of : Dict String Json → Fields
fields_of [] = no_fields
fields_of ((k, v) ∷ d) = field k v (fields_of d)

unfoldable pub dict_of : Fields → Dict String Json
dict_of no_fields = []
dict_of (field k v fs) = (k, v) ∷ dict_of fs

pub dict_of-fields_of : (d : Dict String Json) → dict_of (fields_of d) ≡ d
unfolding dict_of fields_of
dict_of-fields_of [] = refl
dict_of-fields_of ((k, v) ∷ d) = rw (dict_of-fields_of d)

unfoldable pub items_of : List Json → Items
items_of [] = no_items
items_of (j ∷ js) = item j (items_of js)

unfoldable pub list_of : Items → List Json
list_of no_items = []
list_of (item j js) = j ∷ list_of js

-- `d.get(key)`
unfoldable pub get_json : String → Dict String Json → Json
get_json key d = elim (Dict.lookup key d) [ none ↦ null | some j ↦ j ]

abbrev pub text_or_null : Option String → Json
text_or_null none = null
text_or_null (some s) = text s

abbrev pub number_or_null : Option ℕ → Json
number_or_null none = null
number_or_null (some n) = number (pos n)

-- `str(n)` of a whole number
unfoldable pub int_text : ℤ → String
int_text (pos n) = decimal n
int_text (negsuc n) = "-" <> decimal (suc n)

module _ (J : JsonText) where
  -- `bool(value)`
  unfoldable pub is_truthy : Json → Bool
  is_truthy null = false
  is_truthy (boolean b) = b
  is_truthy (number n) = not (eqb_int n (pos 0))
  is_truthy (float f) = J.float_truthy f
  is_truthy (text s) = truthy s
  is_truthy (array no_items) = false
  is_truthy (array (item j js)) = true
  is_truthy (object no_fields) = false
  is_truthy (object (field k j fs)) = true

  -- `str(value)`
  unfoldable pub str : Json → String
  str null = "None"
  str (boolean true) = "True"
  str (boolean false) = "False"
  str (number n) = int_text n
  str (float f) = f
  str (text s) = s
  str (array js) = J.repr (array js)
  str (object fs) = J.repr (object fs)

  no_int : String → Result ℤ
  no_int kind = raised (
      type_error (
        "int() argument must be a string, a bytes-like object or a real number, not '" <> kind
        <> "'"))

  -- `int(value)`
  unfoldable pub int_of : Json → Result ℤ
  unfolding no_int
  int_of null = no_int "NoneType"
  int_of (boolean true) = ok (pos 1)
  int_of (boolean false) = ok (pos 0)
  int_of (number n) = ok n
  int_of (float f) = J.float_int f
  int_of (text s) = elim (int_of_text s) [
    | none ↦ raised (value_error ("invalid literal for int() with base 10: " <> J.repr (text s)))
    | some n ↦ ok n
  ]
  int_of (array js) = no_int "list"
  int_of (object fs) = no_int "dict"

  -- A boolean is a number to `==`.
  abbrev as_int : Bool → ℤ
  as_int true = pos 1
  as_int false = pos 0

  is_int : ℤ → Json → Bool
  is_int m (number n) = eqb_int m n
  is_int m (boolean b) = eqb_int m (as_int b)
  is_int m (float f) = J.float_is f m
  is_int m _ = false

  is_float : String → Json → Bool
  is_float f (float g) = J.same_float f g
  is_float f (number n) = J.float_is f n
  is_float f (boolean b) = J.float_is f (as_int b)
  is_float f _ = false

  is_text : String → Json → Bool
  is_text s (text t) = s == t
  is_text s _ = false

  -- `value == other`, where the order in a dict does not count.
  unfoldable mutual
    unfolding is_int is_float is_text dict_of

    pub same : Json → Json → Bool
    same null null = true
    same null _ = false
    same (boolean b) j = is_int (as_int b) j
    same (number n) j = is_int n j
    same (float f) j = is_float f j
    same (text s) j = is_text s j
    same (array js) (array ks) = same_items js ks
    same (array js) _ = false
    same (object fs) (object gs) =
        eqb (length (dict_of fs)) (length (dict_of gs)) && all_in fs (dict_of gs)
    same (object fs) _ = false

    pub same_items : Items → Items → Bool
    same_items no_items no_items = true
    same_items no_items (item k ks) = false
    same_items (item j js) no_items = false
    same_items (item j js) (item k ks) = same j k && same_items js ks

    pub all_in : Fields → Dict String Json → Bool
    all_in no_fields d = true
    all_in (field key j fs) d =
        elim (Dict.lookup key d) [ none ↦ false | some k ↦ same j k ] && all_in fs d
