-- ===== src/Json.antt =====
-- Decoded JSON as Python's `json` module gives it, and what the program does with such values.
-- A number keeps the text that `str()` shows of it and its amount.
use trade_receiver.Prelude.{
  String, Bool, true, false, not, Option, none, some, List, [], ◌∷◌, ◌==◌, if◌then◌else◌,
}
use trade_receiver.Prelude.Int.{pos, Decimal, eqb_ℤ}
use trade_receiver.Session.{Result, ok, err, Error, runtime_error}

mutual
  pub data Json : Type 0 where
    null : Json
    bool : Bool → Json
    number : String → Decimal → Json
    string : String → Json
    array : Items → Json
    object : Fields → Json

  pub data Items : Type 0 where
    nil : Items
    cons : Json → Items → Items

  pub data Fields : Type 0 where
    end : Fields
    field : String → Json → Fields → Fields

-- `d.get(key)` of a dictionary's fields
abbrev pub lookup : String → Fields → Option Json
lookup key end = none
lookup key (field k v fs) = if k == key then some v else lookup key fs

abbrev pub or_json : Option Json → Json → Json
or_json none d = d
or_json (some j) d = j

abbrev pub no_attribute : Error
no_attribute = runtime_error "AttributeError"

-- `value.get(key, default)`: only a dictionary has it
unfoldable pub get_or : String → Json → Json → Result Json
get_or key d (object fs) = ok (or_json (lookup key fs) d)
get_or key d _ = err no_attribute

abbrev pub get : String → Json → Result Json
get key j = get_or key null j

-- `bool(value)`
abbrev pub is_true : Json → Bool
is_true null = false
is_true (bool b) = b
is_true (number t v) = not (eqb_ℤ v (pos 0))
is_true (string s) = not (s == "")
is_true (array nil) = false
is_true (array _) = true
is_true (object end) = false
is_true (object _) = true

-- `value or default`
abbrev pub or_else : Json → Json → Json
or_else j d = if is_true j then j else d

abbrev pub is_object : Json → Bool
is_object (object fs) = true
is_object _ = false

-- `value if isinstance(value, dict) else {}`
abbrev pub object_or_empty : Json → Json
object_or_empty (object fs) = object fs
object_or_empty _ = object end

-- `str(value)`, given what it shows of lists and dictionaries
abbrev pub str : (Json → String) → Json → String
str show null = "None"
str show (bool true) = "True"
str show (bool false) = "False"
str show (number t v) = t
str show (string s) = s
str show j = show j

abbrev pub keys_of : Fields → List Json
keys_of end = []
keys_of (field k v fs) = string k ∷ keys_of fs

abbrev pub items_of : Items → List Json
items_of nil = []
items_of (cons j js) = j ∷ items_of js

abbrev pub letters : String → List Json
letters String.[] = []
letters (String.◌∷◌ c s) = string (String.◌∷◌ c String.[]) ∷ letters s

-- `for x in value`: the items of a list, the keys of a dictionary, the letters of a text
unfoldable pub iterate : Json → Result (List Json)
iterate (array js) = ok (items_of js)
iterate (object fs) = ok (keys_of fs)
iterate (string s) = ok (letters s)
iterate _ = err (runtime_error "TypeError")
