-- ===== src/Value.antt =====
-- JavaScript values as tools take and return them, and what the library does with one: its
-- truth value, its members, and `JSON.stringify`. Numbers are naturals; functions, symbols and
-- cyclic objects are left out.
pub mod Pretty
use Prim.Native.String.{[], ◌∷◌, char_at}
use mathlib.Core.List
use gemini_agent_lib.Prelude.{
  ℕ, zero, suc, ◌/◌, ◌%◌, String, Char, code, Bool, true, false, not, Option, none, some, ltb,
  nat_eq, ◌==◌, ◌+++◌, is_empty, join, if◌then◌else◌,
}

mutual
  pub data Value : Type 0 where
    undefined null : Value
    bool : Bool → Value
    num : ℕ → Value
    str : String → Value
    obj : Fields → Value
    arr : Items → Value

  pub data Fields : Type 0 where
    end : Fields
    field : String → Value → Fields → Fields

  pub data Items : Type 0 where
    nil : Items
    cons : Value → Items → Items

-- `!!v`
abbrev pub truthy : Value → Bool
truthy undefined = false
truthy null = false
truthy (bool b) = b
truthy (num n) = not (nat_eq n 0)
truthy (str s) = not (is_empty s)
truthy (arr xs) = true
truthy (obj fs) = true

-- `fs[k]`
abbrev pub member : Fields → String → Value
member end k = undefined
member (field j v fs) k = let rest = member fs k in if j == k then v else rest

-- `v.k`, where `v` is neither `undefined` nor `null` (a text's own members are not used)
abbrev pub get_member : Value → String → Value
get_member (obj fs) k = member fs k
get_member v k = undefined

abbrev pub is_undefined : Value → Bool
is_undefined undefined = true
is_undefined v = false

digit : ℕ → String
digit n = char_at "0123456789" n ∷ []

decimal_from : ℕ → ℕ → String
decimal_from zero n = ""
decimal_from (suc fuel) n =
    let rest = decimal_from fuel (n / 10) in if ltb n 10 then digit n else rest +++ digit (n % 10)

-- A number has at most as many digits as its successor has units.
unfoldable pub decimal : ℕ → String
unfolding digit decimal_from
decimal n = decimal_from (suc n) n

hex_digit : ℕ → String
hex_digit n = char_at "0123456789abcdef" n ∷ []

escape_char : Char → String
escape_char c =
    let n = code c in
    if nat_eq n 0x22
    then "\\\""
    else if nat_eq n 0x5c
    then "\\\\"
    else if nat_eq n 8
    then "\\b"
    else if nat_eq n 12
    then "\\f"
    else if nat_eq n 10
    then "\\n"
    else if nat_eq n 13
    then "\\r"
    else if nat_eq n 9
    then "\\t"
    else if ltb n 32
    then "\\u00" +++ hex_digit (n / 16) +++ hex_digit (n % 16)
    else c ∷ []

escape : String → String
escape [] = ""
escape (c ∷ s) = escape_char c +++ escape s

quote : String → String
quote s = "\"" +++ escape s +++ "\""

abbrev listed : Option String → List.List String → List.List String
listed none rest = rest
listed (some s) rest = List.◌∷◌ s rest

abbrev or_null : Option String → String
or_null none = "null"
or_null (some s) = s

abbrev keyed : String → Option String → Option String
keyed k none = none
keyed k (some s) = some (quote k +++ ":" +++ s)

-- `JSON.stringify(v)`: `undefined` gives `undefined`, is `null` in an array, and is left out of
-- an object.
unfoldable mutual
  unfolding decimal escape escape_char hex_digit quote

  pub stringify : Value → Option String
  stringify undefined = none
  stringify null = some "null"
  stringify (bool true) = some "true"
  stringify (bool false) = some "false"
  stringify (num n) = some (decimal n)
  stringify (str s) = some (quote s)
  stringify (arr xs) = some ("[" +++ join "," (stringify_items xs) +++ "]")
  stringify (obj fs) = some ("{" +++ join "," (stringify_fields fs) +++ "}")

  pub stringify_items : Items → List.List String
  stringify_items nil = List.[]
  stringify_items (cons v xs) = List.◌∷◌ (or_null (stringify v)) (stringify_items xs)

  pub stringify_fields : Fields → List.List String
  stringify_fields end = List.[]
  stringify_fields (field k v fs) = listed (keyed k (stringify v)) (stringify_fields fs)

-- `${JSON.stringify(v)}`
abbrev pub json_text : Value → String
json_text v = elim (stringify v) [ none ↦ "undefined" | some s ↦ s ]

-- `String(v)`, which a template and a property key take: a list is its elements joined, where
-- `undefined` and `null` are empty.
unfoldable mutual
  unfolding decimal

  pub to_text : Value → String
  to_text undefined = "undefined"
  to_text null = "null"
  to_text (bool true) = "true"
  to_text (bool false) = "false"
  to_text (num n) = decimal n
  to_text (str s) = s
  to_text (arr xs) = join "," (item_texts xs)
  to_text (obj fs) = "[object Object]"

  pub item_texts : Items → List.List String
  item_texts nil = List.[]
  item_texts (cons undefined xs) = List.◌∷◌ "" (item_texts xs)
  item_texts (cons null xs) = List.◌∷◌ "" (item_texts xs)
  item_texts (cons (bool b) xs) = List.◌∷◌ (to_text (bool b)) (item_texts xs)
  item_texts (cons (num n) xs) = List.◌∷◌ (to_text (num n)) (item_texts xs)
  item_texts (cons (str s) xs) = List.◌∷◌ s (item_texts xs)
  item_texts (cons (arr ys) xs) = List.◌∷◌ (join "," (item_texts ys)) (item_texts xs)
  item_texts (cons (obj fs) xs) = List.◌∷◌ "[object Object]" (item_texts xs)
