-- ===== src/Value/Pretty.antt =====
-- `JSON.stringify(v, null, 2)`: each element and each member on a line of its own.
use mathlib.Core.List
use gemini_agent_lib.Prelude.{String, true, false, Option, none, some, join, ◌+++◌}
use gemini_agent_lib.Value.{
  Value, undefined, null, bool, num, str, obj, arr, Fields, end, field, Items, nil, cons, decimal,
  quote, listed, or_null,
}

-- the lines between two brackets; none at all stand on one line
abbrev bracketed : String → String → String → List.List String → String
bracketed indent open_mark close_mark List.[] = open_mark +++ close_mark
bracketed indent open_mark close_mark (List.◌∷◌ s rest) =
    open_mark +++ "\n" +++ join ",\n" (List.◌∷◌ s rest) +++ "\n" +++ indent +++ close_mark

abbrev member_line : String → String → Option String → Option String
member_line indent k none = none
member_line indent k (some s) = some (indent +++ quote k +++ ": " +++ s)

unfoldable mutual
  unfolding decimal quote

  pub stringify_pretty : String → Value → Option String
  stringify_pretty indent undefined = none
  stringify_pretty indent null = some "null"
  stringify_pretty indent (bool true) = some "true"
  stringify_pretty indent (bool false) = some "false"
  stringify_pretty indent (num n) = some (decimal n)
  stringify_pretty indent (str s) = some (quote s)
  stringify_pretty indent (arr xs) =
      some (bracketed indent "[" "]" (pretty_items (indent +++ "  ") xs))
  stringify_pretty indent (obj fs) =
      some (bracketed indent "{" "}" (pretty_fields (indent +++ "  ") fs))

  pub pretty_items : String → Items → List.List String
  pretty_items indent nil = List.[]
  pretty_items indent (cons v xs) =
      List.◌∷◌ (indent +++ or_null (stringify_pretty indent v)) (pretty_items indent xs)

  pub pretty_fields : String → Fields → List.List String
  pretty_fields indent end = List.[]
  pretty_fields indent (field k v fs) =
      listed (member_line indent k (stringify_pretty indent v)) (pretty_fields indent fs)

-- `${JSON.stringify(v, null, 2)}`
unfoldable pub pretty_text : Value → String
unfolding stringify_pretty
pretty_text v = elim (stringify_pretty "" v) [ none ↦ "undefined" | some s ↦ s ]
