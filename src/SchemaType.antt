-- ===== src/SchemaType.antt =====
-- lib/function-declaration-schema-type.js, and `toUpperCase` as far as a comparison with the
-- names of the types can tell.
use Prim.Native.String.{[], ◌∷◌, char_at}
use gemini_agent_lib.Prelude.{◌-◌, String, Char, code, ◌&&◌, leb, nat_eq, ◌+++◌, if◌then◌else◌}

pub data SchemaType : Type 0 where
  string number boolean object array null any : SchemaType

-- the value of each member of the enumeration
abbrev pub text : SchemaType → String
text string = "STRING"
text number = "NUMBER"
text boolean = "BOOLEAN"
text object = "OBJECT"
text array = "ARRAY"
text null = "NULL"
text any = "ANY"

-- The letters a to z, and the others whose upper case holds an ASCII letter of a type's name:
-- dotless i, long s, and the two ligatures of s and t.
upper_char : Char → String
upper_char c =
    let n = code c in
    if leb 97 n && leb n 122
    then char_at "ABCDEFGHIJKLMNOPQRSTUVWXYZ" (n - 97) ∷ []
    else if nat_eq n 0x131
    then "I"
    else if nat_eq n 0x17f
    then "S"
    else if nat_eq n 0xfb05
    then "ST"
    else if nat_eq n 0xfb06
    then "ST"
    else c ∷ []

unfoldable pub to_upper_case : String → String
unfolding upper_char
to_upper_case [] = ""
to_upper_case (c ∷ s) = upper_char c +++ to_upper_case s
