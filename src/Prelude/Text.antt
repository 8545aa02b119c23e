-- ===== src/Prelude/Text.antt =====
-- JavaScript's string methods, over native texts.
use Prim.Native.Nat.{◌-◌}
use Prim.Native.Char.{Char, code}
use Prim.Native.String.{String, [], ◌∷◌, char_at}
use mathlib.Core.Path.{◌≡◌, refl}
use mathlib.Core.Bool.{Bool, true, false, ◌&&◌, ◌||◌}
use mathlib.Core.List.{List}
use native.Mathlib.Omega.{arith}
use text.Mathlib.Text.{starts_with}
use gemini_agent_lib.Prelude.Tests.{leb, nat_eq, if◌then◌else◌, Bool-cases}
use mathlib.Core.Logic.{inl, inr}

-- `s + t`
infixl 65 ◌+++◌
abbrev pub ◌+++◌ : String → String → String
s +++ t = Prim.Native.String.◌++◌ s t

-- The white space and line ends of ECMAScript.
unfoldable pub is_space : Char → Bool
is_space c =
    let n = code c in
    leb 9 n && leb n 13
    || nat_eq n 32
    || nat_eq n 0xa0
    || nat_eq n 0x1680
    || leb 0x2000 n && leb n 0x200a
    || nat_eq n 0x2028
    || nat_eq n 0x2029
    || nat_eq n 0x202f
    || nat_eq n 0x205f
    || nat_eq n 0x3000
    || nat_eq n 0xfeff

abbrev pub is_empty : String → Bool
is_empty [] = true
is_empty (c ∷ s) = false

trim_start : String → String
trim_start [] = []
trim_start (c ∷ s) = let rest = trim_start s in if is_space c then rest else c ∷ s

trim_end : String → String
trim_end [] = []
trim_end (c ∷ s) = let rest = trim_end s in if is_empty rest && is_space c then [] else c ∷ rest

-- `s.trim()`
unfoldable pub trim : String → String
unfolding trim_start trim_end is_space
trim s = trim_end (trim_start s)

-- `xs.join(sep)`
abbrev pub join : String → List String → String
join sep List.[] = ""
join sep (List.◌∷◌ x List.[]) = x
join sep (List.◌∷◌ x xs) = x +++ sep +++ join sep xs

-- `s.includes(t)`
abbrev pub includes_text : String → String → Bool
includes_text [] t = is_empty t
includes_text (c ∷ s) t = starts_with (c ∷ s) t || includes_text s t

-- `s.toLowerCase()`, for the letters A to Z; the others are left alone
lower_char : Char → Char
lower_char c =
    let n = code c in
    if leb 65 n && leb n 90 then char_at "abcdefghijklmnopqrstuvwxyz" (n - 65) else c

unfoldable pub to_lower_case : String → String
unfolding lower_char
to_lower_case [] = []
to_lower_case (c ∷ s) = lower_char c ∷ to_lower_case s

-- `s.split('\n')`, behind the line `cur`
split_from : String → String → List String
split_from cur [] = List.◌∷◌ cur List.[]
split_from cur (c ∷ s) =
    let closed = List.◌∷◌ cur (split_from "" s) in
    let longer = split_from (cur +++ (c ∷ [])) s in if nat_eq (code c) 10 then closed else longer

unfoldable pub split_lines : String → List String
unfolding split_from
split_lines = split_from ""

trim_end_idem : (s : String) → trim_end (trim_end s) ≡ trim_end s
unfolding trim_end
trim_end_idem [] = refl
trim_end_idem (c ∷ s) = ground (arith, trim_end_idem s)

-- A text that does not begin with a space is left as it is by `trim_start`.
abbrev NoSpaceFirst : String → Type 0
NoSpaceFirst [] = Unit
NoSpaceFirst (c ∷ s) = is_space c ≡ false

NoSpaceFirst-trim_start : (s : String) → NoSpaceFirst (trim_start s)
unfolding trim_start
NoSpaceFirst-trim_start [] = tt
NoSpaceFirst-trim_start (c ∷ s) = elim (Bool-cases (is_space c)) [
  | inl e ↦ rw e (NoSpaceFirst-trim_start s)
  | inr e ↦ rw e e
]

NoSpaceFirst-trim_end : (s : String) → NoSpaceFirst s → NoSpaceFirst (trim_end s)
unfolding trim_end
NoSpaceFirst-trim_end [] h = tt
NoSpaceFirst-trim_end (c ∷ s) h = elim (Bool-cases (is_empty (trim_end s))) [
  | inl e ↦ rw (e, h) h
  | inr e ↦ rw e h
]

trim_start_of_NoSpaceFirst : (s : String) → NoSpaceFirst s → trim_start s ≡ s
unfolding trim_start
trim_start_of_NoSpaceFirst [] h = refl
trim_start_of_NoSpaceFirst (c ∷ s) h = rw h

-- Trimming a second time changes nothing.
pub trim_idem : (s : String) → trim (trim s) ≡ trim s
unfolding trim
trim_idem s =
    let h = NoSpaceFirst-trim_end (trim_start s) (NoSpaceFirst-trim_start s) in
    rw (trim_start_of_NoSpaceFirst _ h) (trim_end_idem (trim_start s))

-- `s.split('\n\n')` behind the text `cur`
abbrev is_newline : Char → Bool
is_newline c = nat_eq (code c) 10

split_blank_from : String → String → List String
split_blank_from cur [] = List.◌∷◌ cur List.[]
split_blank_from cur (c ∷ []) = List.◌∷◌ (cur +++ (c ∷ [])) List.[]
split_blank_from cur (c ∷ d ∷ s) =
    let closed = List.◌∷◌ cur (split_blank_from "" s) in
    let longer = split_blank_from (cur +++ (c ∷ [])) (d ∷ s) in
    if is_newline c && is_newline d then closed else longer

unfoldable pub split_blank_lines : String → List String
unfolding split_blank_from
split_blank_lines = split_blank_from ""
