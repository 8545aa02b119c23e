-- ===== src/Prelude/Pattern.antt =====
-- JavaScript's regular expressions, as far as the program uses them: the ends of a match in the
-- order in which the engine tries them, `test`, and the global search. A star stands on a class
-- of characters only. A text is its code points.
pub mod Hits
use Prim.Native.Nat.{ℕ, zero, suc, ◌+◌, ◌-◌}
use Prim.Native.Char.{Char, code}
use Prim.Native.String.{String, [], ◌∷◌, char_at}
use mathlib.Core.Bool.{Bool, true, false, not, ◌&&◌, ◌||◌}
use mathlib.Core.Option.{Option, none, some}
use mathlib.Core.Option
use mathlib.Core.List
use mathlib.Core.List.{◌++◌, flat_map}
use gemini_agent_lib.Prelude.Tests.{leb, nat_eq, if◌then◌else◌}

abbrev pub CharClass : Type 0
CharClass = Char → Bool

pub data Pattern : Type 0 where
  -- `^` and `$`, without the flag `m`, and `\b`
  start finish boundary : Pattern
  -- a text as it is, and one under the flag `i`
  literal word : String → Pattern
  -- `[…]`, `[…]*` and `[…]*?`
  one many lazily : CharClass → Pattern
  -- `pq` and `p|q`
  both either : Pattern → Pattern → Pattern

-- the character before, if any, and the text that is left
abbrev pub Spot : Type 0
Spot = Option Char × String

-- `p?`
abbrev pub optional : Pattern → Pattern
optional p = either p (literal "")

-- `[…]+`
abbrev pub many1 : CharClass → Pattern
many1 t = both (one t) (many t)

-- `w₁|w₂|…` under the flag `i`
abbrev pub words : List.List String → Pattern
words List.[] = one (λ c. false)
words (List.◌∷◌ w List.[]) = word w
words (List.◌∷◌ w ws) = either (word w) (words ws)

abbrev pub any_char : CharClass
any_char c = true

abbrev pub is_digit : CharClass
is_digit c = let n = code c in leb 48 n && leb n 57

-- `.`
abbrev pub is_dot : CharClass
is_dot c = let n = code c in not (nat_eq n 10 || nat_eq n 13 || nat_eq n 0x2028 || nat_eq n 0x2029)

-- `[xyz]`
abbrev pub among : String → CharClass
among [] c = false
among (d ∷ ds) c = nat_eq (code c) (code d) || among ds c

-- `[^xyz]`
abbrev pub but : String → CharClass
but ds c = not (among ds c)

-- `\w`
is_word_char : CharClass
is_word_char c =
    let n = code c in
    leb 48 n && leb n 57 || leb 65 n && leb n 90 || leb 97 n && leb n 122 || nat_eq n 95

-- the letters that are equal under the flag `i`: those of Latin-1, which are all that the
-- program's patterns have
fold_char : Char → ℕ
fold_char c =
    let n = code c in
    if leb 65 n && leb n 90 || leb 0xc0 n && leb n 0xde && not (nat_eq n 0xd7) then n + 32 else n

same_char : Bool → Char → Char → Bool
same_char true c d = nat_eq (fold_char c) (fold_char d)
same_char false c d = nat_eq (code c) (code d)

-- a text at a spot
text_end : Bool → String → Option Char → String → List.List Spot
text_end fold [] b s = List.◌∷◌ (b, s) List.[]
text_end fold (c ∷ w) b [] = List.[]
text_end fold (c ∷ w) b (d ∷ s) =
    let rest = text_end fold w (some d) s in if same_char fold c d then rest else List.[]

longest : CharClass → Option Char → String → List.List Spot
longest t b [] = List.◌∷◌ (b, []) List.[]
longest t b (c ∷ s) =
    let here = List.◌∷◌ (b, c ∷ s) List.[] in
    let more = longest t (some c) s ++ here in if t c then more else here

shortest : CharClass → Option Char → String → List.List Spot
shortest t b [] = List.◌∷◌ (b, []) List.[]
shortest t b (c ∷ s) =
    let more = shortest t (some c) s in List.◌∷◌ (b, c ∷ s) (if t c then more else List.[])

in_word : Option Char → Bool
in_word none = false
in_word (some c) = is_word_char c

next_char : String → Option Char
next_char [] = none
next_char (c ∷ s) = some c

at_boundary : Spot → Bool
at_boundary (b, s) = let x = in_word b in let y = in_word (next_char s) in x && not y || y && not x

ends_one : CharClass → String → List.List Spot
ends_one t [] = List.[]
ends_one t (c ∷ s) = if t c then List.◌∷◌ (some c, s) List.[] else List.[]

at_start : Option Char → String → List.List Spot
at_start none s = List.◌∷◌ (none, s) List.[]
at_start (some c) s = List.[]

at_finish : Option Char → String → List.List Spot
at_finish b [] = List.◌∷◌ (b, []) List.[]
at_finish b (c ∷ s) = List.[]

-- where a match of the pattern ends, the engine's first choice first
unfoldable pub ends : Pattern → Spot → List.List Spot
unfolding at_start at_finish at_boundary text_end ends_one longest shortest is_word_char fold_char
    same_char in_word next_char flat_map
ends start x = at_start x.0 x.1
ends finish x = at_finish x.0 x.1
ends boundary x = if at_boundary x then List.◌∷◌ x List.[] else List.[]
ends (literal w) x = text_end false w x.0 x.1
ends (word w) x = text_end true w x.0 x.1
ends (one t) x = ends_one t x.1
ends (many t) x = longest t x.0 x.1
ends (lazily t) x = shortest t x.0 x.1
ends (both p q) x = flat_map (ends q) (ends p x)
ends (either p q) x = ends p x ++ ends q x

abbrev pub first : {A : Type 0} → List.List A → Option A
first List.[] = none
first (List.◌∷◌ a rest) = some a

abbrev pub has_item : {A : Type 0} → List.List A → Bool
has_item List.[] = false
has_item (List.◌∷◌ a rest) = true

test_from : Pattern → Option Char → String → Bool
unfolding ends
test_from p b [] = has_item (ends p (b, []))
test_from p b (c ∷ s) = has_item (ends p (b, c ∷ s)) || test_from p (some c) s

-- `p.test(s)`
unfoldable pub test : Pattern → String → Bool
unfolding test_from
test p s = test_from p none s

abbrev pub text_length : String → ℕ
text_length [] = 0
text_length (c ∷ s) = suc (text_length s)

abbrev pub take_text : ℕ → String → String
take_text zero s = []
take_text (suc n) [] = []
take_text (suc n) (c ∷ s) = c ∷ take_text n s

abbrev pub drop_text : ℕ → String → String
drop_text zero s = s
drop_text (suc n) [] = []
drop_text (suc n) (c ∷ s) = drop_text n s

abbrev pub picked : {A : Type 0} → Option (A × ℕ) → (ℕ → List.List A) → List.List A
picked none rest = rest 0
picked (some (a, n)) rest = List.◌∷◌ a (rest (n - 1))

-- A step of a global search: what is found at an index and how many characters it takes. The
-- search goes on behind it; the patterns searched for match no empty text.
module _ {A : Type 0} (step : ℕ → Spot → Option (A × ℕ)) where
  unfoldable pub scan_from : ℕ → Option Char → ℕ → String → List.List A
  scan_from i b skip [] = List.[]
  scan_from i b (suc skip) (c ∷ s) = scan_from (suc i) (some c) skip s
  scan_from i b zero (c ∷ s) =
      picked (step i (b, c ∷ s)) (λ skip. scan_from (suc i) (some c) skip s)

abbrev between : String → String → ℕ
between s t = text_length s - text_length t

-- a match, from its first character to the one behind its last
pub record Hit : Type 0 where
  pub first_index : ℕ
  pub end_index : ℕ

abbrev hit_at : ℕ → String → Option Spot → Option (Hit × ℕ)
hit_at i s none = none
hit_at i s (some e) =
    let n = between s e.1 in some (record { first_index = i; end_index = i + n }, n)

abbrev hit_step : Pattern → ℕ → Spot → Option (Hit × ℕ)
hit_step p i (b, s) = hit_at i s (first (ends p (b, s)))

-- the matches of a global search, by `exec` in a loop
unfoldable pub hits : Pattern → String → List.List Hit
unfolding ends scan_from
hits p s = scan_from (hit_step p) 0 none 0 s

-- A pattern `p(q)r` with the capture `q`: the text captured and what is behind the match.
unfoldable pub captures : Pattern → Pattern → Pattern → Spot → List.List (String × String)
unfolding ends
captures p q r x =
    flat_map
      (λ (y : Spot).
        flat_map
          (λ (z : Spot). List.map (λ (e : Spot). (take_text (between y.1 z.1) y.1, e.1)) (ends r z))
          (ends q y))
      (ends p x)

abbrev capture_step : Pattern → Pattern → Pattern → ℕ → Spot → Option (String × ℕ)
capture_step p q r i x =
    Option.map (λ (c : String × String). (c.0, between x.1 c.1)) (first (captures p q r x))

-- `[...s.matchAll(/p(q)r/g)].map(m => m[1])`
unfoldable pub match_all : Pattern → Pattern → Pattern → String → List.List String
unfolding captures scan_from
match_all p q r s = scan_from (capture_step p q r) 0 none 0 s

-- `s.replace(p, '')` with the flag `g`
delete_from : Pattern → Option Char → ℕ → String → String
unfolding ends
delete_from p b skip [] = []
delete_from p b (suc skip) (c ∷ s) = delete_from p (some c) skip s
delete_from p b zero (c ∷ s) = elim (first (ends p (b, c ∷ s))) [
  | none ↦ c ∷ delete_from p (some c) 0 s
  | some e ↦ delete_from p (some c) (between (c ∷ s) e.1 - 1) s
]

unfoldable pub delete_all : Pattern → String → String
unfolding delete_from
delete_all p s = delete_from p none 0 s

-- `s.replace(p, '')` for a pattern that begins with `^`
unfoldable pub delete_start : Pattern → String → String
unfolding ends
delete_start p s = elim (first (ends p (none, s))) [ none ↦ s | some e ↦ e.1 ]

abbrev group : String → Option (String × String) → Option (String × String)
group s none = none
group s (some (t, e)) = some (t, take_text (between s e) s)

abbrev or_match : {A : Type 0} → Option A → Option A → Option A
or_match none next = next
or_match (some a) next = some a

first_from : Pattern → Pattern → Pattern → Option Char → String → Option (String × String)
unfolding captures
first_from p q r b [] = group [] (first (captures p q r (b, [])))
first_from p q r b (c ∷ s) =
    or_match (group (c ∷ s) (first (captures p q r (b, c ∷ s)))) (first_from p q r (some c) s)

-- `s.match(/p(q)r/)`: the capture and the whole match
unfoldable pub match_first : Pattern → Pattern → Pattern → String → Option (String × String)
unfolding first_from
match_first p q r s = first_from p q r none s
