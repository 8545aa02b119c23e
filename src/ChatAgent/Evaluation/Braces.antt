-- ===== src/ChatAgent/Evaluation/Braces.antt =====
-- Which part of the model's answer `_evaluateAndManageMemories` of lib/chat-agent.js reads as JSON.
use Prim.Native.String.{[], ◌∷◌}
use text.Mathlib.TextLemmas.{nil-append, cons-append}
use gemini_agent_lib.Prelude.{
  ℕ, String, Char, code, ◌≡◌, refl, ap, sym, ◌∙◌, Bool, true, false, ◌||◌, ◌⊎◌, inl, inr, Option,
  none, some, nat_eq, Bool-cases, is_empty, arith, ◌+++◌, if◌then◌else◌,
}
use gemini_agent_lib.ChatAgent.Evaluation.{grown, to_last_brace, match_braces}

abbrev pub has_code : ℕ → String → Bool
has_code n [] = false
has_code n (c ∷ s) = nat_eq (code c) n || has_code n s

abbrev pub starts_with_code : ℕ → String → Bool
starts_with_code n [] = false
starts_with_code n (c ∷ s) = nat_eq (code c) n

abbrev pub ends_with_code : ℕ → String → Bool
ends_with_code n [] = false
ends_with_code n (c ∷ s) =
    let rest = ends_with_code n s in if is_empty s then nat_eq (code c) n else rest

-- a text cut behind its last closing brace, if it has one
abbrev LastCut : String → Option String → Type 0
LastCut s none = has_code 125 s ≡ false
LastCut s (some t) =
    (post : String) × (s ≡ t +++ post)
    × (has_code 125 post ≡ false)
    × (starts_with_code 123 t ≡ starts_with_code 123 s)
    × (ends_with_code 125 t ≡ true)

longer : (c : Char) (s : String) (o : Option String) → LastCut s o → LastCut (c ∷ s) (grown c o)
longer c s none h = elim (Bool-cases (nat_eq (code c) 125)) [
  | inl q ↦ rw q (s, sym (cons-append c [] s ∙ ap (λ t. c ∷ t) (nil-append s)), h, refl, q)
  | inr q ↦ rw q (rw q h)
]
longer c s (some []) (post, e, h, f, g) = ground (arith, g)
longer c s (some (d ∷ t)) (post, e, h, f, g) =
    (post, ap (λ u. c ∷ u) e ∙ sym (cons-append c (d ∷ t) post), h, refl, g)

last_cut : (s : String) → LastCut s (to_last_brace s)
last_cut [] = refl
last_cut (c ∷ s) = longer c s (to_last_brace s) (last_cut s)

-- what `match_braces` finds in a text
abbrev pub Cut : String → Option String → Type 0
Cut s none =
    (pre : String) × (rest : String) × (s ≡ pre +++ rest)
    × (has_code 123 pre ≡ false)
    × (has_code 125 rest ≡ false)
    × ((rest ≡ "") ⊎ (starts_with_code 123 rest ≡ true))
Cut s (some t) =
    (pre : String) × (post : String) × (s ≡ pre +++ t +++ post)
    × (has_code 123 pre ≡ false)
    × (has_code 125 post ≡ false)
    × (starts_with_code 123 t ≡ true)
    × (ends_with_code 125 t ≡ true)

-- the cut where the text begins with an opening brace
opened : (s : String) (o : Option String) → starts_with_code 123 s ≡ true → LastCut s o → Cut s o
opened s none b h = ("", s, sym (nil-append s), refl, h, inr b)
opened s (some t) b (post, e, h, f, g) =
    ("", post, e ∙ ap (λ u. u +++ post) (sym (nil-append t)), refl, h, f ∙ b, g)

-- the cut where it begins with another character
skipped :
    (c : Char) (s : String) (o : Option String)
    → nat_eq (code c) 123 ≡ false
    → Cut s o
    → Cut (c ∷ s) o
skipped c s none b (pre, rest, e, h, k, r) =
    (c ∷ pre, rest, ap (λ u. c ∷ u) e ∙ sym (cons-append c pre rest), rw b h, k, r)
skipped c s (some t) b (pre, post, e, h, k, f, g) = (
  c ∷ pre,
  post,
  ap (λ u. c ∷ u) e
      ∙ sym (cons-append c (pre +++ t) post)
      ∙ ap (λ u. u +++ post) (sym (cons-append c pre t)),
  rw b h,
  k,
  f,
  g,
)

-- The part of a text that is read as JSON begins at the text's first opening brace and ends at
-- its last closing one; where there is none, no closing brace stands behind the first opening
-- brace, if there is one.
pub match_braces-cut : (s : String) → Cut s (match_braces s)
match_braces-cut [] = ("", "", refl, refl, refl, inl refl)
match_braces-cut (c ∷ s) =
    let rest = match_braces-cut s in
    elim (Bool-cases (nat_eq (code c) 123)) [
      | inl e ↦ rw e (opened (c ∷ s) (to_last_brace (c ∷ s)) e (last_cut (c ∷ s)))
      | inr e ↦ rw e (skipped c s (match_braces s) e rest)
    ]
