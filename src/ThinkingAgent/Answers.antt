-- ===== src/ThinkingAgent/Answers.antt =====
-- What `processThinkingResponse` keeps of a response that is no JSON.
use text.Mathlib.TextLemmas.{cons-append}
use gemini_agent_lib.Prelude.{
  ℕ, zero, suc, ◌-◌, ◌/◌, ◌<◌, String, ◌≡◌, refl, sym, ap, ◌∙◌, subst, inl, inr, Bool, true, false,
  not, ◌&&◌, Bool-cases, Option, none, some, List, [], ◌∷◌, length, take, drop, length-drop, keep,
  All, leb, ltb, is_empty, join, trim, ◌+++◌, arith, split_blank_lines,
}
use gemini_agent_lib.Prelude.Action.{Outcome, thrown}
use gemini_agent_lib.Value.{Value}
use gemini_agent_lib.ThinkingAgent.{
  Processed, answered, last_text, stated_answer, by_steps, by_structure, with_steps, with_section,
  read_text, process_thinking_response,
}
use gemini_agent_lib.ThinkingAgent.Patterns.{has_step_title, has_list}
use gemini_agent_lib.ThinkingAgent.Sections.{
  nonblank, paragraphs_of, sections, steps_before, located, colon_text,
}

abbrev pub HasText : String → Type 0
HasText s = is_empty s ≡ false

HasText-of_trim : (s : String) → HasText (trim s) → HasText s
unfolding trim
HasText-of_trim String.[] h = h
HasText-of_trim (String.◌∷◌ c s) h = refl

HasText-append : (s t : String) → HasText s → HasText (s +++ t)
HasText-append String.[] t h = cc
HasText-append (String.◌∷◌ c s) t h = rw cons-append refl

pub HasText-join : (sep p : String) (ps : List String) → HasText p → HasText (join sep (p ∷ ps))
HasText-join sep p [] h = h
HasText-join sep p (q ∷ qs) h = HasText-append (p +++ sep) _ (HasText-append p sep h)

All-keep : (good : String → Bool) (xs : List String) → All (λ x. good x ≡ true) (keep good xs)
All-keep good [] = tt
All-keep good (x ∷ xs) = elim (Bool-cases (good x)) [
  | inl e ↦ rw e (e, All-keep good xs)
  | inr e ↦ rw e (All-keep good xs)
]

All-weaken :
    (P Q : String → Type 0) (xs : List String) → ((x : String) → P x → Q x) → All P xs → All Q xs
All-weaken P Q [] f h = tt
All-weaken P Q (x ∷ xs) f (p, h) = (f x p, All-weaken P Q xs f h)

of_not : (b : Bool) → not b ≡ true → b ≡ false
of_not b h = ground arith

pub paragraphs_of-HasText : (s : String) → All HasText (paragraphs_of s)
unfolding paragraphs_of
paragraphs_of-HasText s =
    All-weaken _ HasText _ (λ x h. HasText-of_trim x (of_not _ h))
      (All-keep _ (split_blank_lines s))

module _ (P : String → Type 0) where
  All-take : (n : ℕ) (xs : List String) → All P xs → All P (take n xs)
  All-take zero xs h = tt
  All-take (suc n) [] h = tt
  All-take (suc n) (x ∷ xs) (p, h) = (p, All-take n xs h)

  All-drop : (n : ℕ) (xs : List String) → All P xs → All P (drop n xs)
  All-drop zero xs h = h
  All-drop (suc n) [] h = tt
  All-drop (suc n) (x ∷ xs) (p, h) = All-drop n xs h

  All-last_text : (p : String) (ps : List String) → P p → All P ps → P (last_text p ps)
  All-last_text p [] h hs = h
  All-last_text p (q ∷ qs) h (k, ks) = All-last_text q qs k ks

-- A first part of a first part is one.
take-take : (m n : ℕ) (xs : List String) → (k : ℕ) × (take m (take n xs) ≡ take k xs)
take-take zero n xs = (0, refl)
take-take (suc m) zero xs = (0, refl)
take-take (suc m) (suc n) [] = (0, refl)
take-take (suc m) (suc n) (x ∷ xs) = let (k, e) = take-take m n xs in (suc k, ap (λ r. x ∷ r) e)

-- A part of the steps that was taken before, and an answer that is not empty.
abbrev Kept : String → List String → Processed → Type 0
Kept raw ps r = (n : ℕ) × (t : String) × (r ≡ answered raw t (join "\n\n" (take n ps))) × HasText t

join_of_some :
    (sep : String) (ps : List String) → All HasText ps → 0 < length ps → HasText (join sep ps)
join_of_some sep [] h k = absurd (omega arith)
join_of_some sep (p ∷ ps) (h, hs) k = HasText-join sep p ps h

by_structure-Kept :
    (raw : String) (ps : List String)
    → HasText raw
    → All HasText ps
    → Kept raw ps (by_structure raw ps)
by_structure-Kept raw [] h hs = (0, raw, refl, h)
by_structure-Kept raw (p ∷ ps) h (k, ks) =
    elim (Bool-cases (has_list raw && ltb 1 (length (p ∷ ps)))) [
      | inl e ↦ rw e (length (p ∷ ps) - 1, last_text p ps, refl, All-last_text HasText p ps k ks)
      | inr e ↦ rw e (elim (Bool-cases (leb (length (p ∷ ps)) 5)) [
        | inl f ↦ rw f (0, raw, refl, h)
        | inr f ↦ rw f (
          length (p ∷ ps) / 2,
          join "\n\n" (drop (length (p ∷ ps) / 2) (p ∷ ps)),
          refl,
          join_of_some "\n\n" (drop (length (p ∷ ps) / 2) (p ∷ ps))
              (All-drop HasText (length (p ∷ ps) / 2) (p ∷ ps) (k, ks))
              (omega (arith, length-drop (length (p ∷ ps) / 2) (p ∷ ps))),
        )
      ])
    ]

nonblank-HasText : (o : Option String) (t : String) → nonblank o ≡ some t → HasText t
nonblank-HasText none t h = cc
nonblank-HasText (some s) t h = elim (Bool-cases (is_empty (trim s))) [
  | inl e ↦ ground (arith, h, e)
  | inr e ↦ ground (arith, h, e)
]

-- the steps are a first part of the paragraphs
abbrev FirstPart : List String → List String → Type 0
FirstPart ps steps = (n : ℕ) × (steps ≡ take n ps)

by_steps-Kept :
    (raw : String) (ps : List String) (o : Option String) (s : String) (ss : List String)
    → ((t : String) → o ≡ some t → HasText t)
    → All HasText (s ∷ ss)
    → FirstPart ps (s ∷ ss)
    → Kept raw ps (by_steps raw o s ss)
by_steps-Kept raw ps (some t) s ss h k (n, e) =
    (n, t, ap (λ x. answered raw t (join "\n\n" x)) e, h t refl)
by_steps-Kept raw ps none s ss h (k, ks) (n, e) =
    let (m, q) = take-take (length (s ∷ ss) - 1) n ps in
    let initial_part = ap (take (length (s ∷ ss) - 1)) e ∙ q in
    (
      m,
      last_text s ss,
      ap (λ x. answered raw (last_text s ss) (join "\n\n" x)) initial_part,
      All-last_text HasText s ss k ks,
    )

pub colon_text-HasText : (p t : String) → colon_text p ≡ some t → HasText t
unfolding colon_text
colon_text-HasText p t = nonblank-HasText _ t

stated_answer-HasText : (raw t : String) → stated_answer raw ≡ some t → HasText t
unfolding stated_answer
stated_answer-HasText raw t = nonblank-HasText _ t

with_steps-Kept :
    (raw : String) (ps steps : List String)
    → HasText raw
    → All HasText ps
    → All HasText steps
    → FirstPart ps steps
    → Kept raw ps (with_steps raw ps steps)
with_steps-Kept raw ps [] h hs k part = by_structure-Kept raw ps h hs
with_steps-Kept raw ps (s ∷ ss) h hs k part =
    by_steps-Kept raw ps (stated_answer raw) s ss (stated_answer-HasText raw) k part

with_section-Kept :
    (raw : String) (ps : List String) (o : Option String) (steps : List String)
    → HasText raw
    → All HasText ps
    → All HasText steps
    → FirstPart ps steps
    → Kept raw ps (with_section raw ps o steps)
with_section-Kept raw ps none steps h hs k part = with_steps-Kept raw ps steps h hs k part
with_section-Kept raw ps (some t) steps h hs k (n, e) = elim (Bool-cases (is_empty t)) [
  | inl q ↦ rw q (with_steps-Kept raw ps steps h hs k (n, e))
  | inr q ↦ rw q (n, t, ap (λ x. answered raw t (join "\n\n" x)) e, q)
]

steps_before-FirstPart :
    (i : Option ℕ) (has_title : Bool) (ps : List String)
    → FirstPart ps (steps_before i has_title ps)
unfolding steps_before
steps_before-FirstPart (some (suc i)) t ps = (suc i, refl)
steps_before-FirstPart (some zero) t ps = elim (Bool-cases (t && ltb 1 (length ps))) [
  | inl e ↦ rw e (length ps - 1, refl)
  | inr e ↦ rw e (0, refl)
]
steps_before-FirstPart none t ps = elim (Bool-cases (t && ltb 1 (length ps))) [
  | inl e ↦ rw e (length ps - 1, refl)
  | inr e ↦ rw e (0, refl)
]

sections-FirstPart : (raw : String) (ps : List String) → FirstPart ps (sections raw ps).1
unfolding sections
sections-FirstPart raw ps =
    steps_before-FirstPart (located (has_step_title raw) ps).index (has_step_title raw) ps

FirstPart-All :
    (P : String → Type 0) (ps steps : List String) → FirstPart ps steps → All P ps → All P steps
FirstPart-All P ps steps (n, e) h = subst (All P) (sym e) (All-take P n ps h)

read_text-Kept : (raw : String) → HasText raw → Kept raw (paragraphs_of raw) (read_text raw)
unfolding read_text
read_text-Kept raw h =
    let ps = paragraphs_of raw in
    let part = sections-FirstPart raw ps in
    let hs = paragraphs_of-HasText raw in
    with_section-Kept raw ps (sections raw ps).0 (sections raw ps).1 h hs
      (FirstPart-All HasText ps (sections raw ps).1 part hs) part

-- Of a response that is not empty and no JSON, the final answer is a text that is not empty, the
-- steps are a number of its first paragraphs, joined by a blank line, and the response is kept; no
-- error is reported.
pub process_thinking_response-Kept :
    (parse_json : String → Outcome Value) (raw e : String)
    → parse_json raw ≡ thrown e
    → HasText raw
    → (n : ℕ) × (t : String) × (process_thinking_response parse_json (some raw)
        ≡ answered raw t (join "\n\n" (take n (paragraphs_of raw))))
      × HasText t
unfolding process_thinking_response
process_thinking_response-Kept parse_json raw e no_json h = rw no_json (read_text-Kept raw h)
