-- ===== src/ThinkingAgent/Titles.antt =====
-- A response with a section that has the title of a final answer.
use gemini_agent_lib.Prelude.{
  ℕ, suc, ◌+◌, String, ◌≡◌, refl, ap, ◌∙◌, Bool, true, false, not, ◌&&◌, ◌||◌, Option, some, List,
  [], ◌∷◌, ◌++◌, length, take, find, All, ltb, or_else, join, arith,
}
use gemini_agent_lib.Prelude.Action.{Outcome, thrown}
use mathlib.Core.Option
use gemini_agent_lib.Value.{Value}
use gemini_agent_lib.AgentRegistry.{has_text}
use gemini_agent_lib.ThinkingAgent.{
  answered, with_section, read_paragraphs, read_text, process_thinking_response,
}
use gemini_agent_lib.ThinkingAgent.Answers.{HasText, HasText-join, colon_text-HasText}
use gemini_agent_lib.ThinkingAgent.Patterns.{
  has_step_title, has_answer_title, indicates_conclusion, is_answer,
}
use gemini_agent_lib.ThinkingAgent.Sections.{
  Place, Found, places, colon_text, until_title, with_more, at_title, by_title, explicit_section,
  or_place, last_places, located, steps_before, or_late, not_found, sections, paragraphs_of,
}

find_place :
    (i : ℕ) (before : List String) (p : String) (rest : List String)
    → All (λ x. has_answer_title x ≡ false) before
    → has_answer_title p ≡ true
    → find (λ pl. has_answer_title pl.paragraph) (places i (before ++ (p ∷ rest)))
      ≡ some (record { index = i + length before; paragraph = p; rest = rest })
unfolding places
find_place i [] p rest h e =
    rw e (ap (λ n. some (record { index = n; paragraph = p; rest = rest })) (omega arith))
find_place i (q ∷ before) p rest (h, hs) e = rw h (
    find_place (suc i) before p rest hs e
    ∙ ap (λ n. some (record { index = n; paragraph = p; rest = rest })) (omega arith))

with_more-join :
    (t : String) (xs : List String) → with_more (some t) xs ≡ some (join "\n\n" (t ∷ xs))
with_more-join t [] = refl
with_more-join t (x ∷ xs) = refl

-- An answer that was found stays.
or_place_found :
    (good : String → Bool) (pls : List Place) (f : Found)
    → has_text f.section ≡ true
    → or_place good pls f ≡ f
unfolding or_place
or_place_found good pls f h = rw h

take-append : (xs ys : List String) → take (length xs) (xs ++ ys) ≡ xs
take-append [] ys = refl
take-append (x ∷ xs) ys = ap (λ r. x ∷ r) (take-append xs ys)

module _ (raw q p t : String) (before rest : List String)
    (none_before : All (λ x. has_answer_title x ≡ false) (q ∷ before))
    (titled : has_answer_title p ≡ true) (behind : colon_text p ≡ some t) (full : HasText t) where
  abbrev answer : String
  answer = join "\n\n" (t ∷ until_title rest)

  abbrev found : Found
  found = record { section = some answer; index = some (length (q ∷ before)) }

  by_title_found : by_title has_answer_title (places 0 ((q ∷ before) ++ (p ∷ rest))) ≡ some found
  unfolding by_title
  by_title_found =
      ap (λ o. Option.map at_title o) (find_place 0 (q ∷ before) p rest none_before titled)
      ∙ rw (behind, with_more-join t (until_title rest))
          (ap (λ n. some (record { section = some answer; index = some n })) (omega arith))

  has_answer : has_text (some answer) ≡ true
  has_answer = ap not (HasText-join "\n\n" t (until_title rest) full)

  stays :
      (good : String → Bool) (pls : List Place) (f : Found)
      → f ≡ found
      → or_place good pls f ≡ found
  stays good pls f e = ap (or_place good pls) e ∙ or_place_found good pls found has_answer

  abbrev ps : List String
  ps = (q ∷ before) ++ (p ∷ rest)

  abbrev explicit : Found
  explicit = or_else (explicit_section (places 0 ps)) not_found

  explicit_found : explicit ≡ found
  unfolding explicit_section
  explicit_found = rw by_title_found

  abbrev indicated : Found
  indicated = or_place indicates_conclusion (places 0 ps) explicit

  abbrev late : Found
  late = or_late (places 0 ps) indicated

  late_found : late ≡ found
  late_found =
      stays (λ x. indicates_conclusion x || has_answer_title x) (last_places 3 (places 0 ps))
        indicated (stays indicates_conclusion (places 0 ps) explicit explicit_found)

  located_found : (b : Bool) → located b ps ≡ found
  unfolding located
  located_found b =
      stays (λ x. b && ltb 1 (length ps)) (last_places 1 (places 0 ps)) late late_found

  abbrev after_late : Found → Found
  after_late f = or_place is_answer (last_places 3 (places 0 ps)) f

  abbrev sections_at : Found → Option String × List String
  sections_at f = ((after_late f).section, steps_before f.index (has_step_title raw) ps)

  sections_found : sections raw ps ≡ (some answer, q ∷ before)
  unfolding sections
  sections_found =
      ap sections_at (located_found (has_step_title raw))
      ∙ ap (λ f. (f.section, q ∷ take (length before) (before ++ (p ∷ rest))))
          (stays is_answer (last_places 3 (places 0 ps)) found refl)
      ∙ ap (λ r. (some answer, q ∷ r)) (take-append before (p ∷ rest))

  answered_found :
      with_section raw ps (some answer) (q ∷ before)
      ≡ answered raw answer (join "\n\n" (q ∷ before))
  answered_found = rw (HasText-join "\n\n" t (until_title rest) full)

  titled_text :
      paragraphs_of raw ≡ ps → read_text raw ≡ answered raw answer (join "\n\n" (q ∷ before))
  unfolding read_text
  titled_text e =
      ap (read_paragraphs raw) e
      ∙ ap (λ f. with_section raw ps f.0 f.1) sections_found
      ∙ answered_found

-- If a response is no JSON, a paragraph after the first has the title of a final answer and text
-- behind its first colon, and no paragraph before it has such a title, then the final answer is
-- that text with the paragraphs behind it up to the title of another section, and the steps are
-- the paragraphs before it.
pub process_thinking_response-titled :
    (parse_json : String → Outcome Value) (raw e q p t : String) (before rest : List String)
    → parse_json raw ≡ thrown e
    → paragraphs_of raw ≡ (q ∷ before) ++ (p ∷ rest)
    → All (λ x. has_answer_title x ≡ false) (q ∷ before)
    → has_answer_title p ≡ true
    → colon_text p ≡ some t
    → process_thinking_response parse_json (some raw)
      ≡ answered raw (join "\n\n" (t ∷ until_title rest)) (join "\n\n" (q ∷ before))
unfolding process_thinking_response
process_thinking_response-titled parse_json raw e q p t before rest no_json split h titled behind =
    rw no_json
      (titled_text raw q p t before rest h titled behind (colon_text-HasText p t behind) split)
