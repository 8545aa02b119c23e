-- ===== src/ThinkingAgent/Sections.antt =====
-- `processThinkingResponse` of lib/thinking-agent.js: the search of a response's paragraphs for the
-- final answer. An index of -1 is `none`.
use gemini_agent_lib.Prelude.{
  ℕ, zero, suc, ◌-◌, min, String, code, Bool, not, ◌&&◌, ◌||◌, Option, none, some, List, [], ◌∷◌,
  length, take, drop, find, keep, is_empty, join, ltb, nat_eq, or_else, trim, ◌+++◌,
  split_blank_lines, if◌then◌else◌,
}
use mathlib.Core.Option
use gemini_agent_lib.AgentRegistry.{has_text}
use gemini_agent_lib.ThinkingAgent.Patterns.{
  has_step_title, indicates_conclusion, has_answer_title, is_section_title, is_conclusion_title,
  is_final_heading, is_final_opening, is_answer,
}

-- `rawResponse.split('\n\n').filter(p => p.trim())`
unfoldable pub paragraphs_of : String → List String
paragraphs_of s = keep (λ p. not (is_empty (trim p))) (split_blank_lines s)

-- a paragraph with its index, and the paragraphs behind it
pub record Place : Type 0 where
  pub index : ℕ
  pub paragraph : String
  pub rest : List String

unfoldable pub places : ℕ → List String → List Place
places i [] = []
places i (p ∷ ps) = record { index = i; paragraph = p; rest = ps } ∷ places (suc i) ps

-- `finalAnswerSection` and `finalAnswerIndex`
pub record Found : Type 0 where
  pub section : Option String
  pub index : Option ℕ

after_colon : String → Option String
after_colon String.[] = none
after_colon (String.◌∷◌ c s) =
    let rest = after_colon s in if nat_eq (code c) b':' then some s else rest

abbrev pub nonblank : Option String → Option String
nonblank none = none
nonblank (some s) = if is_empty (trim s) then none else some (trim s)

-- what stands behind the first colon of `/(.*?):(.*)/s`, if that is not blank
unfoldable pub colon_text : String → Option String
unfolding after_colon
colon_text p = nonblank (after_colon p)

-- the paragraphs up to the title of another section
unfoldable pub until_title : List String → List String
until_title [] = []
until_title (p ∷ ps) = let rest = until_title ps in if is_section_title p then [] else p ∷ rest

-- A `null` that is joined to a text is its name.
abbrev pub with_more : Option String → List String → Option String
with_more section [] = section
with_more section (p ∷ ps) = some (or_else section "null" +++ "\n\n" +++ join "\n\n" (p ∷ ps))

-- the answer at a title: the text behind its colon or else the next paragraph, and what follows
abbrev pub titled : ℕ → Option String → List String → Found
titled i (some t) rest = record { section = with_more (some t) (until_title rest); index = some i }
titled i none [] = record { section = none; index = some i }
titled i none (p ∷ ps) = record {
  section = with_more (some p) (until_title ps);
  index = some (suc i);
}

abbrev pub at_title : Place → Found
at_title pl = titled pl.index (colon_text pl.paragraph) pl.rest

unfoldable pub by_title : (String → Bool) → List Place → Option Found
by_title is_title pls = Option.map at_title (find (λ pl. is_title pl.paragraph) pls)

-- the answer at a heading: the text behind its colon, or else the paragraphs behind it
abbrev pub headed : (List String → List String) → ℕ → Option String → List String → Found
headed more i (some t) rest = record { section = some t; index = some i }
headed more i none [] = record { section = none; index = some i }
headed more i none (p ∷ ps) = record {
  section = some (join "\n\n" (more (p ∷ ps)));
  index = some i;
}

abbrev pub at_heading : (List String → List String) → Place → Found
at_heading more pl = headed more pl.index (colon_text pl.paragraph) pl.rest

unfoldable pub by_heading :
    (String → Bool) → (List String → List String) → List Place → Option Found
by_heading is_heading more pls =
    Option.map (at_heading more) (find (λ pl. is_heading pl.paragraph) pls)

abbrev pub or_found : Option Found → Option Found → Option Found
or_found none next = next
or_found (some f) next = some f

-- the last of the places first
abbrev pub backwards : List Place → List Place → List Place
backwards [] done = done
backwards (pl ∷ pls) done = backwards pls (pl ∷ done)

abbrev pub whole : List String → List String
whole ps = ps

-- the four searches for an explicit section
unfoldable pub explicit_section : List Place → Option Found
unfolding by_title by_heading
explicit_section pls = or_found (by_title has_answer_title pls) (
    or_found (by_title is_conclusion_title pls) (
      or_found (by_heading is_final_heading whole (take 5 (backwards pls [])))
        (by_heading is_final_opening until_title pls)))

abbrev pub not_found : Found
not_found = record { section = none; index = none }

abbrev pub at_place : Found → Option Place → Found
at_place f none = f
at_place f (some pl) = record { section = some pl.paragraph; index = some pl.index }

-- Without an answer so far, the first of these paragraphs that passes the test is it.
unfoldable pub or_place : (String → Bool) → List Place → Found → Found
or_place good pls f =
    if has_text f.section then f else at_place f (find (λ pl. good pl.paragraph) pls)

abbrev pub last_places : ℕ → List Place → List Place
last_places n pls = drop (length pls - min n (length pls)) pls

-- the paragraphs before the answer
unfoldable pub steps_before : Option ℕ → Bool → List String → List String
steps_before (some (suc i)) has_title ps = take (suc i) ps
steps_before (some zero) has_title ps =
    if has_title && ltb 1 (length ps) then take (length ps - 1) ps else []
steps_before none has_title ps =
    if has_title && ltb 1 (length ps) then take (length ps - 1) ps else []

-- one of the last three paragraphs
abbrev pub or_late : List Place → Found → Found
or_late pls = or_place (λ p. indicates_conclusion p || has_answer_title p) (last_places 3 pls)

-- the last paragraph, if a title says that there are steps
abbrev pub or_last : Bool → List String → Found → Found
or_last has_title ps = or_place (λ p. has_title && ltb 1 (length ps)) (last_places 1 (places 0 ps))

-- the answer and its index before the steps are taken
unfoldable pub located : Bool → List String → Found
unfolding explicit_section or_place
located has_title ps =
    let pls = places 0 ps in
    or_last has_title ps
      (or_late pls (or_place indicates_conclusion pls (or_else (explicit_section pls) not_found)))

-- the answer, after the last search, and the steps
unfoldable pub sections : String → List String → Option String × List String
unfolding located steps_before or_place
sections raw ps =
    let f = located (has_step_title raw) ps in
    (
      (or_place is_answer (last_places 3 (places 0 ps)) f).section,
      steps_before f.index (has_step_title raw) ps,
    )
