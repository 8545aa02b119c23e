-- ===== src/Orchestrator/Thinking/Response.antt =====
-- `processThinkingResponse` of lib/hierarchical-agent-thinking-orchestrator.js. A text is its code
-- points, so an index counts these; `parse_json` is `JSON.parse`.
use gemini_agent_lib.Prelude.{
  ℕ, String, Bool, true, not, ◌&&◌, ◌||◌, Option, none, some, List, [], ◌∷◌, find, is_empty,
  is_space, ltb, nat_eq, trim, if◌then◌else◌,
}
use gemini_agent_lib.Prelude.Action.{Outcome, returned, thrown}
use gemini_agent_lib.Prelude.Pattern.{
  Pattern, Hit, start, literal, many, both, either, optional, words, among, hits, text_length,
  take_text, drop_text, delete_start,
}
use gemini_agent_lib.Value.{Value, undefined, null, str, truthy, get_member}
use gemini_agent_lib.Value.Pretty.{pretty_text}
use gemini_agent_lib.ThinkingAgent.{or_value}

pub record Parts : Type 0 where
  pub final_answer : Value
  pub thinking_steps : String
  pub raw_response : Option String
  pub error : Option String

abbrev pub parts_of : String → Value → String → Parts
parts_of raw answer steps = record {
  final_answer = answer;
  thinking_steps = steps;
  raw_response = some raw;
  error = none;
}

abbrev pub json_parts : String → Value → Parts
json_parts raw v =
    if truthy (get_member v "final_answer") || truthy (get_member v "answer")
    then parts_of raw (or_value (get_member v "final_answer") (get_member v "answer")) (
        pretty_text (
          or_value (get_member v "thinking_steps")
            (or_value (get_member v "steps") (or_value (get_member v "reasoning") v))))
    else parts_of raw (str (pretty_text v)) ""

-- a parsed response; `none` where reading a member of it throws
abbrev pub read_json : String → Outcome Value → Option Parts
read_json raw (thrown e) = none
read_json raw (returned undefined) = none
read_json raw (returned null) = none
read_json raw (returned v) = some (json_parts raw v)

abbrev answer_names : Pattern
answer_names = words (
    "resposta final" ∷ "conclusão" ∷ "resultado" ∷ "análise" ∷ "summary" ∷ "conclusion"
    ∷ "final answer" ∷ [])

-- `-{3,}`
abbrev dashes : Pattern
dashes = both (literal "---") (many (among "-"))

abbrev line_end : Pattern
line_end = both (many is_space) (literal "\n")

abbrev pub final_answer_markers : List Pattern
final_answer_markers =
    both (literal "\n**") (both answer_names (both (literal "**") line_end))
    ∷ both (literal "\n##") (both (many is_space) (both answer_names line_end))
    ∷ both (literal "\n") (both dashes line_end)
    ∷ []

abbrev pub last_hit : List Hit → Option Hit
last_hit [] = none
last_hit (h ∷ []) = some h
last_hit (h ∷ hs) = last_hit hs

-- An index of -1 is `none`.
abbrev pub is_later : Hit → Option ℕ → Bool
is_later h none = true
is_later h (some i) = ltb i h.first_index

abbrev pub moved : Option Hit → Option ℕ → Option ℕ
moved none i = i
moved (some h) i = if is_later h i then some h.end_index else i

-- the first loop over the patterns: `finalAnswerStartIndex`
unfoldable pub answer_start : List Pattern → String → Option ℕ → Option ℕ
unfolding hits
answer_start [] raw i = i
answer_start (p ∷ ps) raw i = answer_start ps raw (moved (last_hit (hits p raw)) i)

abbrev pub or_next : Option Hit → Option ℕ → Option ℕ
or_next none next = next
or_next (some h) next = some h.first_index

-- the second loop: `separatorStartIndex`
unfoldable pub separator_start : List Pattern → String → ℕ → Option ℕ
unfolding hits
separator_start [] raw i = none
separator_start (p ∷ ps) raw i =
    or_next (find (λ h. nat_eq h.end_index i) (hits p raw)) (separator_start ps raw i)

abbrev pub steps_until : Option ℕ → ℕ → String → String
steps_until none i raw = trim (take_text i raw)
steps_until (some j) i raw = trim (take_text j raw)

-- the answer and the steps at an index
abbrev pub cut_at : Option ℕ → String → String × String
cut_at none raw = (raw, "")
cut_at (some i) raw =
    if ltb i (text_length raw)
    then (trim (drop_text i raw), steps_until (separator_start final_answer_markers raw i) i raw)
    else (raw, "")

abbrev marks : Pattern
marks = either (literal "**") (literal "##")

abbrev opening_title : Pattern
opening_title = both start (
    both (many is_space) (
      both marks (
        both (many is_space) (
          both answer_names (
            both (many is_space)
              (both (optional marks) (both (many is_space) (optional (literal "\n")))))))))

abbrev opening_line : Pattern
opening_line =
    both start (both (many is_space) (both dashes (both (many is_space) (optional (literal "\n")))))

-- the two replacements at the beginning of an answer
unfoldable pub clean : String → String
unfolding delete_start is_space
clean s = trim (delete_start opening_line (trim (delete_start opening_title s)))

-- the checks at the end
abbrev pub checked : String → String → String → Parts
checked raw answer steps =
    if is_empty answer && not (is_empty steps)
    then parts_of raw (str raw) ""
    else parts_of raw (str (if is_empty answer then raw else answer)) steps

unfoldable pub read_marked : String → Parts
unfolding answer_start separator_start clean is_space
read_marked raw =
    let c = cut_at (answer_start final_answer_markers raw none) raw in checked raw (clean c.0) c.1

abbrev pub read_or : Option Parts → Parts → Parts
read_or none p = p
read_or (some p) q = p

-- `processThinkingResponse`; of `undefined` no pattern is found, and the cleaning throws
unfoldable pub process_thinking_response : (String → Outcome Value) → Option String → Parts
unfolding read_marked
process_thinking_response parse_json none = record {
  final_answer = undefined;
  thinking_steps = "";
  raw_response = none;
  error = some "Cannot read properties of undefined (reading 'replace')";
}
process_thinking_response parse_json (some raw) =
    read_or (read_json raw (parse_json raw)) (read_marked raw)
