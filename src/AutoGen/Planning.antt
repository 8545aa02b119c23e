-- ===== src/AutoGen/Planning.antt =====
-- `generateTaskPlan` of lib/auto-gen-orchestrator.js, from the final answer to the plan: the JSON in
-- the text is found and cleaned, and the sub-tasks are read by regular expressions; the fields of
-- a sub-task are those that stand at its place among all of their kind. What follows in the
-- source behind the `return` is never reached. A text is its code points.
use mathlib.Core.Option
use gemini_agent_lib.Prelude.{
  ℕ, suc, ◌+◌, String, Char, code, Bool, false, not, ◌&&◌, Option, none, some, List, [], ◌∷◌,
  get_elem?, keep, is_empty, is_space, includes_text, trim, or_else, nat_eq, ◌==◌, ◌+++◌,
  if◌then◌else◌,
}
use gemini_agent_lib.Prelude.Pattern.{
  Pattern, literal, many, lazily, both, either, any_char, is_dot, but, delete_all, match_all,
  match_first,
}
use gemini_agent_lib.Value.{Value, str, decimal}
use gemini_agent_lib.AutoGen.{SubTask}

abbrev spaces : Pattern
spaces = many is_space

abbrev fence : Pattern
fence = literal "```"

-- `jsonMatch[1] || jsonMatch[0]`
abbrev pub group_or_match : String × String → String
group_or_match (t, whole) = if is_empty t then whole else t

abbrev pub or_text_of : Option String → Option String → Option String
or_text_of none o = o
or_text_of (some s) o = some s

-- the text of `jsonMatch`
unfoldable pub json_match : String → Option String
unfolding match_first
json_match s =
    or_text_of
      (Option.map group_or_match
        (match_first (both (literal "```json") spaces) (lazily any_char) (both spaces fence) s))
      (or_text_of
        (Option.map group_or_match
          (match_first (both fence spaces) (lazily any_char) (both spaces fence) s))
        (Option.map (λ (m : String × String). m.1)
          (match_first (literal "{") (lazily any_char) (literal "}") s)))

-- without fences and comments
unfoldable pub cleaned : String → String
unfolding delete_all
cleaned s =
    delete_all (both (literal "//") (many is_dot))
      (trim (delete_all (either (literal "```json") fence) s))

-- the text from its first `{` on
abbrev pub from_open : String → Option String
from_open String.[] = none
from_open (String.◌∷◌ c s) =
    let rest = from_open s in if nat_eq (code c) b'{' then some (String.◌∷◌ c s) else rest

-- the text up to its last `}`
abbrev pub cons_of : Char → Option String → Option String
cons_of c none = none
cons_of c (some s) = some (String.◌∷◌ c s)

abbrev pub to_close : String → Option String
to_close String.[] = none
to_close (String.◌∷◌ c s) =
    or_text_of (cons_of c (to_close s))
      (if nat_eq (code c) b'}' then some (String.◌∷◌ c String.[]) else none)

-- the text from its first `{` to its last `}`, which is all of it if it has these ends
unfoldable pub json_object : String → Option String
json_object s = elim (from_open s) [ none ↦ none | some t ↦ to_close t ]

-- `"name"\s*:\s*`
abbrev pub field : String → Pattern
field name =
    both (literal "\"")
      (both (literal name) (both (literal "\"") (both spaces (both (literal ":") spaces))))

-- the texts of a field, in order
unfoldable pub field_texts : String → String → List String
unfolding match_all
field_texts name = match_all (both (field name) (literal "\"")) (many (but "\"")) (literal "\"")

unfoldable pub search_flags : String → List String
unfolding match_all
search_flags =
    match_all (field "enableGoogleSearch") (either (literal "true") (literal "false")) (literal "")

unfoldable pub dependency_texts : String → List String
unfolding match_all
dependency_texts = match_all (both (field "dependsOn") (literal "[")) (lazily is_dot) (literal "]")

-- `s.split(/\s+/)`, with an empty text between two spaces, behind the text `cur`
unfoldable pub split_spaces : String → String → List String
unfolding is_space
split_spaces cur String.[] = cur ∷ []
split_spaces cur (String.◌∷◌ c s) =
    let closed = cur ∷ split_spaces "" s in
    let longer = split_spaces (cur +++ String.◌∷◌ c String.[]) s in
    if is_space c then closed else longer

-- texts in quotes, or where there are none, what stands between spaces
abbrev pub or_unquoted : String → List String → List String
or_unquoted s [] = keep (λ t. not (is_empty (trim t)) && not (t == ",")) (split_spaces "" s)
or_unquoted s (d ∷ ds) = d ∷ ds

unfoldable pub dependencies : Option String → List String
unfolding match_all split_spaces
dependencies none = []
dependencies (some s) =
    if is_empty s
    then []
    else or_unquoted s (match_all (literal "\"") (many (but "\"")) (literal "\"") s)

abbrev pub is_true : Option String → Bool
is_true none = false
is_true (some s) = s == "true"

-- what is found of each field
pub record Fields : Type 0 where
  pub descriptions : List String
  pub roles : List String
  pub objectives : List String
  pub prompts : List String
  pub searches : List String
  pub depends : List String

unfoldable pub fields_of : String → Fields
unfolding field_texts search_flags dependency_texts
fields_of json = record {
  descriptions = field_texts "taskDescription" json;
  roles = field_texts "agentRole" json;
  objectives = field_texts "agentObjective" json;
  prompts = field_texts "agentTaskPrompt" json;
  searches = search_flags json;
  depends = dependency_texts json;
}

-- the sub-task with an identifier, at an index
unfoldable pub task_at : Fields → ℕ → String → SubTask
unfolding decimal dependencies
task_at f i id = record {
  id = some id;
  task_description = or_else (get_elem? f.descriptions i) ("Tarefa " +++ decimal (i + 1));
  agent_role = or_else (get_elem? f.roles i) "Agente Especialista";
  agent_objective = or_else (get_elem? f.objectives i) "Executar a tarefa designada";
  agent_task_prompt = or_else (get_elem? f.prompts i) "Executar a tarefa conforme necessário";
  enable_google_search = is_true (get_elem? f.searches i);
  depends_on = some (dependencies (get_elem? f.depends i));
}

-- the loop over the identifiers
unfoldable pub tasks_from : Fields → ℕ → List String → List SubTask
unfolding task_at
tasks_from f i [] = []
tasks_from f i (id ∷ ids) = task_at f i id ∷ tasks_from f (suc i) ids

abbrev pub tasks_of : String → List SubTask
tasks_of json =
    if includes_text json "subTasks"
    then tasks_from (fields_of json) 0 (field_texts "id" json)
    else []

abbrev pub tasks_of_object : Option String → List SubTask
tasks_of_object none = []
tasks_of_object (some json) = tasks_of json

abbrev pub tasks_of_match : Option String → List SubTask
tasks_of_match none = []
tasks_of_match (some s) = tasks_of_object (json_object (cleaned s))

-- the plan in a text
unfoldable pub plan_of_text : String → List SubTask
unfolding json_match cleaned json_object fields_of tasks_from field_texts
plan_of_text s = tasks_of_match (json_match s)

-- The plan of a final answer. What is no text has no `match`, the reading throws, and the error is
-- caught.
abbrev pub plan_of_answer : Value → List SubTask
plan_of_answer (str s) = plan_of_text s
plan_of_answer v = []
