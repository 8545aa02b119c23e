-- ===== src/ThinkingAgent.antt =====
-- lib/thinking-agent.js: an agent whose model explains its steps, and the reading of its
-- response. `sdk` is what the SDK's constructors do, `client` the `generateContent` of the client
-- made, and `parse_json` is `JSON.parse`.
pub mod Patterns
pub mod Sections
pub mod Answers
pub mod Titles
mod Tests
use gemini_agent_lib.Prelude.{
  ℕ, ◌-◌, ◌/◌, String, Bool, true, false, not, ◌&&◌, ◌||◌, Option, none, some, List, [], ◌∷◌,
  length, take, drop, leb, ltb, is_empty, is_space, join, trim, ◌+++◌, if◌then◌else◌,
}
use gemini_agent_lib.Prelude.Action.{Outcome, returned, thrown, Action, pure, try_catch}
use gemini_agent_lib.Prelude.Pattern.{
  literal, finish, many, many1, lazily, both, either, optional, word, words, any_char, match_first,
}
use mathlib.Core.Option
use gemini_agent_lib.Value.{Value, undefined, null, str, arr, nil, truthy, get_member}
use gemini_agent_lib.Agent.{Llm, Tool, Agent}
use gemini_agent_lib.Agent.Task.{execute_task}
use gemini_agent_lib.AgentRegistry.{LlmConfig, has_text, or_text, new_llm}
use Patterns.{has_list}
use Sections.{nonblank, paragraphs_of, sections}

pub record VertexConfig : Type 0 where
  pub credentials_path : Option String
  pub project_id : Option String
  pub location : Option String

pub record Options (W : Type 0) : Type 0 where
  pub role : String
  pub objective : String
  pub context : String
  pub task : String
  pub tools : List (Tool W)
  pub enable_google_search : Bool
  pub api_key : Option String
  pub use_vertex_ai : Bool
  pub vertex_config : VertexConfig

-- the settings of the client; those that it is not given are `none`, or the client's default
abbrev pub thinking_config : Bool → Option String → VertexConfig → LlmConfig
thinking_config true api_key v = record {
  project_id = v.project_id;
  credentials_path = v.credentials_path;
  api_key = api_key;
  location = or_text v.location "us-central1";
  model_name = "gemini-2.5-pro-preview-03-25";
  mode = "oneshot";
  generation_config = none;
}
thinking_config false api_key v = record {
  project_id = none;
  credentials_path = none;
  api_key = api_key;
  location = "";
  model_name = "gemini-2.5-pro-preview-03-25";
  mode = "oneshot";
  generation_config = none;
}

-- the check of the constructor of lib/generative-ai-llm.js
abbrev pub new_gemini : (LlmConfig → Outcome (Unit {0})) → LlmConfig → Outcome (Unit {0})
new_gemini sdk c = if has_text c.api_key then sdk c else thrown "API Key do Gemini não fornecida."

abbrev pub new_client : (LlmConfig → Outcome (Unit {0})) → Bool → LlmConfig → Outcome (Unit {0})
new_client sdk true c = new_llm sdk c
new_client sdk false c = new_gemini sdk c

pub record ThinkingAgent (W : Type 0) : Type 0 where
  pub agent : Agent W
  pub is_thinking_model : Bool

-- what `processThinkingResponse` returns: the parsed JSON itself, or an object with these members
pub data Processed : Type 0 where
  json : Value → Processed
  parts : (final_answer thinking_steps : Value) → (raw_response error : Option String) → Processed

abbrev pub or_value : Value → Value → Value
or_value v w = if truthy v then v else w

-- a parsed response; `none` where reading a member of it throws
abbrev pub json_members : String → Value → Processed
json_members raw v =
    if truthy (get_member v "final_answer") || truthy (get_member v "answer")
    then parts (or_value (get_member v "final_answer") (get_member v "answer"))
        (or_value (get_member v "thinking_steps")
          (or_value (get_member v "steps") (or_value (get_member v "reasoning") (arr nil))))
        (some raw) none
    else json v

abbrev pub read_json : String → Outcome Value → Option Processed
read_json raw (thrown e) = none
read_json raw (returned undefined) = none
read_json raw (returned null) = none
read_json raw (returned v) = some (json_members raw v)

abbrev pub answered : String → String → String → Processed
answered raw answer steps = parts (str answer) (str steps) (some raw) none

-- the last of the texts, the first one given apart
abbrev pub last_text : String → List String → String
last_text p [] = p
last_text p (q ∷ qs) = last_text q qs

abbrev pub initial : List String → List String
initial ps = take (length ps - 1) ps

-- `/(?:Resposta|Resultado|Conclusão)(?:\s+Final)?:?\s*(.*?)(?:\n\n|\n$|$)/is`
unfoldable pub stated_answer : String → Option String
unfolding match_first is_space
stated_answer raw = nonblank (
    Option.map (λ (m : String × String). m.0)
      (match_first
        (both (words ("Resposta" ∷ "Resultado" ∷ "Conclusão" ∷ [])) (
          both (optional (both (many1 is_space) (word "Final")))
            (both (optional (literal ":")) (many is_space))))
        (lazily any_char) (either (literal "\n\n") (either (both (literal "\n") finish) finish))
        raw))

-- steps without an answer: one that is stated anywhere, or the last step
abbrev pub by_steps : String → Option String → String → List String → Processed
by_steps raw (some t) s ss = answered raw t (join "\n\n" (s ∷ ss))
by_steps raw none s ss = answered raw (last_text s ss) (join "\n\n" (initial (s ∷ ss)))

-- neither an answer nor steps
abbrev pub by_structure : String → List String → Processed
by_structure raw [] = answered raw raw ""
by_structure raw (p ∷ ps) =
    if has_list raw && ltb 1 (length (p ∷ ps))
    then answered raw (last_text p ps) (join "\n\n" (initial (p ∷ ps)))
    else if leb (length (p ∷ ps)) 5
    then answered raw raw ""
    else answered raw (join "\n\n" (drop (length (p ∷ ps) / 2) (p ∷ ps)))
        (join "\n\n" (take (length (p ∷ ps) / 2) (p ∷ ps)))

-- An empty section counts as none.
abbrev pub with_steps : String → List String → List String → Processed
with_steps raw ps [] = by_structure raw ps
with_steps raw ps (s ∷ ss) = by_steps raw (stated_answer raw) s ss

abbrev pub with_section : String → List String → Option String → List String → Processed
with_section raw ps none steps = with_steps raw ps steps
with_section raw ps (some t) steps =
    if is_empty t then with_steps raw ps steps else answered raw t (join "\n\n" steps)

abbrev pub read_paragraphs : String → List String → Processed
read_paragraphs raw ps = with_section raw ps (sections raw ps).0 (sections raw ps).1

unfoldable pub read_text : String → Processed
unfolding sections paragraphs_of stated_answer has_list
read_text raw = read_paragraphs raw (paragraphs_of raw)

abbrev pub read_or : Option Processed → Processed → Processed
read_or none p = p
read_or (some p) q = p

-- `processThinkingResponse`; of `undefined` the reading throws
unfoldable pub process_thinking_response : (String → Outcome Value) → Option String → Processed
unfolding read_text
process_thinking_response parse_json none =
    parts undefined (str "") none (some "Cannot read properties of undefined (reading 'split')")
process_thinking_response parse_json (some raw) =
    read_or (read_json raw (parse_json raw)) (read_text raw)

abbrev pub final_answer : Processed → Value
final_answer (json v) = get_member v "finalAnswer"
final_answer (parts a s raw e) = a

module _ {W : Type 0} where
  abbrev pub thinking_agent : Options W → Llm W → ThinkingAgent W
  thinking_agent o llm = record {
    agent = record {
      role = o.role;
      objective = o.objective;
      context = o.context;
      task = o.task;
      llm = llm;
      tools = o.tools;
      enable_google_search = o.enable_google_search;
      task_formatter = none;
    };
    is_thinking_model = true;
  }

  abbrev pub made : Outcome (Unit {0}) → ThinkingAgent W → Outcome (ThinkingAgent W)
  made (returned u) a = returned a
  made (thrown e) a = thrown e

  -- the constructor
  unfoldable pub new :
      (LlmConfig → Outcome (Unit {0}))
      → (Bool → LlmConfig → Llm W)
      → Options W
      → Outcome (ThinkingAgent W)
  new sdk client o =
      let config = thinking_config o.use_vertex_ai o.api_key o.vertex_config in
      made (new_client sdk o.use_vertex_ai config)
        (thinking_agent o (client o.use_vertex_ai config))

  -- `executeTask` on fuel, as that of the class `Agent`
  unfoldable pub think : ℕ → ThinkingAgent W → Action W (Option (Option String))
  unfolding execute_task
  think fuel a =
      try_catch (execute_task fuel a.agent)
        (λ e. pure (some (some ("Erro ao executar tarefa do ThinkingAgent: " +++ e))))
