-- ===== src/Orchestrator/Thinking.antt =====
-- lib/hierarchical-agent-thinking-orchestrator.js: the orchestrator of
-- lib/hierarchical-agent-orchestrator.js with a model that explains its steps. `sdk` is what the
-- SDK's constructors do, `ask` the `generateContent` of the client on a prompt, and `parse_json`
-- is `JSON.parse`.
pub mod Prompts
pub mod Response
pub mod Cut
pub mod Laws
mod Tests
use gemini_agent_lib.Prelude.{
  String, Bool, true, false, not, ◌&&◌, ◌||◌, Option, none, some, List, [], ◌∷◌, map, keep, find,
  is_empty, join, trim, includes_text, to_lower_case, split_lines, ◌==◌, if◌then◌else◌,
}
use gemini_agent_lib.Prelude.Action.{
  Outcome, returned, thrown, Action, pure, throw, try_catch, ◌>>=◌,
}
use gemini_agent_lib.Prelude.Dict.{Dict}
use gemini_agent_lib.Prelude.Pattern.{among}
use gemini_agent_lib.Value.{Value, undefined, str}
use gemini_agent_lib.Agent
use gemini_agent_lib.AgentRegistry.{LlmConfig}
use gemini_agent_lib.ToolBuilder.{includes}
use gemini_agent_lib.ThinkingAgent.{VertexConfig, thinking_config, new_client}
use gemini_agent_lib.Orchestrator.Worker.{Worker}
use gemini_agent_lib.Orchestrator.Hierarchical
use gemini_agent_lib.Orchestrator.Hierarchical.{
  HierarchicalAgentOrchestrator, engage, responses_text, answer_text,
}
use gemini_agent_lib.Orchestrator.Hierarchical.Prompts.{
  no_agent_phrase, no_agent_answer, agent_description,
}
use Prim.Native.String
use Prompts.{thinking_selection_prompt, thinking_synthesis_prompt}
use Response.{process_thinking_response}

pub record HierarchicalAgentThinkingOrchestrator (W : Type 0) : Type 0 where
  pub base : HierarchicalAgentOrchestrator W
  pub is_thinking_model : Bool
  pub include_thinking_steps : Bool

pub record Options : Type 0 where
  pub api_key : Option String
  pub use_vertex_ai : Bool
  pub vertex_config : VertexConfig
  pub include_thinking_steps : Bool

-- `/^[\d\.\-\*\#]/`
abbrev pub is_listed : String → Bool
is_listed String.[] = false
is_listed (String.◌∷◌ c s) = among "0123456789.-*#" c

abbrev pub value_of : Option String → Value
value_of none = undefined
value_of (some s) = str s

-- the last answer, as it is or without the steps
abbrev pub shown : (String → Outcome Value) → Bool → Option String → Value
shown parse_json true response = value_of response
shown parse_json false response = (process_thinking_response parse_json response).final_answer

module _ {W : Type 0} where
  abbrev pub thinking :
      Bool → HierarchicalAgentOrchestrator W → HierarchicalAgentThinkingOrchestrator W
  thinking steps o = record { base = o; is_thinking_model = true; include_thinking_steps = steps }

  abbrev pub made_of :
      Bool
      → Outcome (HierarchicalAgentOrchestrator W)
      → Outcome (HierarchicalAgentThinkingOrchestrator W)
  made_of steps (thrown e) = thrown e
  made_of steps (returned o) = returned (thinking steps o)

  -- the client's constructor runs before that of the class above
  abbrev pub made_with :
      Outcome (Unit {0})
      → Outcome (HierarchicalAgentThinkingOrchestrator W)
      → Outcome (HierarchicalAgentThinkingOrchestrator W)
  made_with (thrown e) o = thrown e
  made_with (returned u) o = o

  -- the constructor
  unfoldable pub new :
      (LlmConfig → Outcome (Unit {0}))
      → (Bool → LlmConfig → String → Action W (Option Agent.Response))
      → List (Worker W)
      → Options
      → Outcome (HierarchicalAgentThinkingOrchestrator W)
  new sdk ask agents o =
      let config = thinking_config o.use_vertex_ai o.api_key o.vertex_config in
      made_with (new_client sdk o.use_vertex_ai config)
        (made_of o.include_thinking_steps (Hierarchical.new agents (ask o.use_vertex_ai config)))

  -- the agent that a line of the answer names
  abbrev pub named_by : List (Worker W) → String → Option (Worker W)
  named_by agents line =
      if not (is_empty line) && not (is_listed line)
      then find (λ a. line == a.role || includes_text line a.role) agents
      else none

  abbrev pub role_before : Option (Worker W) → List String → List String
  role_before none roles = roles
  role_before (some a) roles = a.role ∷ roles

  -- the roles that the lines name
  unfoldable pub line_roles : List (Worker W) → List String → List String
  line_roles agents [] = []
  line_roles agents (line ∷ lines) =
      role_before (named_by agents (trim line)) (line_roles agents lines)

  -- where the lines name none: the roles that stand anywhere
  abbrev pub or_anywhere : List (Worker W) → String → List String → List String
  or_anywhere agents answer [] = map (λ a. a.role) (keep (λ a. includes_text answer a.role) agents)
  or_anywhere agents answer (r ∷ rs) = r ∷ rs

  unfoldable pub select : List (Worker W) → String → List (Worker W)
  unfolding line_roles
  select agents answer =
      if includes_text (to_lower_case answer) no_agent_phrase
      then []
      else keep
          (λ a.
            includes (or_anywhere agents answer (line_roles agents (split_lines answer))) a.role)
          agents

  abbrev pub select_by : List (Worker W) → Option String → Action W (List (Worker W))
  select_by agents none = throw "Cannot read properties of undefined (reading 'toLowerCase')"
  select_by agents (some answer) = pure (select agents answer)

  abbrev pub selected : List (Worker W) → Option Agent.Response → Action W (List (Worker W))
  selected agents none = throw "Cannot read properties of null (reading 'text')"
  selected agents (some r) = select_by agents r.text

  abbrev descriptions : List (Worker W) → String
  descriptions agents = join "\n" (map (λ a. agent_description a.role a.objective) agents)

  unfoldable pub determine_agents_for_task :
      HierarchicalAgentOrchestrator W → String → Action W (List (Worker W))
  unfolding select
  determine_agents_for_task o task =
      try_catch
        (o.ask (thinking_selection_prompt task (descriptions o.agents)) >>= selected o.agents)
        (λ e. pure [])

  unfoldable pub generate_final_response :
      HierarchicalAgentOrchestrator W → String → Dict String → Action W (Option String)
  generate_final_response o task responses =
      try_catch (o.ask (thinking_synthesis_prompt task (responses_text responses)) >>= answer_text)
        (λ e. pure (some "Erro ao gerar resposta final orquestrada."))

  -- the answer to a task by the experts that were selected
  unfoldable pub orchestrate_with :
      (String → Outcome Value)
      → HierarchicalAgentThinkingOrchestrator W
      → String
      → List (Worker W)
      → Action W Value
  unfolding engage generate_final_response
  orchestrate_with parse_json o task [] = pure (str no_agent_answer)
  orchestrate_with parse_json o task (a ∷ rest) = do
    responses ← engage task (a ∷ rest) []
    response ← generate_final_response o.base task responses
    pure (shown parse_json o.include_thinking_steps response)

  unfoldable pub orchestrate :
      (String → Outcome Value) → HierarchicalAgentThinkingOrchestrator W → String → Action W Value
  unfolding determine_agents_for_task orchestrate_with
  orchestrate parse_json o task =
      determine_agents_for_task o.base task >>= orchestrate_with parse_json o task
