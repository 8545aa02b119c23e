-- ===== src/Orchestrator/Hierarchical.antt =====
-- lib/hierarchical-agent-orchestrator.js: a model selects experts, they run in turn, and the
-- model joins their answers.
pub mod Prompts
pub mod Laws
use gemini_agent_lib.Prelude.{
  String, Bool, true, false, not, Option, none, some, List, [], ◌∷◌, map, keep, any, is_empty, join,
  trim, includes_text, to_lower_case, split_lines, ◌==◌, ◌+++◌, if◌then◌else◌,
}
use gemini_agent_lib.Prelude.Dict.{Dict, put}
use gemini_agent_lib.Prelude.Action.{
  Outcome, returned, thrown, Action, pure, throw, try_catch, ◌>>=◌,
}
use gemini_agent_lib.Agent.{Response}
use gemini_agent_lib.ToolBuilder.{includes}
use gemini_agent_lib.Orchestrator.Worker.{Worker, assign, with_task}
use Prompts.{
  default_task, selection_prompt, synthesis_prompt, no_agent_phrase, no_agent_answer,
  agent_description, response_line,
}

-- `ask` is `llm.generateContent` on a prompt.
pub record HierarchicalAgentOrchestrator (W : Type 0) : Type 0 where
  pub agents : List (Worker W)
  pub ask : String → Action W (Option Response)

-- the roles that an answer lists, one to a line
unfoldable pub listed_roles : String → List String
listed_roles answer = keep (λ role. not (is_empty role)) (map trim (split_lines answer))

-- the text that is kept for an expert's outcome
abbrev pub expert_text : Outcome String → String
expert_text (returned response) = response
expert_text (thrown e) = "Erro ao executar tarefa: " +++ e

abbrev pub responses_text : Dict String → String
responses_text responses = join "\n" (map (λ e. response_line e.0 e.1) responses)

module _ {W : Type 0} where
  -- the constructor; what is no array is as the empty one
  unfoldable pub new :
      List (Worker W)
      → (String → Action W (Option Response))
      → Outcome (HierarchicalAgentOrchestrator W)
  new [] ask = thrown "HierarchicalAgentOrchestrator precisa de um array de agentes não vazio."
  new (a ∷ rest) ask = returned (record { agents = a ∷ rest; ask = ask })

  unfoldable pub select : List (Worker W) → String → List (Worker W)
  unfolding listed_roles
  select agents answer =
      if includes_text (to_lower_case answer) no_agent_phrase
      then []
      else keep (λ a. includes (listed_roles answer) a.role) agents

  abbrev pub select_by : List (Worker W) → Option String → Action W (List (Worker W))
  select_by agents none = throw "Cannot read properties of undefined (reading 'toLowerCase')"
  select_by agents (some answer) = pure (select agents answer)

  -- An answer that is missing or has no text makes the reading of it throw.
  abbrev pub selected : List (Worker W) → Option Response → Action W (List (Worker W))
  selected agents none = throw "Cannot read properties of null (reading 'text')"
  selected agents (some r) = select_by agents r.text

  abbrev descriptions : List (Worker W) → String
  descriptions agents = join "\n" (map (λ a. agent_description a.role a.objective) agents)

  unfoldable pub determine_agents_for_task :
      HierarchicalAgentOrchestrator W → String → Action W (List (Worker W))
  unfolding select
  determine_agents_for_task o task =
      try_catch (o.ask (selection_prompt task (descriptions o.agents)) >>= selected o.agents)
        (λ e. pure [])

  -- the loop over the experts; an error of a formatter is not caught
  unfoldable pub engage : String → List (Worker W) → Dict String → Action W (Dict String)
  engage task [] responses = pure responses
  engage task (a ∷ rest) responses =
      with_task (assign a task (default_task a.role a.objective task)) λ agent_task w.
        let (o, w') = a.execute_task agent_task w in
        engage task rest (put responses a.role (expert_text o)) w'

  abbrev pub answer_text : Option Response → Action W (Option String)
  answer_text none = throw "Cannot read properties of null (reading 'text')"
  answer_text (some r) = pure r.text

  unfoldable pub generate_final_response :
      HierarchicalAgentOrchestrator W → String → Dict String → Action W (Option String)
  generate_final_response o task responses =
      try_catch (o.ask (synthesis_prompt task (responses_text responses)) >>= answer_text)
        (λ e. pure (some "Erro ao gerar resposta final orquestrada."))

  abbrev pub orchestrate_with :
      HierarchicalAgentOrchestrator W → String → List (Worker W) → Action W (Option String)
  orchestrate_with o task [] = pure (some no_agent_answer)
  orchestrate_with o task (a ∷ rest) = do
    responses ← engage task (a ∷ rest) []
    generate_final_response o task responses

  unfoldable pub orchestrate : HierarchicalAgentOrchestrator W → String → Action W (Option String)
  unfolding determine_agents_for_task engage generate_final_response
  orchestrate o task = determine_agents_for_task o task >>= orchestrate_with o task
