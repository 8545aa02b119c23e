-- ===== src/Orchestrator/Registry.antt =====
-- lib/orchestrator-registry.js, and lib/orchestrator-tool-factory.js: orchestrators by name, and the
-- tool that runs one. The model client and the class of lib/auto-gen-orchestrator.js are
-- parameters; every orchestrator answers with a text or `undefined`.
pub mod Laws
pub mod Tool
mod Tests
use gemini_agent_lib.Prelude.{
  String, Bool, true, false, not, ◌||◌, Option, none, some, List, [], ◌∷◌, or_else, is_empty, ◌==◌,
  ◌+++◌, if◌then◌else◌,
}
use gemini_agent_lib.Prelude.Dict.{Dict, get, put, remove, keys}
use gemini_agent_lib.Prelude.Action.{
  Outcome, returned, thrown, Action, pure, throw, try_catch, ◌>>=◌,
}
use gemini_agent_lib.Value.{Value, undefined, str, member, to_text, Fields}
use gemini_agent_lib.Agent.{Response}
use gemini_agent_lib.AgentRegistry.{has_text}
use gemini_agent_lib.Orchestrator.Worker.{Worker}
use gemini_agent_lib.Orchestrator.Sequential
use gemini_agent_lib.Orchestrator.Sequential.{SequentialAgentChain, run}
use gemini_agent_lib.Orchestrator.Hierarchical
use gemini_agent_lib.Orchestrator.Hierarchical.{HierarchicalAgentOrchestrator, orchestrate}

-- the members of `llmConfig` that are looked at; the whole is `settings`
pub record LlmSettings (T : Type 0) : Type 0 where
  pub project_id : Option String
  pub credentials_path : Option String
  pub settings : T

-- no `agents` stands for what is no array too
pub record OrchestratorConfig (T W : Type 0) : Type 0 where
  pub type : Option String
  pub agents : Option (List (Worker W))
  pub llm_config : Option (LlmSettings T)

pub data Orchestrator (G W : Type 0) : Type 0 where
  sequential : SequentialAgentChain W → Orchestrator G W
  hierarchical : HierarchicalAgentOrchestrator W → Orchestrator G W
  auto_gen : G → Orchestrator G W

-- `new VertexAILLM` with its `generateContent`, and the class AutoGenOrchestrator
pub record Classes (T G W : Type 0) : Type 0 where
  pub new_llm : T → Outcome (String → Action W (Option Response))
  pub new_auto_gen : T → Outcome G
  pub orchestrate_task : G → String → Action W (Option String)

pub record OrchestratorRegistry (T G W : Type 0) : Type 0 where
  pub configs : Dict (OrchestratorConfig T W)
  pub instances : Dict (Orchestrator G W)

abbrev pub lacks_type : {T W : Type 0} → Option (OrchestratorConfig T W) → Bool
lacks_type none = true
lacks_type (some c) = not (has_text c.type)

-- the first of the schema's properties, `undefined` as a text where there is none
abbrev pub input_key : List String → String
input_key [] = "undefined"
input_key (k ∷ ks) = k

module _ {G W : Type 0} where
  abbrev chain_of : Outcome (SequentialAgentChain W) → Outcome (Orchestrator G W)
  chain_of (returned c) = returned (sequential c)
  chain_of (thrown e) = thrown e

  abbrev hierarchy_of : Outcome (HierarchicalAgentOrchestrator W) → Outcome (Orchestrator G W)
  hierarchy_of (returned h) = returned (hierarchical h)
  hierarchy_of (thrown e) = thrown e

  abbrev auto_gen_of : Outcome G → Outcome (Orchestrator G W)
  auto_gen_of (returned g) = returned (auto_gen g)
  auto_gen_of (thrown e) = thrown e

  abbrev pub make_sequential : String → Option (List (Worker W)) → Outcome (Orchestrator G W)
  make_sequential name none =
      thrown ("Config para '" +++ name +++ "' (Sequential) requer um array 'agents'.")
  make_sequential name (some agents) = chain_of (Sequential.new agents)

module _ {T G W : Type 0} where
  -- the constructor
  unfoldable pub new : Dict (OrchestratorConfig T W) → OrchestratorRegistry T G W
  new configs = record { configs = configs; instances = [] }

  abbrev registered :
      String
      → Option (OrchestratorConfig T W)
      → OrchestratorRegistry T G W
      → OrchestratorRegistry T G W
  registered name none r = r
  registered name (some c) r = record r {
    configs = put r.configs name c;
    instances = remove r.instances name;
  }

  unfoldable pub register_orchestrator :
      String → Option (OrchestratorConfig T W) → Action (OrchestratorRegistry T G W) Unit
  register_orchestrator name config r =
      if lacks_type config
      then throw ("Configuração para orquestrador '" +++ name +++ "' deve incluir 'type'.") r
      else pure tt (registered name config r)

  unfoldable pub get_orchestrator_config :
      OrchestratorRegistry T G W → String → Option (OrchestratorConfig T W)
  get_orchestrator_config r name = get r.configs name

  unfoldable pub get_available_orchestrator_names : OrchestratorRegistry T G W → List String
  get_available_orchestrator_names r = keys r.configs

module _ {T G W : Type 0} (classes : Classes T G W) where
  abbrev with_llm :
      List (Worker W) → Outcome (String → Action W (Option Response)) → Outcome (Orchestrator G W)
  with_llm agents (thrown e) = thrown e
  with_llm agents (returned ask) = hierarchy_of (Hierarchical.new agents ask)

  abbrev make_hierarchical :
      String → Option (List (Worker W)) → Option (LlmSettings T) → Outcome (Orchestrator G W)
  make_hierarchical name none llm =
      thrown ("Config para '" +++ name +++ "' (Hierarchical) requer um array 'agents'.")
  make_hierarchical name (some agents) none =
      thrown ("Config para '" +++ name +++ "' (Hierarchical) requer 'llmConfig'.")
  make_hierarchical name (some agents) (some llm) = with_llm agents (classes.new_llm llm.settings)

  abbrev needs_llm : String → Outcome (Orchestrator G W)
  needs_llm name = thrown (
      "Config para '" +++ name
      +++ "' (AutoGen) requer 'llmConfig' com 'projectId' e 'credentialsPath'.")

  abbrev make_auto_gen : String → Option (LlmSettings T) → Outcome (Orchestrator G W)
  make_auto_gen name none = needs_llm name
  make_auto_gen name (some llm) =
      if not (has_text llm.project_id) || not (has_text llm.credentials_path)
      then needs_llm name
      else auto_gen_of (classes.new_auto_gen llm.settings)

  -- the `switch` on the type
  unfoldable pub instantiate : String → OrchestratorConfig T W → Outcome (Orchestrator G W)
  instantiate name c =
      let type = or_else c.type "undefined" in
      if type == "SequentialAgentChain"
      then make_sequential name c.agents
      else if type == "HierarchicalAgentOrchestrator"
      then make_hierarchical name c.agents c.llm_config
      else if type == "AutoGenOrchestrator"
      then make_auto_gen name c.llm_config
      else thrown (
          "[OrchestratorRegistry] Tipo de orquestrador desconhecido: '" +++ type
          +++ "' para o nome '" +++ name +++ "'.")

  abbrev pub configured : String → Option (OrchestratorConfig T W) → Outcome (Orchestrator G W)
  configured name none =
      thrown ("[OrchestratorRegistry] Orquestrador com nome '" +++ name +++ "' não encontrado.")
  configured name (some c) = instantiate name c

  abbrev pub cached :
      OrchestratorRegistry T G W → String → Option (Orchestrator G W) → Outcome (Orchestrator G W)
  cached r name (some o) = returned o
  cached r name none = configured name (get r.configs name)

  -- What is made is not stored: the line that would is a comment.
  unfoldable pub get_orchestrator : OrchestratorRegistry T G W → String → Outcome (Orchestrator G W)
  unfolding instantiate
  get_orchestrator r name = cached r name (get r.instances name)

  -- an input that is no text is passed on as its text
  abbrev pub run_orchestrator : Orchestrator G W → String → Action W (Option String)
  run_orchestrator (sequential c) input = run c input >>= λ output. pure (some output)
  run_orchestrator (hierarchical h) input = orchestrate h input
  run_orchestrator (auto_gen g) input = classes.orchestrate_task g input

  abbrev pub run_input : String → String → Orchestrator G W → Value → Action W (Option String)
  run_input name key o undefined =
      throw (
        "Argumento esperado '" +++ key +++ "' não fornecido para o orquestrador '" +++ name
        +++ "'.")
  run_input name key o v = run_orchestrator o (to_text v)

  abbrev pub run_found :
      String → List String → Fields → Outcome (Orchestrator G W) → Action W (Option String)
  run_found name properties args (thrown e) = throw e
  run_found name properties args (returned o) =
      run_input name (input_key properties) o (member args (input_key properties))

  -- the `function` of the tool that `createOrchestratorTool` makes
  unfoldable pub tool_function :
      OrchestratorRegistry T G W → String → List String → Fields → Action W (Option String)
  unfolding get_orchestrator
  tool_function r name properties args =
      try_catch (run_found name properties args (get_orchestrator r name))
        (λ e. pure (some ("Erro ao executar orquestrador " +++ name +++ ": " +++ e)))
