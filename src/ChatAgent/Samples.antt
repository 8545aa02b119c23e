-- ===== src/ChatAgent/Samples.antt =====
-- Small agents of lib/chat-agent.js, and what stands behind them. Where the world is a number, it
-- counts down the functions that the model still asks for.
use gemini_agent_lib.Prelude.{ℕ, zero, suc, String, false, Option, none, some, List, [], ◌∷◌}
use gemini_agent_lib.Prelude.Action.{returned, thrown, pure, throw}
use gemini_agent_lib.Value.{Value, null, str, obj, field, end}
use gemini_agent_lib.AgentRegistry.{Env, SpecialistConfig}
use gemini_agent_lib.Agent.{Tool, Response}
use gemini_agent_lib.ChatAgent.{ConversationMemory, ChatLlm, ChatAgent}
use gemini_agent_lib.ChatAgent.Conversation.{Runtime}
use gemini_agent_lib.ChatAgent.Construction.{Options}

abbrev pub env : Env
env = record {
  specialist_default_model = none;
  google_cloud_project_id = none;
  google_application_credentials = none;
  google_api_key = none;
  google_cloud_location = none;
}

abbrev pub runtime : {W : Type 0} → Runtime String W
runtime = record {
  env = env;
  sdk = λ c. returned tt;
  construct = λ t s. returned tt;
  execute_task = λ a v. throw "sem especialista";
  parse_json = λ s. thrown "sem JSON";
  clock = λ w. 0;
}

abbrev pub options :
    {W : Type 0} → ChatLlm W → List (Tool W) → Option (ConversationMemory W) → Options String W
options llm tools memory = record {
  role = "balconista";
  objective = "atender";
  context = none;
  llm = some llm;
  tools = some tools;
  enable_google_search = none;
  enable_specialist_delegation = none;
  agent_registry = none;
  specialist_agents_config = none;
  conversation_memory = memory;
  fact_memory = none;
  summary_memory = none;
  auto_manage_fact_memory = none;
  auto_manage_summary_memory = none;
  chat_id = some " c1 ";
  semantic_memory = none;
  rag_top_k = none;
  rag_context_prefix = none;
  rag_context_suffix = none;
  rag_instruction = none;
  rag_filter = none;
}

abbrev pub agent :
    {W : Type 0} → ChatLlm W → List (Tool W) → Option (ConversationMemory W) → ChatAgent String W
agent llm tools memory = record {
  role = "balconista";
  objective = "atender";
  context = none;
  task = "";
  llm = llm;
  tools = tools;
  enable_google_search = false;
  conversation_memory = memory;
  fact_memory = none;
  summary_memory = none;
  semantic_memory = none;
  auto_manage_fact_memory = false;
  auto_manage_summary_memory = false;
  rag_top_k = 0;
  rag_context_prefix = "";
  rag_context_suffix = "";
  rag_instruction = "";
  rag_filter = null;
  chat_id = some "c1";
  conversation_history = [];
  specialist_delegation_enabled = false;
  agent_registry = none;
}

abbrev pub final : Response
final = record { text = some "pronto"; function_call = none }

abbrev pub asking : Response
asking = record { text = none; function_call = some (record { name = "eco"; args = none }) }

abbrev pub countdown : ChatLlm ℕ
countdown q zero = (returned (some final), zero)
countdown q (suc n) = (returned (some asking), n)

abbrev pub sign : Value
sign = obj (field "_signal_type" (str "pedido") end)

abbrev pub signaller : Tool ℕ
signaller = record {
  name = "eco";
  description = "repete";
  parameters = none;
  function = some (λ v. pure sign);
}

abbrev pub clerk : ChatAgent String ℕ
clerk = agent countdown (signaller ∷ []) none

abbrev pub finances : SpecialistConfig String
finances = record {
  objective = some "contas";
  context = none;
  llm_mode = none;
  llm_model_name = none;
  generation_config = none;
  agent_class = none;
  tools = none;
  enable_google_search = none;
  task_formatter = none;
}
