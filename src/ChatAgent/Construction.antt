-- ===== src/ChatAgent/Construction.antt =====
-- The constructor of lib/chat-agent.js. The model that it makes where none is given is a
-- parameter, as is the identifier that `uuid` draws. Where there are a conversation memory and a
-- chat, the constructor starts to load the history and does not wait for it: the agent has an
-- empty history until the load comes back (`load_conversation_history`).
pub mod Identity
use gemini_agent_lib.Prelude.{
  ℕ, String, Bool, true, false, ◌||◌, Option, none, some, List, [], is_some, is_empty, or_else,
  trim, if◌then◌else◌,
}
use gemini_agent_lib.Prelude.Dict.{Dict}
use gemini_agent_lib.Prelude.Action.{Outcome, returned, thrown}
use gemini_agent_lib.Value.{Value, null}
use gemini_agent_lib.AgentRegistry.{AgentRegistry, SpecialistConfig}
use gemini_agent_lib.Agent.{Tool}
use gemini_agent_lib.ChatAgent.{
  ConversationMemory, FactMemory, SummaryMemory, SemanticMemory, ChatLlm, ChatAgent,
}
use gemini_agent_lib.ChatAgent.Delegation.{setup_specialist_delegation}

-- the constructor's argument; a member that is left out is `none`
pub record Options (T W : Type 0) : Type 0 where
  pub role : String
  pub objective : String
  pub context : Option String
  pub llm : Option (ChatLlm W)
  pub tools : Option (List (Tool W))
  pub enable_google_search : Option Bool
  pub enable_specialist_delegation : Option Bool
  pub agent_registry : Option (AgentRegistry T)
  pub specialist_agents_config : Option (Dict (SpecialistConfig T))
  pub conversation_memory : Option (ConversationMemory W)
  pub fact_memory : Option (FactMemory W)
  pub summary_memory : Option (SummaryMemory W)
  pub auto_manage_fact_memory : Option Bool
  pub auto_manage_summary_memory : Option Bool
  pub chat_id : Option String
  pub semantic_memory : Option (SemanticMemory W)
  pub rag_top_k : Option ℕ
  pub rag_context_prefix : Option String
  pub rag_context_suffix : Option String
  pub rag_instruction : Option String
  pub rag_filter : Option Value

abbrev default_instruction : String
default_instruction =
    "Baseie sua resposta nas informações do CONTEXTO RECUPERADO, se relevantes. Use também o histórico da conversa e outras informações de memória."

-- an identifier that is used: it is trimmed, and not blank
unfoldable pub valid_id : Option String → Option String
valid_id none = none
valid_id (some s) = if is_empty (trim s) then none else some (trim s)

-- the identifier of the chat, from one that is used, whether there is a memory, and a drawn one
unfoldable pub chosen_id : Option String → Bool → String → Option String
chosen_id (some id) memory uuid = some id
chosen_id none true uuid = some uuid
chosen_id none false uuid = none

module _ {T W : Type 0} where
  abbrev pub has_memory : Options T W → Bool
  has_memory o =
      is_some o.conversation_memory
      || is_some o.fact_memory
      || is_some o.summary_memory
      || is_some o.semantic_memory

  -- a setting of the search, or its default; without a semantic memory it is empty
  abbrev rag_setting : {A : Type 0} → Options T W → Option A → A → A → A
  rag_setting o given default empty =
      if is_some o.semantic_memory then or_else given default else empty

  -- the agent before delegation is set up
  unfoldable pub plain : Options T W → ChatLlm W → String → ChatAgent T W
  unfolding valid_id chosen_id
  plain o llm uuid = record {
    role = o.role;
    objective = o.objective;
    context = o.context;
    task = "";
    llm = llm;
    tools = or_else o.tools [];
    enable_google_search = or_else o.enable_google_search false;
    conversation_memory = o.conversation_memory;
    fact_memory = o.fact_memory;
    summary_memory = o.summary_memory;
    semantic_memory = o.semantic_memory;
    auto_manage_fact_memory = or_else o.auto_manage_fact_memory false;
    auto_manage_summary_memory = or_else o.auto_manage_summary_memory false;
    rag_top_k = rag_setting o o.rag_top_k 3 0;
    rag_context_prefix = rag_setting o o.rag_context_prefix "CONTEXTO RECUPERADO:\n---\n" "";
    rag_context_suffix = rag_setting o o.rag_context_suffix "\n---" "";
    rag_instruction = rag_setting o o.rag_instruction default_instruction "";
    rag_filter = rag_setting o o.rag_filter null null;
    chat_id = chosen_id (valid_id o.chat_id) (has_memory o) uuid;
    conversation_history = [];
    specialist_delegation_enabled = false;
    agent_registry = none;
  }

  unfoldable pub with_setup : Options T W → ChatAgent T W → ChatAgent T W
  with_setup o c =
      if or_else o.enable_specialist_delegation false
      then setup_specialist_delegation o.agent_registry (or_else o.specialist_agents_config [])
          o.role o.objective c
      else c

  -- the model that is given, or a new one, whose constructor may throw
  unfoldable pub model_of : Options T W → Outcome (ChatLlm W) → Outcome (ChatLlm W)
  model_of o default_llm = elim o.llm [ none ↦ default_llm | some llm ↦ returned llm ]

  abbrev pub built : Options T W → String → Outcome (ChatLlm W) → Outcome (ChatAgent T W)
  built o uuid (returned llm) = returned (with_setup o (plain o llm uuid))
  built o uuid (thrown e) = thrown e

  -- the constructor
  unfoldable pub new : Outcome (ChatLlm W) → String → Options T W → Outcome (ChatAgent T W)
  unfolding model_of plain with_setup
  new default_llm uuid o = built o uuid (model_of o default_llm)
