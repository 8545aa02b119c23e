-- ===== src/ChatManager.antt =====
-- lib/chat-manager.js: one chat agent for each session, made when the session is first used.
pub mod Sessions
pub mod Identity
mod Tests
use gemini_agent_lib.Prelude.{
  ℕ, suc, String, Bool, true, false, not, ◌&&◌, Option, none, some, List, [], ◌∷◌, is_empty, trim,
  ◌==◌, ◌+++◌, if◌then◌else◌,
}
use gemini_agent_lib.Prelude.Dict.{Dict, get, put, remove, spread}
use gemini_agent_lib.Prelude.Action.{
  Outcome, returned, thrown, Action, pure, throw, try_catch, ◌>>=◌, ◌>>◌,
}
use gemini_agent_lib.AgentRegistry.{has_text}
use gemini_agent_lib.ChatAgents.{
  AgentOptions, session_options, ChatAgentConfig, Reply, ChatAgents, Memories,
}

-- the members of `llmConfig` that the constructor looks at
pub record LlmSettings : Type 0 where
  pub llm_type : Option String
  pub project_id : Option String
  pub api_key : Option String

-- the configuration of one memory: the name of its adapter, and its `dbConfig`
pub record MemorySettings (T : Type 0) : Type 0 where
  pub type : Option String
  pub db_config : Option T

pub data MemoryAdapter : Type 0 where
  sqlite_conversation mongodb_conversation sqlite_fact mongodb_fact sqlite_summary mongodb_summary :
      MemoryAdapter

-- `created` counts the agents; the model client and the registry of specialists never change
pub record ChatManager (T M W : Type 0) : Type 0 where
  pub base_agent_config : AgentOptions T
  pub shared_memory_instances : Dict M
  pub delegation_enabled : Bool
  pub active_sessions : Dict ℕ
  pub created : ℕ
  pub world : W

abbrev is_generative : Option String → Bool
is_generative none = false
is_generative (some t) = t == "GenerativeAILLM"

-- the checks of the constructor
unfoldable pub check_settings : Option LlmSettings → Outcome LlmSettings
check_settings none = thrown "ChatManager requer 'llmConfig'."
check_settings (some c) =
    let generative = is_generative c.llm_type in
    if not generative && not (has_text c.project_id)
    then thrown "ChatManager requer 'llmConfig' com 'projectId' para LLMs baseados em Vertex AI."
    else if generative && not (has_text c.api_key)
    then thrown "ChatManager requer 'llmConfig' com 'apiKey' para GenerativeAILLM."
    else returned c

-- `_getMemoryAdapterClass`
unfoldable pub get_memory_adapter_class : String → Outcome MemoryAdapter
get_memory_adapter_class type =
    if type == "SQLiteConversationMemoryAdapter"
    then returned sqlite_conversation
    else if type == "MongoDBConversationMemoryAdapter"
    then returned mongodb_conversation
    else if type == "SQLiteFactMemoryAdapter"
    then returned sqlite_fact
    else if type == "MongoDBFactMemoryAdapter"
    then returned mongodb_fact
    else if type == "SQLiteSummaryMemoryAdapter"
    then returned sqlite_summary
    else if type == "MongoDBSummaryMemoryAdapter"
    then returned mongodb_summary
    else thrown ("Tipo de adaptador de memória desconhecido: " +++ type)

-- `JavaScript`'s spread of two objects of options
unfoldable pub spread_options : {T : Type 0} → AgentOptions T → AgentOptions T → AgentOptions T
spread_options base session = record {
  tools = elim session.tools [ none ↦ base.tools | some ts ↦ some ts ];
  members = spread base.members session.members;
}

abbrev pub sorry_reply : Reply
sorry_reply = record {
  text = some "[Desculpe, ocorreu um erro ao processar sua mensagem.]";
  internal_tool_signal = none;
}

module _ {T M W : Type 0} (construct : MemoryAdapter → T → Action W M) where
  abbrev made_memory : String → Dict M → Outcome M × W → Dict M × W
  made_memory name d (returned m, w) = (put d name m, w)
  made_memory name d (thrown e, w) = (d, w)

  abbrev adapted_memory : String → T → Outcome MemoryAdapter → Dict M × W → Dict M × W
  adapted_memory name db (thrown e) s = s
  adapted_memory name db (returned adapter) s = made_memory name s.0 (construct adapter db s.1)

  abbrev configured_memory : String → Option String → Option T → Dict M × W → Dict M × W
  configured_memory name (some type) (some db) s =
      if is_empty type then s else adapted_memory name db (get_memory_adapter_class type) s
  configured_memory name _ _ s = s

  abbrev initialize_memory : String → Option (MemorySettings T) → Dict M × W → Dict M × W
  initialize_memory name none s = s
  initialize_memory name (some c) s = configured_memory name c.type c.db_config s

  -- `_initializeSharedMemories`: a memory whose adapter is unknown or throws is left out
  unfoldable pub initialize_shared_memories : Dict (MemorySettings T) → W → Dict M × W
  unfolding get_memory_adapter_class
  initialize_shared_memories memory w = initialize_memory "summary" (get memory "summary") (
      initialize_memory "fact" (get memory "fact")
        (initialize_memory "conversation" (get memory "conversation") ([], w)))

  abbrev pub manager : AgentOptions T → Bool → Dict M × W → ChatManager T M W
  manager options delegation s = record {
    base_agent_config = options;
    shared_memory_instances = s.0;
    delegation_enabled = delegation;
    active_sessions = [];
    created = 0;
    world = s.1;
  }

  abbrev pub with_llm :
      AgentOptions T
      → Dict (MemorySettings T)
      → Bool
      → Bool
      → W
      → Outcome (Unit {0})
      → Outcome (ChatManager T M W)
  with_llm options memory share delegation w (thrown e) = thrown e
  with_llm options memory share delegation w (returned _) =
      returned (
        manager options delegation (if share then initialize_shared_memories memory w else ([], w)))

  abbrev pub with_settings :
      (LlmSettings → Outcome (Unit {0}))
      → AgentOptions T
      → Dict (MemorySettings T)
      → Bool
      → Bool
      → W
      → Outcome LlmSettings
      → Outcome (ChatManager T M W)
  with_settings new_llm options memory share delegation w (thrown e) = thrown e
  with_settings new_llm options memory share delegation w (returned c) =
      with_llm options memory share delegation w (new_llm c)

  -- the constructor; `new_llm` is what the constructor of the model client does
  unfoldable pub new :
      (LlmSettings → Outcome (Unit {0}))
      → Option LlmSettings
      → AgentOptions T
      → Dict (MemorySettings T)
      → Bool
      → Bool
      → W
      → Outcome (ChatManager T M W)
  unfolding check_settings initialize_shared_memories
  new new_llm settings options memory share delegation w =
      with_settings new_llm options memory share delegation w (check_settings settings)

module _ {T M W A : Type 0} where
  -- an action on the world, as one of the manager
  abbrev pub on_world : Action W A → Action (ChatManager T M W) A
  on_world m c = let (o, w) = m c.world in (o, record c { world = w })

module _ {T M W : Type 0} where
  abbrev pub agent_config : ChatManager T M W → AgentOptions T → String → ChatAgentConfig T M
  agent_config c options id =
      let final = spread_options c.base_agent_config options in
      record {
        spread = session_options final.members;
        tools = final.tools;
        conversation_memory = get c.shared_memory_instances "conversation";
        fact_memory = get c.shared_memory_instances "fact";
        summary_memory = get c.shared_memory_instances "summary";
        enable_specialist_delegation = c.delegation_enabled;
        chat_id = some id;
      }

module _ {T M W : Type 0} (agents : ChatAgents T M W) where
  -- `new ChatAgent(config)`: the new object has a reference of its own
  abbrev pub construct_agent : ChatAgentConfig T M → Action (ChatManager T M W) ℕ
  construct_agent config c =
      (on_world (agents.construct c.created config) >>= λ u c'.
      (returned c.created, record c' { created = suc c.created }))
        c

  abbrev pub open_session : AgentOptions T → String → Option ℕ → Action (ChatManager T M W) ℕ
  open_session options id (some a) c = pure a c
  open_session options id none c =
      (construct_agent (agent_config c options id) >>= λ a c'.
      (returned a, record c' { active_sessions = put c'.active_sessions id a }))
        c

  -- the identifier is a text
  unfoldable pub get_or_create_session : String → AgentOptions T → Action (ChatManager T M W) ℕ
  get_or_create_session session_id options c =
      if is_empty (trim session_id)
      then (thrown "sessionId inválido fornecido para getOrCreateSession.", c)
      else open_session options (trim session_id) (get c.active_sessions (trim session_id)) c

  unfoldable pub process_message :
      String → String → AgentOptions T → Action (ChatManager T M W) Reply
  unfolding get_or_create_session
  process_message session_id message options =
      try_catch
        (get_or_create_session session_id options >>= λ a.
          on_world (agents.process_user_message a message))
        (λ e. pure sorry_reply)

module _ {T M W : Type 0} where
  abbrev pub end_found : String → Option ℕ → ChatManager T M W → Bool × ChatManager T M W
  end_found id none c = (false, c)
  end_found id (some a) c = (true, record c { active_sessions = remove c.active_sessions id })

  -- `false` also for what is no session
  unfoldable pub end_session : String → ChatManager T M W → Bool × ChatManager T M W
  end_session session_id c =
      if is_empty session_id
      then (false, c)
      else end_found (trim session_id) (get c.active_sessions (trim session_id)) c

module _ {T M W : Type 0} (agents : ChatAgents T M W) (memories : Memories M W) where
  -- a memory that is not there is not cleared
  abbrev delete_facts : Option M → Option String → Action W Unit
  delete_facts none id = pure tt
  delete_facts (some m) id = memories.delete_all_facts m id

  abbrev delete_summaries : Option M → Option String → Action W Unit
  delete_summaries none id = pure tt
  delete_summaries (some m) id = memories.delete_all_summaries m id

  abbrev clear_inactive : ChatManager T M W → String → Option M → Action W Unit
  clear_inactive c id none =
      throw ("Sessão com ID " +++ id +++ " não encontrada para limpar histórico.")
  clear_inactive c id (some m) = do
    memories.clear_history m id
    delete_facts (get c.shared_memory_instances "fact") (some id)
    delete_summaries (get c.shared_memory_instances "summary") (some id)

  abbrev clear_active : ℕ → Action W Unit
  clear_active a = do
    agents.clear_history a
    λ w. delete_facts (agents.fact_memory a w) (agents.chat_id a w) w
    λ w. delete_summaries (agents.summary_memory a w) (agents.chat_id a w) w

  abbrev pub clear_found : ChatManager T M W → String → Option ℕ → Action W Unit
  clear_found c id none = clear_inactive c id (get c.shared_memory_instances "conversation")
  clear_found c id (some a) = clear_active a

  unfoldable pub clear_session_history : String → Action (ChatManager T M W) Unit
  clear_session_history session_id c =
      if is_empty (trim session_id)
      then (thrown "sessionId inválido fornecido para clearSessionHistory.", c)
      else on_world (clear_found c (trim session_id) (get c.active_sessions (trim session_id))) c

  abbrev close_memory : Option (Action W Unit) → W → W
  close_memory none w = w
  close_memory (some close) w = (close w).1

  -- an error of one `close` does not keep the others from being called
  abbrev pub close_all : Dict M → W → W
  close_all [] w = w
  close_all ((k, m) ∷ d) w = close_all d (close_memory (memories.close m) w)

  unfoldable pub shutdown : ChatManager T M W → ChatManager T M W
  shutdown c = record c {
    world = close_all c.shared_memory_instances c.world;
    active_sessions = [];
  }
