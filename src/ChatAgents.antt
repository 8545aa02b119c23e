-- ===== src/ChatAgents.antt =====
-- What a session manager uses of the objects it makes: the chat agents of lib/chat-agent.js and
-- the memory adapters of lib/memory. An agent is known by the number of its reference; its
-- members stand in the world `W`, which each call may change.
use gemini_agent_lib.Prelude.{ℕ, String, Bool, Option, List}
use gemini_agent_lib.Prelude.Dict.{Dict}
use gemini_agent_lib.Prelude.Action.{Action}
use gemini_agent_lib.Value.{Value}
use gemini_agent_lib.AgentRegistry.{SpecialistConfig}

-- an object of options for an agent: its `tools`, and its other members
pub record AgentOptions (T : Type 0) : Type 0 where
  pub tools : Option (List T)
  pub members : Dict T

-- what the argument of `new ChatAgent` spreads first
pub data Spread (T : Type 0) : Type 0 where
  session_options : Dict T → Spread T
  specialist_options : SpecialistConfig T → Spread T

-- the argument of `new ChatAgent`; `M` is the type of the memory adapters
pub record ChatAgentConfig (T M : Type 0) : Type 0 where
  pub spread : Spread T
  pub tools : Option (List T)
  pub conversation_memory : Option M
  pub fact_memory : Option M
  pub summary_memory : Option M
  pub enable_specialist_delegation : Bool
  pub chat_id : Option String

-- what `processUserMessage` gives; the signal is the member `_internalToolSignal`
pub record Reply : Type 0 where
  pub text : Option String
  pub internal_tool_signal : Option Value

pub record ChatAgents (T M W : Type 0) : Type 0 where
  pub construct : ℕ → ChatAgentConfig T M → Action W Unit
  pub process_user_message : ℕ → String → Action W Reply
  pub clear_history : ℕ → Action W Unit
  pub context : ℕ → W → Value
  pub set_context : ℕ → Value → W → W
  pub chat_id : ℕ → W → Option String
  pub fact_memory : ℕ → W → Option M
  pub summary_memory : ℕ → W → Option M

-- `close` is there or not
pub record Memories (M W : Type 0) : Type 0 where
  pub clear_history : M → String → Action W Unit
  pub delete_all_facts : M → Option String → Action W Unit
  pub delete_all_summaries : M → Option String → Action W Unit
  pub close : M → Option (Action W Unit)
