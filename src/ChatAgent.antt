-- ===== src/ChatAgent.antt =====
-- lib/chat-agent.js: an agent that keeps a conversation: its members, and the conversation's
-- history. `W` is the state of the world, which the model, the tools and the memories act on; the
-- memories are objects that the caller hands over. Calls run one after another.
pub mod Memories
pub mod Context
pub mod Evaluation
pub mod Delegation
pub mod Conversation
pub mod Frame
pub mod Transcript
pub mod Loop
pub mod Signals
pub mod Construction
pub mod Handoff
pub mod Routing
mod Samples
mod Tests
use gemini_agent_lib.Prelude.{
  ℕ, String, Bool, true, false, Option, none, some, List, [], ◌∷◌, ◌++◌, map, is_empty, or_else,
  if◌then◌else◌,
}
use gemini_agent_lib.Prelude.Dict.{Dict}
use gemini_agent_lib.Prelude.Action.{Outcome, returned, thrown, Action, pure}
use gemini_agent_lib.Value.{Value}
use gemini_agent_lib.AgentRegistry.{AgentRegistry}
use gemini_agent_lib.Agent.{Tool, Response, ToolsConfig, Agent, prepare_tools}

pub record Message : Type 0 where
  pub role : String
  pub content : String

-- a turn as the model takes it; a part is its text
pub record HistoryItem : Type 0 where
  pub role : String
  pub parts : List String

-- what the semantic memory finds: the members of `metadata` that are read, and the score as
-- `toFixed(4)` writes it
pub record SearchResult : Type 0 where
  pub content : String
  pub source : Option String
  pub chunk_index : Option ℕ
  pub score : Option String

pub record Summary : Type 0 where
  pub summary_content : Value
  pub timestamp : ℕ

-- The memories' methods. The first argument is the identifier of the chat, but for a search.
pub record ConversationMemory (W : Type 0) : Type 0 where
  pub load_history : String → Action W (List Message)
  pub append_message : String → Message → Action W (Unit {0})
  pub clear_history : String → Action W (Unit {0})

pub record FactMemory (W : Type 0) : Type 0 where
  pub set_fact : String → Value → Value → Action W (Unit {0})
  pub get_fact : String → Value → Action W Value
  pub get_all_facts : String → Action W (Dict Value)

pub record SummaryMemory (W : Type 0) : Type 0 where
  pub add_summary : String → Value → ℕ → Action W (Unit {0})
  pub get_latest_summary : String → Action W Value
  pub get_all_summaries : String → Option ℕ → Action W (List Summary)

-- its argument: the query, how many results, and a filter
pub record SemanticMemory (W : Type 0) : Type 0 where
  pub search : String → ℕ → Value → Action W (List SearchResult)

-- the argument of the model's `generateContent`
pub record ChatRequest : Type 0 where
  pub prompt : String
  pub context : String
  pub tools : Option (List ToolsConfig)
  pub history : List HistoryItem

abbrev pub ChatLlm : Type 0 → Type 0
ChatLlm W = ChatRequest → Action W (Option Response)

pub record ChatAgent (T W : Type 0) : Type 0 where
  pub role : String
  pub objective : String
  pub context : Option String
  pub task : String
  pub llm : ChatLlm W
  pub tools : List (Tool W)
  pub enable_google_search : Bool
  pub conversation_memory : Option (ConversationMemory W)
  pub fact_memory : Option (FactMemory W)
  pub summary_memory : Option (SummaryMemory W)
  pub semantic_memory : Option (SemanticMemory W)
  pub auto_manage_fact_memory : Bool
  pub auto_manage_summary_memory : Bool
  pub rag_top_k : ℕ
  pub rag_context_prefix : String
  pub rag_context_suffix : String
  pub rag_instruction : String
  pub rag_filter : Value
  pub chat_id : Option String
  pub conversation_history : List Message
  pub specialist_delegation_enabled : Bool
  pub agent_registry : Option (AgentRegistry T)

-- A method works on the agent and on the world.
abbrev pub State : Type 0 → Type 0 → Type 0
State T W = ChatAgent T W × W

-- a memory and the chat's identifier, where the agent has both
abbrev pub attached : {M : Type 0} → Option M → Option String → Option (M × String)
attached none id = none
attached (some m) none = none
attached (some m) (some id) = if is_empty id then none else some (m, id)

-- what is left of the world by a call whose error is only logged
abbrev pub ignoring_errors :
    {M W : Type 0} → (M → String → Action W (Unit {0})) → Option (M × String) → W → W
ignoring_errors f none w = w
ignoring_errors f (some (m, id)) w = (f m id w).1

abbrev pub history_item : Message → HistoryItem
history_item m = record { role = m.role; parts = m.content ∷ [] }

-- the history that is kept once a load has come back or failed
abbrev pub loaded : Outcome (List Message) → List Message
loaded (returned messages) = messages
loaded (thrown e) = []

module _ {T W : Type 0} where
  abbrev pub in_world : {A : Type 0} → Action W A → Action (State T W) A
  in_world m s = let p = m s.1 in (p.0, (s.0, p.1))

  -- What `Agent` has of a chat agent; its own loop asks the model without a history.
  abbrev pub as_agent : ChatAgent T W → Agent W
  as_agent c = record {
    role = c.role;
    objective = c.objective;
    context = or_else c.context "";
    task = c.task;
    llm = λ q.
        c.llm (record { prompt = q.prompt; context = q.context; tools = q.tools; history = [] });
    tools = c.tools;
    enable_google_search = c.enable_google_search;
    task_formatter = none;
  }

  -- `prepareHistoryForLLM`
  unfoldable pub prepare_history : ChatAgent T W → List HistoryItem
  prepare_history c = map history_item c.conversation_history

  -- `_addToConversationHistory`
  unfoldable pub add_to_history : String → String → Action (State T W) (Unit {0})
  add_to_history role content (c, w) =
      let message : Message = record { role = role; content = content } in
      pure tt (
        record c { conversation_history = c.conversation_history ++ (message ∷ []) },
        ignoring_errors (λ m id. m.append_message id message)
            (attached c.conversation_memory c.chat_id) w,
      )

  -- `clearHistory`
  unfoldable pub clear_history : Action (State T W) (Unit {0})
  clear_history (c, w) = pure tt (
    record c { conversation_history = [] },
    ignoring_errors (λ m id. m.clear_history id) (attached c.conversation_memory c.chat_id) w,
  )

  abbrev pub load_from : Option (ConversationMemory W × String) → Action (State T W) (Unit {0})
  load_from none s = pure tt (record s.0 { conversation_history = [] }, s.1)
  load_from (some (m, id)) s =
      let p = m.load_history id s.1 in
      pure tt (record s.0 { conversation_history = loaded p.0 }, p.1)

  -- `_loadConversationHistory`, where nothing else is done until the load has come back
  unfoldable pub load_conversation_history : Action (State T W) (Unit {0})
  load_conversation_history s = load_from (attached s.0.conversation_memory s.0.chat_id) s
