-- ===== src/RoutingChatManager.antt =====
-- lib/routing-chat-manager.js: a manager whose sessions can hand the conversation from the
-- primary agent to a specialist and back. The state of a session is one object that its map
-- holds: a turn works on it and on the base class, and what it wrote stands in the map after
-- it, also where it threw.
pub mod Session
pub mod Invariant
pub mod Turns
pub mod Coherence
pub mod Handover
mod Tests
use gemini_agent_lib.Prelude.{
  ℕ, suc, String, Bool, true, false, not, ◌&&◌, Option, none, some, List, [], ◌∷◌, ◌++◌, or_else,
  nat_eq, ◌==◌, ◌+++◌, join, if◌then◌else◌,
}
use gemini_agent_lib.Prelude.Dict.{Dict, get, put, remove, has}
use gemini_agent_lib.Prelude.Action.{
  Outcome, returned, thrown, Action, pure, throw, try_catch, ◌>>=◌, ◌>>◌,
}
use gemini_agent_lib.Value.{Value, undefined, null, str, truthy, get_member, json_text, to_text}
use gemini_agent_lib.AgentRegistry.{AgentRegistry, SpecialistConfig, get_specialist_config}
use gemini_agent_lib.ChatAgents.{
  AgentOptions, specialist_options, ChatAgentConfig, Reply, ChatAgents, Memories,
}
use gemini_agent_lib.AgentRegistry
use gemini_agent_lib.ChatManager
use gemini_agent_lib.ChatManager.{
  LlmSettings, MemorySettings, MemoryAdapter, ChatManager, on_world, construct_agent, sorry_reply,
}
use gemini_agent_lib.RoutingChatManager.Session.{
  PendingSpecialistResult, SessionState, new_state, pending_note, finished_note, is_text, Turn,
  update_state, ask, start_sub_conversation, end_sub_conversation,
}

-- `request` and `finish` are the tools of lib/tools/subconversation-tools.js, as options hold them
pub record RoutingChatManager (T M W : Type 0) : Type 0 where
  pub base : ChatManager T M W
  pub specialist_registry : AgentRegistry T
  pub session_states : Dict SessionState
  pub request : T
  pub finish : T

module _ {T M W : Type 0} (construct : MemoryAdapter → T → Action W M) where
  abbrev pub over :
      T
      → T
      → Dict (SpecialistConfig T)
      → Outcome (ChatManager T M W)
      → Outcome (RoutingChatManager T M W)
  over request finish specialists (thrown e) = thrown e
  over request finish specialists (returned c) = returned (record {
    base = c;
    specialist_registry = AgentRegistry.new specialists;
    session_states = [];
    request = request;
    finish = finish;
  })

  -- the constructor: the base class without delegation, and a registry of its own
  unfoldable pub new :
      T
      → T
      → (LlmSettings → Outcome (Unit {0}))
      → Option LlmSettings
      → AgentOptions T
      → Dict (MemorySettings T)
      → Bool
      → Dict (SpecialistConfig T)
      → W
      → Outcome (RoutingChatManager T M W)
  new request finish new_llm settings options memory share specialists w =
      over request finish specialists
        (ChatManager.new construct new_llm settings options memory share false w)

abbrev pub with_request : {T : Type 0} → T → AgentOptions T → AgentOptions T
with_request request options = record options {
  tools = some (or_else options.tools [] ++ request ∷ []);
}

module _ {T M W : Type 0} (agents : ChatAgents T M W) where
  -- The answer to a signal that asks for a specialist, once the specialist is there or not. The
  -- source names a variable of the other branch where it is not, which throws.
  abbrev pub answer_as_specialist : String → Action (Turn T M W) Reply
  answer_as_specialist message s =
      if nat_eq s.0.active_agent s.0.primary_agent
      then throw "specialistResponse is not defined" s
      else ask agents s.0.active_agent message s

  abbrev pub take_pending : String → Option PendingSpecialistResult → Action (Turn T M W) Reply
  take_pending message none = pure (record {
    text = some "[Desculpe, ocorreu um erro interno ao finalizar a conversa com o especialista.]";
    internal_tool_signal = none;
  })
  take_pending message (some p) =
      update_state (λ st. record st { pending_specialist_result = none }) >> λ s.
      ask agents s.0.primary_agent (finished_note p message) s

  -- a specialist has ended its sub-conversation in this turn
  abbrev pub hand_back : Value → String → Action (Turn T M W) Reply
  hand_back details message =
      end_sub_conversation details >> λ s. take_pending message s.0.pending_specialist_result s

  abbrev pub on_end : ℕ → Value → String → Reply → Action (Turn T M W) Reply
  on_end agent details message reply s =
      if nat_eq agent s.0.primary_agent
      then (end_sub_conversation details >> pure reply) s
      else hand_back details message s

  abbrev pub on_request : T → AgentRegistry T → Value → String → Action (Turn T M W) Reply
  on_request finish registry details message =
      start_sub_conversation agents finish registry details >> answer_as_specialist message

  abbrev pub on_signal :
      T → AgentRegistry T → ℕ → String → Reply → Value → Action (Turn T M W) Reply
  on_signal finish registry agent message reply signal s =
      let type = get_member signal "_signal_type" in
      let details = get_member signal "details" in
      if not (truthy signal)
      then pure reply s
      else if is_text type "REQUEST_SUB_CONVERSATION"
      then on_request finish registry details message s
      else if is_text type "END_SUB_CONVERSATION"
      then on_end agent details message reply s
      else pure reply s

  abbrev pub on_reply :
      T → AgentRegistry T → ℕ → String → Reply → Option Value → Action (Turn T M W) Reply
  on_reply finish registry agent message reply none s = pure reply s
  on_reply finish registry agent message reply (some signal) s =
      on_signal finish registry agent message reply signal s

  -- what follows on the reply of the agent that the message went to
  unfoldable pub route : T → AgentRegistry T → ℕ → String → Reply → Action (Turn T M W) Reply
  unfolding start_sub_conversation end_sub_conversation
  route finish registry agent message reply =
      on_reply finish registry agent message reply reply.internal_tool_signal

  abbrev pub send : T → AgentRegistry T → ℕ → String → String → Action (Turn T M W) Reply
  send finish registry agent text message =
      ask agents agent text >>= route finish registry agent message

  abbrev pub dispatch :
      T → AgentRegistry T → String → Option PendingSpecialistResult → Action (Turn T M W) Reply
  dispatch finish registry message (some p) s =
      send finish registry s.0.primary_agent (pending_note p message) message
        (record s.0 { pending_specialist_result = none }, s.1)
  dispatch finish registry message none s = send finish registry s.0.active_agent message message s

  -- one message, from the agent it goes to up to the reply
  unfoldable pub turn : T → AgentRegistry T → String → Action (Turn T M W) Reply
  unfolding route
  turn finish registry message s = dispatch finish registry message s.0.pending_specialist_result s

  abbrev pub state_opened : String → Outcome ℕ → Action (RoutingChatManager T M W) SessionState
  state_opened id (thrown e) r = throw e r
  state_opened id (returned a) r =
      pure (new_state a) (record r { session_states = put r.session_states id (new_state a) })

  abbrev pub open_state :
      String → AgentOptions T → Option SessionState → Action (RoutingChatManager T M W) SessionState
  open_state id options (some st) r = pure st r
  open_state id options none r =
      let (o, c) =
        ChatManager.get_or_create_session agents id (with_request r.request options) r.base in
      state_opened id o (record r { base = c })

  -- the map of the states is keyed by the identifier as it is given, not trimmed
  unfoldable pub get_or_create_session_state :
      String → AgentOptions T → Action (RoutingChatManager T M W) SessionState
  get_or_create_session_state id options r = open_state id options (get r.session_states id) r

  -- the override that gives the primary agent
  unfoldable pub get_or_create_session :
      String → AgentOptions T → Action (RoutingChatManager T M W) ℕ
  unfolding get_or_create_session_state
  get_or_create_session id options =
      get_or_create_session_state id options >>= λ st. pure st.primary_agent

  -- A turn in the session of this state.
  abbrev pub run_turn : String → String → SessionState → Action (RoutingChatManager T M W) Reply
  run_turn id message st r =
      let (o, s) = turn r.finish r.specialist_registry message (st, r.base) in
      (o, record r { base = s.1; session_states = put r.session_states id s.0 })

  unfoldable pub process_message :
      String → String → AgentOptions T → Action (RoutingChatManager T M W) Reply
  unfolding turn get_or_create_session_state
  process_message id message options =
      try_catch (get_or_create_session_state id options >>= run_turn id message)
        (λ e. pure sorry_reply)

module _ {T M W : Type 0} where
  unfoldable pub end_session : String → RoutingChatManager T M W → Bool × RoutingChatManager T M W
  end_session id r =
      let (ended, c) = ChatManager.end_session id r.base in
      (ended, record r { base = c; session_states = remove r.session_states id })

module _ {T M W : Type 0} (agents : ChatAgents T M W) (memories : Memories M W) where
  abbrev pub clear_each : Dict ℕ → Action W Unit
  clear_each [] = pure tt
  clear_each ((role, a) ∷ d) = agents.clear_history a >> clear_each d

  abbrev pub state_cleared :
      String → SessionState → Outcome (Unit {0}) → Action (RoutingChatManager T M W) Unit
  state_cleared id st (thrown e) r = throw e r
  state_cleared id st (returned _) r = pure tt (record r {
    session_states = put r.session_states id (record st { pending_specialist_result = none });
  })

  -- The pending result goes only if no history threw.
  abbrev pub clear_state : String → SessionState → Action (RoutingChatManager T M W) Unit
  clear_state id st r =
      let (o, c) =
        on_world (agents.clear_history st.primary_agent >> clear_each st.specialist_instances)
          r.base in
      state_cleared id st o (record r { base = c })

  abbrev clear_found : String → Option SessionState → Action (RoutingChatManager T M W) Unit
  clear_found id (some st) r = clear_state id st r
  clear_found id none r =
      let (o, c) = ChatManager.clear_session_history agents memories id r.base in
      (o, record r { base = c })

  unfoldable pub clear_session_history : String → Action (RoutingChatManager T M W) Unit
  clear_session_history id r = clear_found id (get r.session_states id) r

  unfoldable pub shutdown : RoutingChatManager T M W → RoutingChatManager T M W
  shutdown r = record r { session_states = []; base = ChatManager.shutdown agents memories r.base }

-- One call of a method, by its name.
pub data Call (T : Type 0) : Type 0 where
  open_call : String → AgentOptions T → Call T
  process_call : String → String → AgentOptions T → Call T
  end_call clear_call : String → Call T
  shutdown_call : Call T

module _ {T M W : Type 0} (agents : ChatAgents T M W) (memories : Memories M W) where
  -- The manager after a call, whether it returns or throws.
  unfoldable pub after : Call T → RoutingChatManager T M W → RoutingChatManager T M W
  after (open_call id options) r = (get_or_create_session_state agents id options r).1
  after (process_call id message options) r = (process_message agents id message options r).1
  after (end_call id) r = (end_session id r).1
  after (clear_call id) r = (clear_session_history agents memories id r).1
  after shutdown_call r = shutdown agents memories r

  unfoldable pub after_all : List (Call T) → RoutingChatManager T M W → RoutingChatManager T M W
  unfolding after
  after_all [] r = r
  after_all (call ∷ calls) r = after_all calls (after call r)
