-- ===== src/RoutingChatManager/Session.antt =====
-- The state of a session of lib/routing-chat-manager.js, and how a sub-conversation starts and
-- ends. A turn works on the state of one session and on the base class.
use gemini_agent_lib.Prelude.{
  ℕ, String, Bool, true, false, not, ◌&&◌, Option, none, some, [], ◌∷◌, ◌++◌, or_else, ◌==◌, ◌+++◌,
  if◌then◌else◌,
}
use gemini_agent_lib.Prelude.Dict.{Dict, get, put}
use gemini_agent_lib.Prelude.Action.{Action, pure, throw, try_catch, ◌>>=◌}
use gemini_agent_lib.Value.{Value, undefined, null, str, truthy, get_member, json_text, to_text}
use gemini_agent_lib.AgentRegistry.{AgentRegistry, SpecialistConfig, get_specialist_config}
use gemini_agent_lib.ChatAgents.{specialist_options, ChatAgentConfig, Reply, ChatAgents}
use gemini_agent_lib.ChatManager.{ChatManager, on_world, construct_agent}

pub record PendingSpecialistResult : Type 0 where
  pub ended_specialist_role : Option String
  pub status : Value
  pub final_result : Value
  pub last_user_message : Value
  pub message_to_coordinator : Value

pub record SessionState : Type 0 where
  pub primary_agent : ℕ
  pub active_agent : ℕ
  pub active_specialist_role : Option String
  pub specialist_instances : Dict ℕ
  pub pending_specialist_result : Option PendingSpecialistResult

abbrev pub new_state : ℕ → SessionState
new_state primary = record {
  primary_agent = primary;
  active_agent = primary;
  active_specialist_role = none;
  specialist_instances = [];
  pending_specialist_result = none;
}

-- `${role}` for a role or `null`
abbrev pub role_text : Option String → String
role_text none = "null"
role_text (some role) = role

-- `${v || 'Nenhuma'}`
abbrev pub message_text : Value → String
message_text v = if truthy v then to_text v else "Nenhuma"

-- what the primary agent gets after a sub-conversation that an earlier turn ended
unfoldable pub pending_note : PendingSpecialistResult → String → String
pending_note p message =
    "[SYSTEM_NOTE: Sub-conversa anterior com especialista '"
    +++ role_text p.ended_specialist_role
    +++ "' concluída.\nStatus: "
    +++ to_text p.status
    +++ "\nResultado do Especialista: "
    +++ json_text p.final_result
    +++ "\nÚltima Mensagem do Usuário para Especialista: \""
    +++ to_text p.last_user_message
    +++ "\"\nMensagem do Especialista para Você: "
    +++ message_text p.message_to_coordinator
    +++ "]\n\n---\n\nAgora, processe a NOVA mensagem do usuário abaixo, levando em conta TODAS as informações da nota acima:\n"
    +++ message
    +++ "\n"

-- what the primary agent gets after a sub-conversation that this turn ended
unfoldable pub finished_note : PendingSpecialistResult → String → String
finished_note p message =
    "[SYSTEM_NOTE: Sub-conversa com especialista '"
    +++ role_text p.ended_specialist_role
    +++ "' finalizada pelo especialista.\nStatus: "
    +++ to_text p.status
    +++ "\nResultado do Especialista: "
    +++ json_text p.final_result
    +++ "\nÚltima Mensagem do Usuário (causou o fim, não respondida pelo especialista): \""
    +++ to_text p.last_user_message
    +++ "\"\nMensagem do Especialista para Você: "
    +++ message_text p.message_to_coordinator
    +++ "]\n\n---\n\nAgora, processe a mensagem original do usuário abaixo, que não foi respondida pelo especialista:\n"
    +++ message
    +++ "\n"

-- `v === text`
abbrev pub is_text : Value → String → Bool
is_text (str s) text = s == text
is_text v text = false

-- `v.substring(…)` on a truthy value: only a text has that method
abbrev pub has_substring : Value → Bool
has_substring (str s) = true
has_substring v = false

-- `const { … } = details`
abbrev pub destructured : {S : Type 0} → Value → Action S Value
destructured undefined = throw "Cannot destructure properties of 'undefined'"
destructured null = throw "Cannot destructure properties of 'null'"
destructured details = pure details

-- control is with the primary agent again
abbrev pub reverted : SessionState → SessionState
reverted st = record st { active_agent = st.primary_agent; active_specialist_role = none }

abbrev pub activated : String → ℕ → SessionState → SessionState
activated role a st = record st { active_agent = a; active_specialist_role = some role }

abbrev pub result_of : Option String → Value → PendingSpecialistResult
result_of role details = record {
  ended_specialist_role = role;
  status = get_member details "status";
  final_result = get_member details "final_result";
  last_user_message = get_member details "last_user_message";
  message_to_coordinator = get_member details "message_to_coordinator";
}

-- A turn: the state of its session, and the base class.
abbrev pub Turn : Type 0 → Type 0 → Type 0 → Type 0
Turn T M W = SessionState × ChatManager T M W

module _ {T M W A : Type 0} where
  abbrev pub on_manager : Action (ChatManager T M W) A → Action (Turn T M W) A
  on_manager m s = let (o, c) = m s.1 in (o, (s.0, c))

module _ {T M W : Type 0} where
  abbrev pub update_state : (SessionState → SessionState) → Action (Turn T M W) Unit
  update_state f s = pure tt (f s.0, s.1)

  -- `_endSubConversation`
  unfoldable pub end_sub_conversation : Value → Action (Turn T M W) Unit
  end_sub_conversation value = do
    details ← destructured value
    update_state λ st. record (reverted st) {
      pending_specialist_result = some (result_of st.active_specialist_role details);
    }

module _ {T M W : Type 0} (agents : ChatAgents T M W) where
  abbrev pub ask : ℕ → String → Action (Turn T M W) Reply
  ask a message = on_manager (on_world (agents.process_user_message a message))

  abbrev pub specialist_config : T → Turn T M W → SpecialistConfig T → ChatAgentConfig T M
  specialist_config finish s config = record {
    spread = specialist_options config;
    tools = some (or_else config.tools [] ++ finish ∷ []);
    conversation_memory = get s.1.shared_memory_instances "conversation";
    fact_memory = get s.1.shared_memory_instances "fact";
    summary_memory = get s.1.shared_memory_instances "summary";
    enable_specialist_delegation = false;
    chat_id = agents.chat_id s.0.primary_agent s.1.world;
  }

  abbrev pub create_specialist : T → String → Option (SpecialistConfig T) → Action (Turn T M W) ℕ
  create_specialist finish role none s =
      throw ("Especialista '" +++ role +++ "' não encontrado no registro.") s
  create_specialist finish role (some config) s =
      (on_manager (construct_agent agents (specialist_config finish s config)) >>= λ a s'.
      pure a (record s'.0 { specialist_instances = put s'.0.specialist_instances role a }, s'.1))
        s

  abbrev pub specialist : T → AgentRegistry T → String → Option ℕ → Action (Turn T M W) ℕ
  specialist finish registry role (some a) s = pure a s
  specialist finish registry role none s =
      create_specialist finish role (get_specialist_config registry role) s

  -- the specialist's context with the initial context of the signal
  abbrev pub with_context : ℕ → Value → W → W
  with_context a initial w =
      if truthy initial && truthy (agents.context a w)
      then agents.set_context a (str (to_text (agents.context a w) +++ "\n\n" +++ to_text initial))
          w
      else if truthy initial
      then agents.set_context a initial w
      else w

  abbrev pub activate : String → Value → ℕ → Action (Turn T M W) Unit
  activate role details a s =
      let initial = get_member details "initial_context" in
      let user = get_member details "user_message_for_specialist" in
      let s' : Turn T M W =
        (activated role a s.0, record s.1 { world = with_context a initial s.1.world }) in
      if truthy user && not (has_substring user)
      then throw "user_message_for_specialist.substring is not a function" s'
      else pure tt s'

  abbrev pub start_specialist : T → AgentRegistry T → String → Value → Action (Turn T M W) Unit
  start_specialist finish registry role details s =
      (specialist finish registry role (get s.0.specialist_instances role)
          >>= activate role details)
        s

  -- `_startSubConversation`
  unfoldable pub start_sub_conversation : T → AgentRegistry T → Value → Action (Turn T M W) Unit
  start_sub_conversation finish registry value = do
    details ← destructured value
    try_catch
        (start_specialist finish registry (to_text (get_member details "specialist_role")) details)
        (λ e. update_state reverted)
