-- ===== src/RoutingChatManager/Tests.antt =====
-- The theorems on lib/routing-chat-manager.js at a coordinator (agent 0) and a specialist
-- (agent 1). The world counts the messages.
use gemini_agent_lib.Prelude.{
  ℕ, zero, suc, String, ◌≡◌, refl, Bool, true, false, Option, none, some, List, [], ◌∷◌,
}
use gemini_agent_lib.Prelude.Dict.{get, put}
use gemini_agent_lib.Prelude.Action.{returned, thrown, pure}
use gemini_agent_lib.Value.{Value, undefined, str, num, obj, field, end}
use gemini_agent_lib.AgentRegistry
use gemini_agent_lib.AgentRegistry.{AgentRegistry, SpecialistConfig, get_specialist_config}
use gemini_agent_lib.ChatAgents.{Reply, ChatAgents, AgentOptions, Memories}
use gemini_agent_lib.ChatManager
use gemini_agent_lib.ChatManager.{
  ChatManager, LlmSettings, MemorySettings, MemoryAdapter, check_settings,
}
use gemini_agent_lib.SubconversationTools.{
  request_specialist_sub_conversation, end_specialist_sub_conversation,
}
use gemini_agent_lib.RoutingChatManager.Session.{SessionState}
use gemini_agent_lib.RoutingChatManager
use gemini_agent_lib.RoutingChatManager.{
  RoutingChatManager, Call, process_call, end_call, clear_call, after_all, process_message, turn,
}
use gemini_agent_lib.RoutingChatManager.Coherence.{IsCoherent, after_all-IsCoherent}
use gemini_agent_lib.RoutingChatManager.Handover.{
  IsFinished, IsRequest, turn-end, turn-request, turn-unknown, turn-create, process_message-get,
}

abbrev request_args : Value
request_args =
    obj (field "specialist_role" (str "financas") (field "initial_context" (str "imposto") end))

abbrev finish_args : Value
finish_args = obj (
    field "status" (str "completed")
      (field "final_result" (num 7) (field "last_user_message" (str "obrigado") end)))

-- the coordinator always asks for a specialist, and each specialist ends at once
abbrev answer : ℕ → Reply
answer zero = record {
  text = some "um momento";
  internal_tool_signal = some (request_specialist_sub_conversation request_args);
}
answer (suc a) = record {
  text = some "feito";
  internal_tool_signal = some (end_specialist_sub_conversation finish_args);
}

abbrev team : ChatAgents String Bool ℕ
team = record {
  construct = λ a c. pure tt;
  process_user_message = λ a message w. (returned (answer a), suc w);
  clear_history = λ a. pure tt;
  context = λ a w. undefined;
  set_context = λ a v w. w;
  chat_id = λ a w. some "ana";
  fact_memory = λ a w. none;
  summary_memory = λ a w. none;
}

abbrev no_memories : Memories Bool ℕ
no_memories = record {
  clear_history = λ m id. pure tt;
  delete_all_facts = λ m id. pure tt;
  delete_all_summaries = λ m id. pure tt;
  close = λ m. none;
}

abbrev finances : SpecialistConfig String
finances = record {
  objective = some "contas";
  context = none;
  llm_mode = none;
  llm_model_name = none;
  generation_config = none;
  agent_class = none;
  tools = none;
  enable_google_search = none;
  task_formatter = none;
}

abbrev options : AgentOptions String
options = record { tools = none; members = [] }

abbrev base : ChatManager String Bool ℕ
base = record {
  base_agent_config = options;
  shared_memory_instances = [];
  delegation_enabled = false;
  active_sessions = [];
  created = 0;
  world = 0;
}

abbrev empty : RoutingChatManager String Bool ℕ
empty = record {
  base = base;
  specialist_registry = AgentRegistry.new (("financas", finances) ∷ []);
  session_states = [];
  request = "request";
  finish = "finish";
}

abbrev settings : LlmSettings
settings = record { llm_type = none; project_id = some "projeto"; api_key = none }

abbrev calls : List (Call String)
calls =
    process_call "ana" "quanto devo?" options
    ∷ process_call "ana" "obrigado" options
    ∷ clear_call "ana"
    ∷ end_call "ana"
    ∷ []

after_all-IsCoherent_example : IsCoherent (after_all team no_memories calls empty)
unfolding RoutingChatManager.new ChatManager.new check_settings
after_all-IsCoherent_example =
    after_all-IsCoherent (λ adapter db. pure true) team no_memories "request" "finish"
      (λ c. returned tt) (some settings) options [] false (("financas", finances) ∷ []) 0 empty
      calls refl

abbrev with_specialist : ℕ → Option String → SessionState
with_specialist active role = record {
  primary_agent = 0;
  active_agent = active;
  active_specialist_role = role;
  specialist_instances = ("financas", 1) ∷ [];
  pending_specialist_result = none;
}

abbrev finish_args-IsFinished : IsFinished finish_args
finish_args-IsFinished = record { status = refl; result = refl; message = refl }

abbrev request_args-IsRequest : IsRequest "financas" request_args
request_args-IsRequest = record { role_member = refl; named = refl; context = refl }

abbrev specialists : AgentRegistry String
specialists = AgentRegistry.new (("financas", finances) ∷ [])

turn-end_example :
    turn team "finish" specialists "obrigado" (with_specialist 1 (some "financas"), base) ≡ (
      returned (answer 0),
      (
        record (with_specialist 0 none) { pending_specialist_result = none },
        record base { world = 2 },
      ),
    )
turn-end_example =
    turn-end team "finish" specialists "obrigado" (with_specialist 1 (some "financas"), base)
      (some "feito") finish_args 1 refl refl finish_args-IsFinished refl

turn-request_example :
    turn team "finish" specialists "quanto devo?" (with_specialist 0 none, base)
    ≡ (returned (answer 1), (with_specialist 1 (some "financas"), record base { world = 2 }))
turn-request_example =
    turn-request team "finish" specialists "quanto devo?" "financas" (with_specialist 0 none, base)
      (some "um momento") request_args 1 1 refl (unfold get in refl) refl request_args-IsRequest
      refl

abbrev alone : SessionState
alone = record (with_specialist 0 none) { specialist_instances = [] }

abbrev nobody : AgentRegistry String
nobody = AgentRegistry.new []

turn-unknown_example :
    turn team "finish" nobody "quanto devo?" (alone, base)
    ≡ (thrown "specialistResponse is not defined", (alone, record base { world = 1 }))
unfolding get get_specialist_config AgentRegistry.new
turn-unknown_example =
    turn-unknown team "finish" nobody "quanto devo?" "financas" (alone, base) (some "um momento")
      request_args 1 refl refl refl request_args-IsRequest refl

turn-create_example :
    turn team "finish" specialists "quanto devo?" (alone, record base { created = 1 }) ≡ (
      returned (answer 1),
      (with_specialist 1 (some "financas"), record base { created = 2; world = 2 }),
    )
unfolding get put get_specialist_config AgentRegistry.new
turn-create_example =
    turn-create team "finish" specialists "quanto devo?" "financas"
      (alone, record base { created = 1 }) (some "um momento") request_args finances 1 1 refl refl
      refl refl request_args-IsRequest refl refl

process_message-get_example :
    get (process_message team "ana" "quanto devo?" options empty).1.session_states "bia"
    ≡ get empty.session_states "bia"
process_message-get_example = process_message-get team "ana" "bia" "quanto devo?" options empty refl
