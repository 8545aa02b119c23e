-- ===== src/ChatAgent/Tests/Turns.antt =====
-- The theorems on `processUserMessage` of lib/chat-agent.js at small agents.
use gemini_agent_lib.Prelude.{
  ℕ, zero, suc, true, ◌<◌, ◌≤◌, String, ◌≡◌, refl, subst, Option, none, some, List, [], ◌∷◌, arith,
  ◌==◌, Bool-cases, inl, inr,
}
use gemini_agent_lib.Prelude.Action.{returned, Action, Ends, pure}
use gemini_agent_lib.Value.{Value, str, obj, field, end}
use gemini_agent_lib.AgentRegistry.{
  Env, AgentInstance, AgentRegistry, LlmInstance, llm_config, spec_of, llm_key, new_llm,
  get_specialist_llm, get_specialist_agent, get_available_specialist_roles as registry_roles,
}
use gemini_agent_lib.Prelude.Dict.{get, put}
use gemini_agent_lib.ChatAgent.Handoff.{process_user_message-handoff}
use gemini_agent_lib.Agent.{Tool, FunctionCall, Response, find_tool_function}
use gemini_agent_lib.ChatAgents.{Reply}
use gemini_agent_lib.ChatAgent.{Message, ChatRequest, ChatLlm, ChatAgent, as_agent, add_to_history}
use gemini_agent_lib.ChatAgent.Memories.{get_all_facts, get_latest_summary}
use gemini_agent_lib.ChatAgent.Context.{search_context, prepare_enriched_context}
use gemini_agent_lib.ChatAgent.Conversation.{Runtime, process_user_message}
use gemini_agent_lib.ChatAgent.Transcript.{said}
use gemini_agent_lib.ChatAgent.Loop.{Stops, process_user_message_total}
use gemini_agent_lib.ChatAgent.Signals.{GenuineReply, process_user_message-signal}
use gemini_agent_lib.SubconversationTools.{request_specialist_sub_conversation}
use gemini_agent_lib.ChatAgent.Routing.{
  IsSubconversationTool, IsAccepted, process_user_message-IsAccepted,
}
use gemini_agent_lib.ChatAgent.Samples.{
  env, runtime, agent, final, countdown, sign, clerk, finances,
}

asks :
    (q : ChatRequest) (w w' : ℕ) (r : Response) (c : FunctionCall)
    → countdown q w ≡ (returned (some r), w')
    → r.function_call ≡ some c
    → w' < w
asks q zero w' r c e call = ground arith
asks q (suc n) w' r c e call = ground arith

counted :
    (q : ChatRequest) (n w : ℕ) → w ≤ n → Ends (λ v. ⊥ × (v ≤ n)) (λ r v. v ≤ n) (countdown q w)
counted q n zero h = h
counted q n (suc w) h = omega arith

-- what a tool that is found does to the world
abbrev Leaves : Option (Value → Action ℕ Value) → Type 0
Leaves none = Unit
Leaves (some f) = (v : Value) (w : ℕ) → (f v w).1 ≡ w

found-Leaves : (name : String) → Leaves (find_tool_function (as_agent clerk) name)
unfolding find_tool_function
found-Leaves name = elim (Bool-cases ("eco" == name)) [
  | inl e ↦ rw (e, Leaves) (λ v w. refl)
  | inr e ↦ rw (e, Leaves) tt
]

works :
    (n : ℕ) (name : String) (f : Value → Action ℕ Value) (v : Value) (w : ℕ)
    → find_tool_function (as_agent clerk) name ≡ some f
    → w ≤ n
    → (f v w).1 ≤ n
works n name f v w e h = let same = subst Leaves e (found-Leaves name) v w in omega arith

clerk-Stops : Stops runtime clerk (λ w. w)
clerk-Stops = record {
  asks = asks;
  keeps = λ n. record {
    push = λ m h w r. r;
    asks = λ q h w r. counted q n w r;
    works = λ name f v h w e r. works n name f v w e r;
    specialists = λ a v h w r. r;
    sets_fact = λ m id k v h w e r. absurd (ground (arith, e));
    all_facts = λ m id h w e r. absurd (ground (arith, e));
    adds_summary = λ m id v t h w e r. absurd (ground (arith, e));
    latest_summary = λ m id h w e r. absurd (ground (arith, e));
    searches = λ m task k filter h w e r. absurd (ground (arith, e));
  };
}

process_user_message_total_example :
    (reply : Reply) × ((process_user_message runtime 3 "olá" (clerk, 2)).0 ≡ returned (some reply))
process_user_message_total_example =
    process_user_message_total runtime clerk (λ w. w) clerk-Stops 3 "olá" 2 (omega arith)

abbrev signalled : Reply
signalled = record { text = some "pronto"; internal_tool_signal = some sign }

process_user_message-signal_example : GenuineReply clerk signalled
unfolding process_user_message find_tool_function add_to_history prepare_enriched_context
    get_all_facts search_context get_latest_summary
process_user_message-signal_example =
    process_user_message-signal runtime clerk 2 "olá" 1 signalled refl

abbrev staffed_env : Env
staffed_env = record env { google_cloud_project_id = some "projeto"; google_api_key = some "chave" }

-- a runtime whose specialists answer
abbrev staffed : Runtime String ℕ
staffed = record runtime {
  env = staffed_env;
  execute_task = λ a v w. (returned (str "saldo 10"), suc w);
}

abbrev staff : AgentRegistry String
staff = record {
  configs = ("financas", finances) ∷ [];
  llm_instances = [];
  agent_instances = [];
  created = 0;
}

abbrev client : LlmInstance
client = record { ident = 0; config = llm_config staffed_env finances }

abbrev accountant : AgentInstance String
accountant = record { ident = 1; agent_class = none; spec = spec_of "financas" finances client }

abbrev working : AgentRegistry String
working = record staff {
  llm_instances = (llm_key staffed_env "financas" finances, client) ∷ [];
  agent_instances = ("financas", accountant) ∷ [];
  created = 2;
}

abbrev handing : Value
handing =
    obj (field "specialist_role" (str "financas") (field "task_for_specialist" (str "saldo?") end))

abbrev delegating_call : FunctionCall
delegating_call = record { name = "delegate_task_to_specialist"; args = some handing }

abbrev manager : ChatAgent String ℕ
manager =
    record (agent
      (λ q w. (returned (some (record { text = none; function_call = some delegating_call })), w))
      [] none) { specialist_delegation_enabled = true; agent_registry = some staff }

abbrev manager_with : List Message → ChatAgent String ℕ
manager_with h = record manager { task = "saldo?"; conversation_history = h }

abbrev handed : List Message
handed =
    said "saldo?"
    ∷ record { role = "model"; content = "[Function Call: delegate_task_to_specialist]" }
    ∷ []

process_user_message-handoff_example : process_user_message staffed 1 "saldo?" (manager, 0) ≡ (
  returned (some (record { text = some "saldo 10"; internal_tool_signal = none })),
  (add_to_history "model" "saldo 10"
      (record (manager_with handed) { agent_registry = some working }, 1)).1,
)
unfolding process_user_message find_tool_function add_to_history prepare_enriched_context
    get_all_facts search_context get_latest_summary get_specialist_agent llm_key new_llm
    get_specialist_llm get put registry_roles
process_user_message-handoff_example =
    process_user_message-handoff staffed 0 "saldo?" (manager, 0)
      (manager_with (said "saldo?" ∷ []), 0)
      (record { text = none; function_call = some delegating_call }) delegating_call
      (manager_with handed) 0 "financas" (str "saldo?") "saldo 10" working 1 refl refl refl
      (record {
        args = handing;
        name = refl;
        given = refl;
        role_given = refl;
        task_given = refl;
        role_named = refl;
        task_named = refl;
      })
      (record {
        before = staff;
        specialist = accountant;
        enabled = refl;
        registry = refl;
        known = refl;
        found = refl;
        executed = refl;
      })

abbrev asking_role : Response
asking_role = record {
  text = none;
  function_call = some (record {
    name = "pedir";
    args = some (
        obj (field "specialist_role" (str "financas") (field "initial_context" (str "saldo") end)));
  });
}

abbrev requester : Tool ℕ
requester = record {
  name = "pedir";
  description = "pede um especialista";
  parameters = none;
  function = some (λ v. pure (request_specialist_sub_conversation v));
}

abbrev asks_once : ChatLlm ℕ
asks_once q zero = (returned (some final), zero)
asks_once q (suc n) = (returned (some asking_role), n)

abbrev coordinator : ChatAgent String ℕ
coordinator = agent asks_once (requester ∷ []) none

abbrev IsOneOfThem : Option (Value → Action ℕ Value) → Type 0
IsOneOfThem none = Unit
IsOneOfThem (some f) = IsSubconversationTool f

one_of_them : (name : String) → IsOneOfThem (find_tool_function (as_agent coordinator) name)
unfolding find_tool_function
one_of_them name = elim (Bool-cases ("pedir" == name)) [
  | inl e ↦ rw (e, IsOneOfThem) (inl refl)
  | inr e ↦ rw (e, IsOneOfThem) tt
]

abbrev asked_signal : Value
asked_signal = obj (
    field "_signal_type" (str "REQUEST_SUB_CONVERSATION") (
      field "details"
        (obj (field "specialist_role" (str "financas") (field "initial_context" (str "saldo") end)))
        end))

abbrev routed : Reply
routed = record { text = some "pronto"; internal_tool_signal = some asked_signal }

process_user_message-IsAccepted_example : IsAccepted asked_signal
unfolding process_user_message find_tool_function add_to_history prepare_enriched_context
    get_all_facts search_context get_latest_summary request_specialist_sub_conversation
process_user_message-IsAccepted_example =
    process_user_message-IsAccepted runtime coordinator 2 "saldo?" 1 routed asked_signal
      (λ name f e. subst IsOneOfThem e (one_of_them name)) refl refl
