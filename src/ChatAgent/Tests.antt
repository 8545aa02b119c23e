-- ===== src/ChatAgent/Tests.antt =====
-- The theorems on the history, the construction and the delegation of lib/chat-agent.js, at small
-- agents. Where the world is a list, it is a kept conversation.
mod Turns
mod Evaluation
use gemini_agent_lib.Prelude.{
  ℕ, zero, suc, true, ◌<◌, ◌≤◌, String, ◌≡◌, refl, subst, false, Option, none, some, List, [], ◌∷◌,
  ◌++◌, arith, ◌==◌, Bool-cases, inl, inr, is_empty, trim,
}
use gemini_agent_lib.Prelude.Action.{returned, thrown, Action, Ends, pure, throw}
use gemini_agent_lib.Value.{Value, null, str, obj, arr, field, end, cons, nil}
use gemini_agent_lib.AgentRegistry.{
  Env, AgentInstance, SpecialistConfig, AgentRegistry, LlmInstance, llm_config, spec_of, llm_key,
  new_llm, get_specialist_llm, get_specialist_agent,
  get_available_specialist_roles as registry_roles,
}
use gemini_agent_lib.Prelude.Dict.{get, put}
use gemini_agent_lib.ChatAgent.Handoff.{process_user_message-handoff}
use gemini_agent_lib.Agent.{Tool, FunctionCall, Response, find_tool_function}
use gemini_agent_lib.ChatAgents.{Reply}
use gemini_agent_lib.ChatAgent.{
  Message, ConversationMemory, FactMemory, ChatRequest, ChatLlm, ChatAgent, as_agent,
  add_to_history, load_conversation_history,
}
use gemini_agent_lib.ChatAgent.Memories.{get_all_facts, get_latest_summary}
use gemini_agent_lib.ChatAgent.Context.{search_context, prepare_enriched_context}
use gemini_agent_lib.ChatAgent.Evaluation.{match_braces, evaluate_and_manage_memories}
use gemini_agent_lib.ChatAgent.Evaluation.Braces.{Cut, match_braces-cut}
use gemini_agent_lib.ChatAgent.Evaluation.Harvest.{evaluate_and_manage_memories-stores}
use gemini_agent_lib.ChatAgent.Conversation.{Runtime, process_user_message}
use gemini_agent_lib.ChatAgent.Frame.{view}
use gemini_agent_lib.ChatAgent.Transcript.{
  Call, say, give, clear, after_all, Recorded, Unwritten, after_all-load,
  process_user_message-continues, said,
}
use gemini_agent_lib.ChatAgent.Loop.{Stops, process_user_message_total}
use gemini_agent_lib.ChatAgent.Signals.{GenuineReply, process_user_message-signal}
use gemini_agent_lib.ChatAgent.Delegation
use gemini_agent_lib.ChatAgent.Delegation.{
  get_available_specialist_roles, register, enable, unregister,
}
use gemini_agent_lib.ChatAgent.Delegation.Listing.{Told, enable-register_silent}
use gemini_agent_lib.ChatAgent.Construction.{Options, new, plain}
use gemini_agent_lib.ChatAgent.Construction.Identity.{IdentifiedBy, after_all-Told, new-chat_id}
use gemini_agent_lib.ChatAgent.Samples.{
  env, runtime, options, agent, final, asking, countdown, sign, signaller, clerk, finances,
}

abbrev echo : ChatLlm (List Message)
echo q w = (returned (some final), w)

abbrev notebook : ConversationMemory (List Message)
notebook = record {
  load_history = λ id w. (returned w, w);
  append_message = λ id x w. (returned tt, w ++ (x ∷ []));
  clear_history = λ id w. (returned tt, []);
}

abbrev keeper : ChatAgent String (List Message)
keeper = agent echo [] (some notebook)

notebook-Recorded : Recorded notebook "c1" (λ w. w)
notebook-Recorded = record { appends = λ x w. refl; clears = λ w. refl; loads = λ w. refl }

no_tool :
    {A : Type 0} (name : String) (f : Value → Action (List Message) Value)
    → find_tool_function (as_agent keeper) name ≡ some f
    → A
unfolding find_tool_function
no_tool name f e = absurd (ground (arith, e))

keeper-Unwritten : Unwritten runtime keeper (λ w. w)
keeper-Unwritten = record {
  asks = λ q w. refl;
  works = λ name f v w e. no_tool name f e;
  specialists = λ a v w. refl;
  facts = λ m id k v w e. absurd (ground (arith, e));
  summaries = λ m id v t w e. absurd (ground (arith, e));
  searches = λ m task n filter w e. absurd (ground (arith, e));
}

abbrev talk : List Call
talk = say 1 "olá" ∷ clear ∷ give "eco" (str "x") ∷ say 2 "tchau" ∷ []

after_all-load_example :
    (load_conversation_history
      (keeper, (after_all runtime talk (keeper, [])).1)).1.0.conversation_history
    ≡ (after_all runtime talk (keeper, [])).0.conversation_history
after_all-load_example =
    after_all-load runtime keeper notebook "c1" (λ w. w) talk [] keeper refl refl refl refl refl
      notebook-Recorded keeper-Unwritten refl

process_user_message-continues_example :
    (task : String) × (rest : List Message) × (registry : Option (AgentRegistry String))
    × ((process_user_message runtime 1 "olá" (keeper, [])).1.0
        ≡ view keeper task (said "olá" ∷ rest) registry)
process_user_message-continues_example = process_user_message-continues runtime keeper "olá" 1 []

abbrev changes : List (Delegation.DelegationCall String)
changes =
    enable (some (("financas", finances) ∷ []))
    ∷ register "vendas" (some finances)
    ∷ unregister "financas"
    ∷ []

after_all-Told_example : Told clerk (signaller ∷ []) (Delegation.after_all changes clerk)
unfolding new plain trim
after_all-Told_example =
    after_all-Told (thrown "sem modelo") "u"
      (record (options countdown (signaller ∷ []) none) { chat_id = some "c1" }) clerk changes refl
      refl

enable-register_silent_example :
    (get_available_specialist_roles (
        Delegation.after
          (register "financas" (some finances))
          (Delegation.after (enable none) clerk))
      ≡ "financas" ∷ [])
    × ((Delegation.after
          (register "financas" (some finances))
          (Delegation.after (enable none) clerk)).tools
        ≡ signaller ∷ [])
enable-register_silent_example = enable-register_silent clerk "financas" finances refl refl refl

new-chat_id_example :
    (id : String) × (keeper.chat_id ≡ some id)
    × (trim id ≡ id)
    × (is_empty (trim id) ≡ false)
    × IdentifiedBy "u" (some "c1") id
    × (keeper.chat_id ≡ some id)
unfolding new plain trim
new-chat_id_example =
    new-chat_id (thrown "sem modelo") "u" (options echo [] (some notebook)) keeper "v"
      (record (options echo [] (some notebook)) { chat_id = some "c1" }) keeper refl refl refl refl
      refl refl
