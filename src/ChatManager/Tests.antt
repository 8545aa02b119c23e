-- ===== src/ChatManager/Tests.antt =====
-- The theorems on lib/chat-manager.js at a manager without a session.
use gemini_agent_lib.Prelude.{ℕ, String, ◌≡◌, refl, Bool, true, false, none, [], ◌∷◌, trim}
use gemini_agent_lib.Prelude.Dict.{get, put}
use gemini_agent_lib.Prelude.Action.{returned, pure}
use gemini_agent_lib.Value.{undefined}
use gemini_agent_lib.ChatAgents.{ChatAgents, AgentOptions}
use gemini_agent_lib.ChatManager.{ChatManager, get_or_create_session, end_session}
use gemini_agent_lib.ChatManager.Identity.{get_or_create_session-again, end_session-get}

abbrev silent : ChatAgents String Bool ℕ
silent = record {
  construct = λ a c. pure tt;
  process_user_message = λ a message. pure (record { text = none; internal_tool_signal = none });
  clear_history = λ a. pure tt;
  context = λ a w. undefined;
  set_context = λ a v w. w;
  chat_id = λ a w. none;
  fact_memory = λ a w. none;
  summary_memory = λ a w. none;
}

abbrev options : AgentOptions String
options = record { tools = none; members = [] }

abbrev empty : ChatManager String Bool ℕ
empty = record {
  base_agent_config = options;
  shared_memory_instances = [];
  delegation_enabled = false;
  active_sessions = [];
  created = 0;
  world = 0;
}

abbrev opened : ChatManager String Bool ℕ
opened = record empty { active_sessions = ("ana", 0) ∷ []; created = 1 }

get_or_create_session-again_example :
    get_or_create_session silent "ana " options opened ≡ (returned 0, opened)
unfolding get_or_create_session get put trim
get_or_create_session-again_example =
    get_or_create_session-again silent "ana" "ana " options options empty opened 0 refl refl

end_session-get_example :
    ((end_session "ana" opened).0 ≡ true)
    × (get (end_session "ana" opened).1.active_sessions "ana" ≡ none)
unfolding get_or_create_session get put trim
end_session-get_example = end_session-get silent "ana" options empty opened 0 refl refl
