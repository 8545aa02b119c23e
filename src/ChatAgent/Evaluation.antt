-- ===== src/ChatAgent/Evaluation.antt =====
-- `_evaluateAndManageMemories` of lib/chat-agent.js: after an answer, the model is asked for facts
-- and a summary to keep. Whatever fails is only logged. `parse_json` is `JSON.parse`; it is given
-- a text in braces, and so does not give `null`.
pub mod Prompt
pub mod Harvest
pub mod Braces
use Prim.Native.String.{[], ◌∷◌}
use mathlib.Core.List
use gemini_agent_lib.Prelude.{
  ℕ, String, Char, code, Bool, true, false, not, ◌&&◌, Option, none, some, is_some, nat_eq, join,
  ◌+++◌, if◌then◌else◌,
}
use gemini_agent_lib.Prelude.Action.{Outcome, Action, pure, throw, try_catch, ◌>>=◌, ◌>>◌}
use gemini_agent_lib.Value.{
  Value, undefined, null, str, obj, arr, Items, nil, cons, truthy, get_member, is_undefined,
}
use gemini_agent_lib.AgentRegistry.{or_text}
use gemini_agent_lib.Agent.{Response}
use gemini_agent_lib.ChatAgent.{ChatRequest, ChatAgent, State, in_world}
use gemini_agent_lib.ChatAgent.Memories.{set_fact, add_summary}
use gemini_agent_lib.ChatAgent.Evaluation.Prompt.{evaluation_prompt}

-- the text up to its last closing brace, from its first character and the rest cut likewise
abbrev pub grown : Char → Option String → Option String
grown c (some t) = some (c ∷ t)
grown c none = if nat_eq (code c) 125 then some (c ∷ []) else none

-- the text up to its last closing brace
abbrev pub to_last_brace : String → Option String
to_last_brace [] = none
to_last_brace (c ∷ s) = grown c (to_last_brace s)

-- `s.match(/\{[\s\S]*\}/)[0]`: from the first opening brace to the last closing one
abbrev pub match_braces : String → Option String
match_braces [] = none
match_braces (c ∷ s) =
    let rest = match_braces s in if nat_eq (code c) 123 then to_last_brace (c ∷ s) else rest

-- the argument of the request
abbrev pub evaluation_request : String → ChatRequest
evaluation_request prompt = record {
  prompt = prompt;
  context =
      "Você é um sistema de gerenciamento de memória que analisa conversas para extrair fatos e gerar resumos.";
  tools = some List.[];
  history = List.[];
}

abbrev pub evaluation_text : Option Response → String
evaluation_text none = ""
evaluation_text (some r) = or_text r.text ""

module _ {T W : Type 0} where
  abbrev pub manages_facts : ChatAgent T W → Bool
  manages_facts c = c.auto_manage_fact_memory && is_some c.fact_memory

  abbrev pub manages_summary : ChatAgent T W → Bool
  manages_summary c = c.auto_manage_summary_memory && is_some c.summary_memory

  abbrev pub keep_members : Value → Action (State T W) (Unit {0})
  keep_members v =
      if truthy (get_member v "chave") && not (is_undefined (get_member v "valor"))
      then (set_fact (get_member v "chave") (get_member v "valor") >>= λ _. pure tt)
      else pure tt

  -- one turn of the loop over the facts
  abbrev pub keep_fact : Value → Action (State T W) (Unit {0})
  keep_fact undefined = throw "Cannot read properties of undefined (reading 'chave')"
  keep_fact null = throw "Cannot read properties of null (reading 'chave')"
  keep_fact v = keep_members v

  unfoldable pub keep_facts : Items → Action (State T W) (Unit {0})
  keep_facts nil = pure tt
  keep_facts (cons v vs) = keep_fact v >> keep_facts vs

  -- The loop; the characters of a text have no `chave`.
  abbrev pub iterate_facts : Value → Action (State T W) (Unit {0})
  iterate_facts (arr facts) = keep_facts facts
  iterate_facts (str s) = pure tt
  iterate_facts v = throw "memoryData.fatos is not iterable"

  unfoldable pub store_facts : Value → Action (State T W) (Unit {0})
  store_facts memory_data s =
      if manages_facts s.0 && truthy (get_member memory_data "fatos")
      then iterate_facts (get_member memory_data "fatos") s
      else pure tt s

  unfoldable pub store_summary : (W → ℕ) → Value → Action (State T W) (Unit {0})
  store_summary clock memory_data s =
      if manages_summary s.0 && truthy (get_member memory_data "resumo")
      then (add_summary clock (get_member memory_data "resumo") none >>= λ _. pure tt) s
      else pure tt s

  abbrev pub store_memories : (W → ℕ) → Outcome Value → Action (State T W) (Unit {0})
  store_memories clock (Outcome.thrown e) = pure tt
  store_memories clock (Outcome.returned memory_data) =
      store_facts memory_data >> store_summary clock memory_data

  -- what is done with the text of the model's answer
  abbrev pub read_evaluation :
      (String → Outcome Value) → (W → ℕ) → Option String → Action (State T W) (Unit {0})
  read_evaluation parse_json clock none = pure tt
  read_evaluation parse_json clock (some json) = store_memories clock (parse_json json)

  -- the body of the `try`
  abbrev pub evaluate : (String → Outcome Value) → (W → ℕ) → String → Action (State T W) (Unit {0})
  evaluate parse_json clock prompt s =
      (in_world (s.0.llm (evaluation_request prompt)) >>= λ r.
      read_evaluation parse_json clock (match_braces (evaluation_text r)))
        s

  -- `_evaluateAndManageMemories`
  unfoldable pub evaluate_and_manage_memories :
      (String → Outcome Value) → (W → ℕ) → String → String → Action (State T W) (Unit {0})
  unfolding store_facts store_summary
  evaluate_and_manage_memories parse_json clock user_message agent_response s =
      let prompt =
        evaluation_prompt (manages_facts s.0) (manages_summary s.0) user_message agent_response in
      try_catch (evaluate parse_json clock prompt) (λ e. pure tt) s
