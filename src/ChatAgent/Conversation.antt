-- ===== src/ChatAgent/Conversation.antt =====
-- `processUserMessage` and `processFunctionResult` of lib/chat-agent.js. The loop of function
-- calls is on fuel, and `none` means that it ran out.
use gemini_agent_lib.Prelude.{
  ℕ, zero, suc, String, Bool, true, false, not, ◌&&◌, ◌||◌, Option, none, some, List, any, join,
  ◌==◌, ◌+++◌, if◌then◌else◌,
}
use gemini_agent_lib.Prelude.Action.{Outcome, Action, pure, throw, try_catch, ◌>>=◌, ◌>>◌}
use gemini_agent_lib.Value.{
  Value, undefined, null, str, obj, end, field, truthy, get_member, json_text, to_text,
}
use gemini_agent_lib.AgentRegistry
use gemini_agent_lib.AgentRegistry.{
  Env, LlmConfig, AgentSpec, AgentInstance, AgentRegistry, or_text, has_text, get_specialist_agent,
}
use gemini_agent_lib.Agent.{FunctionCall, Response, prepare_tools, find_tool_function}
use gemini_agent_lib.Agent.Task.{call_error, args_of}
use gemini_agent_lib.ChatAgents.{Reply}
use gemini_agent_lib.ChatAgent.{
  ChatRequest, ChatAgent, State, in_world, as_agent, prepare_history, add_to_history,
}
use gemini_agent_lib.ChatAgent.Memories.{as_text, no_substring}
use gemini_agent_lib.ChatAgent.Context.{prepare_enriched_context}
use gemini_agent_lib.ChatAgent.Evaluation.{
  manages_facts, manages_summary, evaluate_and_manage_memories,
}
use gemini_agent_lib.ChatAgent.Delegation
use gemini_agent_lib.ChatAgent.Delegation.{delegation_name, registry_roles}

-- What stands behind an agent: the variables and the constructors that the registry uses, the
-- `executeTask` of a specialist with a task, `JSON.parse`, and the time.
pub record Runtime (T W : Type 0) : Type 0 where
  pub env : Env
  pub sdk : LlmConfig → Outcome (Unit {0})
  pub construct : T → AgentSpec T → Outcome (Unit {0})
  pub execute_task : AgentInstance T → Value → Action W Value
  pub parse_json : String → Outcome Value
  pub clock : W → ℕ

-- how a function call was worked on: a specialist answered the user, or there is a result
pub data Worked : Type 0 where
  delegated : String → Worked
  result : Value → Worked

-- how the loop ends: at an answer of the model, with the last tool's result, or at a specialist's
pub data Ending : Type 0 where
  answered : Option Response → Value → Ending
  by_specialist : String → Ending

abbrev pub result_message : String → Value → String
result_message name v = json_text (obj (field "function_name" (str name) (field "result" v end)))

abbrev pub call_text : Response → FunctionCall → String
call_text r c = or_text r.text ("[Function Call: " +++ c.name +++ "]")

abbrev pub result_turn : String → Value → String
result_turn name v = "[Resultado da Função: " +++ name +++ "]\n" +++ result_message name v

abbrev pub result_prompt : String → Value → String
result_prompt name v =
    "Use o resultado da função "
    +++ name
    +++ " para continuar a conversa. Resultado: "
    +++ result_message name v

abbrev pub function_prompt : String → Value → String
function_prompt name v =
    "Use o resultado da função "
    +++ name
    +++ " para continuar. Resultado: "
    +++ result_message name v

abbrev pub not_found : String → Value
not_found name = str ("Erro: Função '" +++ name +++ "' não encontrada nas tools do agente.")

abbrev pub delegation_error : String → Worked
delegation_error e = result (str ("Erro ao processar delegação: " +++ e))

abbrev pub is_object : Value → Bool
is_object null = true
is_object (obj fs) = true
is_object (Value.arr vs) = true
is_object v = false

abbrev pub no_members : String → String
no_members what =
    "Cannot destructure property 'specialist_role' of 'functionCall.args' as it is " +++ what
    +++ "."

module _ {S : Type 0} where
  abbrev pub destructured : Option Value → Action S Value
  destructured none = throw (no_members "undefined")
  destructured (some undefined) = throw (no_members "undefined")
  destructured (some null) = throw (no_members "null")
  destructured (some v) = pure v

  -- `const { specialist_role, task_for_specialist } = functionCall.args`
  abbrev pub destructured_args : FunctionCall → Action S Value
  destructured_args c = destructured c.args

  -- the two tests of the arguments; only a text is one of the roles
  abbrev pub chosen_role : List String → Value → Action S String
  chosen_role roles (str role) =
      if any (λ r. r == role) roles
      then pure role
      else throw (
          "Papel de especialista inválido: '"
          +++ role
          +++ "'. Papéis disponíveis: "
          +++ join ", " roles)
  chosen_role roles v = throw (
      "Papel de especialista inválido: '"
      +++ to_text v
      +++ "'. Papéis disponíveis: "
      +++ join ", " roles)

  abbrev pub check_arguments : Value → Value → Action S (Unit {0})
  check_arguments role task =
      if not (truthy role) || not (truthy task)
      then throw "Argumentos 'specialist_role' ou 'task_for_specialist' ausentes ou inválidos."
      else pure tt

  -- the text of a specialist's answer; a log line throws if it is none
  abbrev pub response_text : Value → Action S String
  response_text null = throw "Cannot read properties of null (reading 'text')"
  response_text v =
      as_text ("specialistResponseText" +++ no_substring)
        (if is_object v && truthy (get_member v "text") then get_member v "text" else v)

-- `lastToolResult && lastToolResult._signal_type`
abbrev pub signal_of : Value → Option Value
signal_of v = if truthy v && truthy (get_member v "_signal_type") then some v else none

abbrev pub internal_error : Reply
internal_error = record {
  text = some "[Ocorreu um erro interno ao processar a resposta]";
  internal_tool_signal = none;
}

abbrev pub run_function :
    {W : Type 0} → FunctionCall → Option (Value → Action W Value) → Action W Value
run_function c none = pure (not_found c.name)
run_function c (some f) = try_catch (f (args_of c)) (λ e. pure (str (call_error c.name e)))

module _ {T W : Type 0} where
  abbrev pub request : String → String → ChatAgent T W → ChatRequest
  request prompt context c = record {
    prompt = prompt;
    context = context;
    tools = prepare_tools (as_agent c);
    history = prepare_history c;
  }

  -- the context is prepared, and the model asked with the history as it is
  unfoldable pub ask : String → Action (State T W) (Option Response)
  ask prompt = do
    context ← prepare_enriched_context
    λ s. in_world (s.0.llm (request prompt context s.0)) s

  -- the result of a call becomes a turn of the history, and the model is asked again
  unfoldable pub continue_with : String → Value → Action (State T W) (Option Response)
  unfolding ask
  continue_with name v = do add_to_history "user" (result_turn name v); ask (result_prompt name v)

  abbrev pub set_task : String → Action (State T W) (Unit {0})
  set_task message s = pure tt (record s.0 { task = message }, s.1)

  -- What is left of a round once its function call is worked on; `again` is the next round.
  unfoldable pub next_round :
      (Option Response → Value → Action (State T W) (Option Ending))
      → String
      → Worked
      → Action (State T W) (Option Ending)
  unfolding continue_with
  next_round again name (delegated text) = pure (some (by_specialist text))
  next_round again name (result v) = do response ← continue_with name v; again response v

  abbrev pub in_registry : {A : Type 0} → Action (AgentRegistry T) A → Action (State T W) A
  in_registry m s = let p = Delegation.on_registry m s.0 in (p.0, (p.1, s.1))

abbrev pub roles_of : {T : Type 0} → Action (AgentRegistry T) (List String)
roles_of r = pure (AgentRegistry.get_available_specialist_roles r) r

module _ {T W : Type 0} (rt : Runtime T W) where
  abbrev pub agent_for : String → Action (AgentRegistry T) (AgentInstance T)
  agent_for role = get_specialist_agent rt.env rt.sdk rt.construct role false

  -- the branch of `delegate_task_to_specialist`, before its error is caught
  unfoldable pub delegate : FunctionCall → Action (State T W) Worked
  delegate c = do
    args ← destructured_args c
    check_arguments (get_member args "specialist_role") (get_member args "task_for_specialist")
    roles ← in_registry roles_of
    role ← chosen_role roles (get_member args "specialist_role")
    agent ← in_registry (agent_for role)
    response ← in_world (rt.execute_task agent (get_member args "task_for_specialist"))
    text ← response_text response
    add_to_history "model" text
    pure (delegated text)

  -- the two branches on the name of the function
  unfoldable pub work : FunctionCall → Action (State T W) Worked
  unfolding delegate
  work c s =
      (if c.name == delegation_name && s.0.specialist_delegation_enabled
          then try_catch (delegate c) (λ e. pure (delegation_error e))
          else in_world (run_function c (find_tool_function (as_agent s.0) c.name)) >>= λ v.
              pure (result v))
        s

  -- the `while` loop, at a response and the last tool's result
  unfoldable pub rounds : ℕ → Option Response → Value → Action (State T W) (Option Ending)
  unfolding work next_round
  rounds zero response last = pure none
  rounds (suc fuel) none last = pure (some (answered none last))
  rounds (suc fuel) (some r) last = elim r.function_call [
    | none ↦ pure (some (answered (some r) last))
    | some c ↦ do
      add_to_history "model" (call_text r c)
      worked ← work c
      next_round (rounds fuel) c.name worked
  ]

  abbrev pub evaluation : String → String → Action (State T W) (Unit {0})
  evaluation message text s =
      (if manages_facts s.0 || manages_summary s.0
          then evaluate_and_manage_memories rt.parse_json rt.clock message text
          else pure tt)
        s

  -- after an answer with a text
  unfoldable pub conclude : String → String → Value → Action (State T W) Reply
  conclude message text last = do
    add_to_history "model" text
    evaluation message text
    pure (record { text = some text; internal_tool_signal = signal_of last })

  unfoldable pub finish : String → Ending → Action (State T W) Reply
  unfolding conclude
  finish message (by_specialist text) =
      pure (record { text = some text; internal_tool_signal = none })
  finish message (answered none last) = pure internal_error
  finish message (answered (some r) last) =
      if has_text r.text
      then conclude message (or_text r.text "") last
      else pure (record { text = r.text; internal_tool_signal = none })

  abbrev pub finished : String → Option Ending → Action (State T W) (Option Reply)
  finished message none = pure none
  finished message (some e) = finish message e >>= λ r. pure (some r)

  -- what is done once the message stands in the history
  unfoldable pub answer_message : ℕ → String → Action (State T W) (Option Reply)
  unfolding rounds finish
  answer_message fuel message = do
    response ← ask message
    ending ← rounds fuel response null
    finished message ending

  -- `processUserMessage`; `none`: the fuel ran out
  unfoldable pub process_user_message : ℕ → String → Action (State T W) (Option Reply)
  unfolding answer_message
  process_user_message fuel message = do
    set_task message
    add_to_history "user" message
    answer_message fuel message

module _ {T W : Type 0} where
  abbrev pub keep_text : Option Response → Action (State T W) (Unit {0})
  keep_text none = pure tt
  keep_text (some r) =
      if has_text r.text then add_to_history "model" (or_text r.text "") else pure tt

  -- `processFunctionResult`
  unfoldable pub process_function_result : String → Value → Action (State T W) (Option Response)
  process_function_result name v = do
    add_to_history "user" (result_turn name v)
    response ← ask (function_prompt name v)
    keep_text response
    pure response
