-- ===== src/Agent/Task.antt =====
-- `Agent.executeTask`: the loop of function calls. A round asks the model again with a longer
-- prompt; the loop is on fuel, and `none` means that it ran out.
use gemini_agent_lib.Prelude.{ℕ, zero, suc, String, Option, none, some, ◌==◌, ◌+++◌, if◌then◌else◌}
use gemini_agent_lib.Prelude.Action.{Action, pure, throw, try_catch, ◌>>=◌}
use gemini_agent_lib.Value.{Value, undefined, null, str, obj, end, json_text}
use gemini_agent_lib.Agent.{
  FunctionCall, Response, Request, Agent, prepare_tools, find_tool_function,
}

abbrev pub call_error : String → String → String
call_error name message = "Erro ao executar a função '" +++ name +++ "': " +++ message

abbrev pub failed_call : String → String → Value
failed_call name message = str (call_error name message)

abbrev pub result_text : String → Value → String
result_text name result =
    "\n\n**Function Call Result:**\nFunction '" +++ name +++ "' result: " +++ json_text result

abbrev pub args_of : FunctionCall → Value
args_of c = elim c.args [ none ↦ obj end | some v ↦ v ]

abbrev read_total : String
read_total = " (reading 'totalResults')"

abbrev pub failed_task : String → Option (Option String)
failed_task e = some (some ("Ocorreu um erro ao executar a tarefa: " +++ e))

abbrev pub final_text : Option (Option Response) → Option (Option String)
final_text none = none
final_text (some none) = some (some "Nenhuma resposta do LLM.")
final_text (some (some r)) = some r.text

module _ {W : Type 0} where
  -- The log line on an empty search reads `functionResult.totalResults`, which throws on
  -- `undefined` and `null`.
  abbrev pub check_search : String → Value → Action W Value
  check_search name undefined =
      if name == "vertex_ai_search"
      then throw ("Cannot read properties of undefined" +++ read_total)
      else pure undefined
  check_search name null =
      if name == "vertex_ai_search"
      then throw ("Cannot read properties of null" +++ read_total)
      else pure null
  check_search name v = pure v

  -- what the prompt grows by for a call of a tool that is there
  unfoldable pub run_tool : FunctionCall → (Value → Action W Value) → Action W String
  run_tool c f = do
    result ← try_catch (f (args_of c) >>= check_search c.name) (λ e. pure (failed_call c.name e))
    pure (result_text c.name result)

  -- what the prompt grows by for a call
  unfoldable pub answer_call : FunctionCall → Option (Value → Action W Value) → Action W String
  unfolding run_tool
  answer_call c none = pure (
      "\n\n**Function Call Error:**\nError: Função '" +++ c.name
      +++ "' não encontrada nas tools do agente.")
  answer_call c (some f) = run_tool c f

  abbrev pub request : Agent W → String → Request
  request a prompt = record { prompt = prompt; tools = prepare_tools a; context = a.context }

  -- the `while` loop, at a response
  unfoldable pub rounds :
      ℕ → Agent W → String → Option Response → Action W (Option (Option Response))
  unfolding answer_call
  rounds zero a prompt response = pure none
  rounds (suc fuel) a prompt none = pure (some none)
  rounds (suc fuel) a prompt (some r) = elim r.function_call [
    | none ↦ pure (some (some r))
    | some c ↦ do
      added ← answer_call c (find_tool_function a c.name)
      response ← a.llm (request a (prompt +++ added))
      rounds fuel a (prompt +++ added) response
  ]

  abbrev pub first_prompt : Agent W → String
  first_prompt a = "**System Instructions:**\n" +++ a.context +++ "\n\n**User Task:**\n" +++ a.task

  -- the first request and the rounds after it
  abbrev pub converse : ℕ → Agent W → Action W (Option (Option Response))
  converse fuel a = do
    response ← a.llm (request a (first_prompt a))
    rounds fuel a (first_prompt a) response

  -- `none`: the fuel ran out; `some none`: the answer has no text
  unfoldable pub execute_task : ℕ → Agent W → Action W (Option (Option String))
  unfolding rounds
  execute_task fuel a =
      try_catch (converse fuel a >>= λ last. pure (final_text last)) (λ e. pure (failed_task e))
