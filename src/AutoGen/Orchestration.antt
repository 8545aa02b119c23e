-- ===== src/AutoGen/Orchestration.antt =====
-- lib/auto-gen-orchestrator.js: the constructor, the plan by a ThinkingAgent, and the final answer.
-- `sdk` is what the SDK's constructors do, `execute` the `executeTask` of a specialist, and
-- `parse_json` is `JSON.parse`. `none` is an answer for which the fuel ran out.
pub mod Laws
mod Tests
use Prim.Native.String
use gemini_agent_lib.Prelude.{
  ℕ, suc, ◌+◌, String, code, Bool, true, false, not, ◌||◌, Option, none, some, List, [], ◌∷◌, map,
  join, or_else, ltb, leb, trim, is_space, ◌+++◌, if◌then◌else◌,
}
use gemini_agent_lib.Prelude.Dict.{get}
use gemini_agent_lib.Prelude.Action.{
  Outcome, returned, thrown, Action, pure, throw, try_catch, ◌>>=◌,
}
use gemini_agent_lib.Prelude.Pattern.{start, finish, both, many1, among, test}
use gemini_agent_lib.Value.{
  Value, undefined, bool, str, arr, obj, end, field, Items, nil, cons, truthy,
}
use gemini_agent_lib.Value.Pretty.{pretty_text}
use gemini_agent_lib.Agent.{Llm}
use gemini_agent_lib.Agent
use gemini_agent_lib.AgentRegistry.{LlmConfig, has_text, or_text}
use gemini_agent_lib.ThinkingAgent
use gemini_agent_lib.ThinkingAgent.{
  ThinkingAgent, think, or_value, final_answer, process_thinking_response,
}
use gemini_agent_lib.AutoGen.{SubTask, id_of, order_sub_tasks_by_dependencies}
use gemini_agent_lib.AutoGen.Execution.{SpecializedAgent, State, Results, execute_sub_tasks}
use gemini_agent_lib.AutoGen.Planning.{plan_of_answer}
use gemini_agent_lib.AutoGen.Prompts.{planning_prompt, answer_prompt}

pub record AutoGenOrchestrator (W : Type 0) : Type 0 where
  pub config : LlmConfig
  pub orchestrator_agent : ThinkingAgent W
  pub agents : List SpecializedAgent

-- the argument of the constructor; a member that is left out is `none`
pub record Settings : Type 0 where
  pub api_key : Option String
  pub project_id : Option String
  pub location : Option String
  pub credentials_path : Option String
  pub model_name : Option String
  pub mode : Option String

abbrev pub config_of : Settings → LlmConfig
config_of s = record {
  project_id = s.project_id;
  credentials_path = s.credentials_path;
  api_key = s.api_key;
  location = or_else s.location "us-central1";
  model_name = or_else s.model_name "gemini-2.0-flash-001";
  mode = or_else s.mode "oneshot";
  generation_config = none;
}

abbrev pub orchestrator_options : {W : Type 0} → Settings → ThinkingAgent.Options W
orchestrator_options s = record {
  role = "Orquestrador Autônomo";
  objective =
      "Orquestrar tarefas complexas dividindo-as em sub-tarefas e delegando-as a agentes especializados";
  context =
      "Você é um orquestrador autônomo de agentes de IA. Sua função é analisar tarefas complexas, dividi-las em sub-tarefas menores, e coordenar agentes especializados para executá-las.";
  task = "";
  tools = [];
  enable_google_search = false;
  api_key = s.api_key;
  use_vertex_ai = true;
  vertex_config = record {
    credentials_path = s.credentials_path;
    project_id = s.project_id;
    location = some (or_else s.location "us-central1");
  };
}

abbrev pub value_of : Option String → Value
value_of none = undefined
value_of (some s) = str s

abbrev pub text_items : List String → Items
text_items [] = nil
text_items (s ∷ ss) = cons (str s) (text_items ss)

abbrev pub depends_value : Option (List String) → Value
depends_value none = undefined
depends_value (some ds) = arr (text_items ds)

abbrev pub sub_task_value : SubTask → Value
sub_task_value t = obj (
    field "id" (value_of t.id) (
      field "taskDescription" (str t.task_description) (
        field "agentRole" (str t.agent_role) (
          field "agentObjective" (str t.agent_objective) (
            field "agentTaskPrompt" (str t.agent_task_prompt) (
              field "enableGoogleSearch" (bool t.enable_google_search)
                (field "dependsOn" (depends_value t.depends_on) end)))))))

abbrev pub sub_task_items : List SubTask → Items
sub_task_items [] = nil
sub_task_items (t ∷ ts) = cons (sub_task_value t) (sub_task_items ts)

-- `JSON.stringify(plan, null, 2)`
unfoldable pub plan_json : List SubTask → String
unfolding pretty_text
plan_json ts = pretty_text (obj (field "subTasks" (arr (sub_task_items ts)) end))

abbrev pub dependencies_line : List String → String
dependencies_line [] = ""
dependencies_line (d ∷ ds) = "**Dependências:** " +++ join ", " (d ∷ ds) +++ "\n"

abbrev pub result_of : Results → String → String
result_of results id = or_text (or_else (get results id) none) "Resultado não disponível"

abbrev pub result_entry : Results → SubTask → String
result_entry results t =
    "\n**Sub-Tarefa "
    +++ id_of t
    +++ ":** "
    +++ t.task_description
    +++ "\n**Resultado:** "
    +++ result_of results (id_of t)
    +++ "\n"
    +++ dependencies_line (or_else t.depends_on [])

abbrev pub after_entry : String → Outcome String → Outcome String
after_entry s (thrown e) = thrown e
after_entry s (returned rest) = returned (s +++ rest)

-- the loop for `combinedResultsText`
unfoldable pub combined_results : Results → List (Option SubTask) → Outcome String
combined_results results [] = returned ""
combined_results results (none ∷ ts) = thrown "Cannot read properties of undefined (reading 'id')"
combined_results results (some t ∷ ts) =
    after_entry (result_entry results t) (combined_results results ts)

-- `s.length`, in UTF-16 units
abbrev pub utf16_length : String → ℕ
utf16_length String.[] = 0
utf16_length (String.◌∷◌ c s) = (if leb 0x10000 (code c) then 2 else 1) + utf16_length s

-- `/^[\*\s]+$/`
unfoldable pub only_marks : String → Bool
unfolding test is_space
only_marks = test (both start (both (many1 (λ c. among "*" c || is_space c)) finish))

abbrev pub too_short : String → Bool
too_short s = ltb (utf16_length (trim s)) 10 || only_marks (trim s)

abbrev pub no_plan_answer : Value
no_plan_answer = str "Não foi possível gerar um plano válido para a tarefa."

abbrev pub with_prompt : {W : Type 0} → ThinkingAgent W → String → ThinkingAgent W
with_prompt a task = record a { agent = record a.agent { task = task } }

-- the object and the world
abbrev pub Auto : Type 0 → Type 0
Auto W = AutoGenOrchestrator W × W

module _ {W : Type 0} where
  abbrev pub made : Settings → Outcome (ThinkingAgent W) → Outcome (AutoGenOrchestrator W)
  made s (thrown e) = thrown e
  made s (returned a) =
      returned (record { config = config_of s; orchestrator_agent = a; agents = [] })

  -- the constructor
  unfoldable pub new :
      (LlmConfig → Outcome (Unit {0}))
      → (Bool → LlmConfig → Llm W)
      → Settings
      → Outcome (AutoGenOrchestrator W)
  new sdk client s =
      if not (has_text s.project_id)
      then thrown "Project ID do Google Cloud não fornecido para AutoGenOrchestrator."
      else if not (has_text s.credentials_path)
      then thrown
          "Caminho para as credenciais do Google Cloud não fornecido para AutoGenOrchestrator."
      else made s (ThinkingAgent.new sdk client (orchestrator_options s))

  -- `orchestratorAgent.task = prompt`, and `executeTask`
  unfoldable pub ask : ℕ → String → Action (Auto W) (Option (Option String))
  unfolding think
  ask fuel prompt s =
      let a = with_prompt s.0.orchestrator_agent prompt in
      let p = think fuel a s.1 in (p.0, (record s.0 { orchestrator_agent = a }, p.1))

  -- an action on the specialists and the world
  abbrev pub on_agents : {A : Type 0} → Action (State W) A → Action (Auto W) A
  on_agents m s = let p = m (s.0.agents, s.1) in (p.0, (record s.0 { agents = p.1.0 }, p.1.1))

  abbrev pub read_plan :
      (String → Outcome Value) → Option (Option String) → Action (Auto W) (Option (List SubTask))
  read_plan parse_json none = pure none
  read_plan parse_json (some raw) =
      pure (some (plan_of_answer (final_answer (process_thinking_response parse_json raw))))

  unfoldable pub generate_task_plan :
      ℕ → (String → Outcome Value) → String → Action (Auto W) (Option (List SubTask))
  unfolding ask
  generate_task_plan fuel parse_json user_task =
      try_catch (ask fuel (planning_prompt user_task) >>= read_plan parse_json)
        (λ e. pure (some []))

  -- A value that is no text has no `trim`.
  abbrev pub chosen : Value → Option String → Action (Auto W) (Option Value)
  chosen (str s) raw = pure (some (if too_short s then value_of raw else str s))
  chosen v raw =
      if truthy v
      then throw "finalResponseText.trim is not a function"
      else pure (some (value_of raw))

  abbrev pub read_answer :
      (String → Outcome Value) → Option (Option String) → Action (Auto W) (Option Value)
  read_answer parse_json none = pure none
  read_answer parse_json (some raw) =
      chosen (or_value (final_answer (process_thinking_response parse_json raw)) (value_of raw)) raw

  abbrev pub answer_with :
      ℕ
      → (String → Outcome Value)
      → String
      → List SubTask
      → Outcome String
      → Action (Auto W) (Option Value)
  answer_with fuel parse_json user_task plan (thrown e) = throw e
  answer_with fuel parse_json user_task plan (returned text) =
      try_catch
        (ask fuel (answer_prompt user_task (plan_json plan) text) >>= read_answer parse_json)
        (λ e. pure (some (str "Erro ao gerar resposta final orquestrada.")))

  abbrev pub answer_ordered :
      ℕ
      → (String → Outcome Value)
      → String
      → List SubTask
      → Results
      → Option (List (Option SubTask))
      → Action (Auto W) (Option Value)
  answer_ordered fuel parse_json user_task plan results none = pure none
  answer_ordered fuel parse_json user_task plan results (some ts) =
      answer_with fuel parse_json user_task plan (combined_results results ts)

  unfoldable pub generate_final_response :
      ℕ
      → (String → Outcome Value)
      → String
      → List SubTask
      → Results
      → Action (Auto W) (Option Value)
  unfolding ask combined_results
  generate_final_response fuel parse_json user_task plan results =
      answer_ordered fuel parse_json user_task plan results (order_sub_tasks_by_dependencies plan)

  module _ (sdk : LlmConfig → Outcome (Unit {0}))
      (execute : SpecializedAgent → Action W (Option String)) where
    abbrev pub answer_results :
        ℕ
        → (String → Outcome Value)
        → String
        → List SubTask
        → Option Results
        → Action (Auto W) (Option Value)
    answer_results fuel parse_json user_task plan none = pure none
    answer_results fuel parse_json user_task plan (some results) =
        generate_final_response fuel parse_json user_task plan results

    -- what follows the plan
    unfoldable pub carry_out :
        ℕ
        → (String → Outcome Value)
        → String
        → Option (List SubTask)
        → Action (Auto W) (Option Value)
    unfolding generate_final_response
    carry_out fuel parse_json user_task none s = pure none s
    carry_out fuel parse_json user_task (some []) s = pure (some no_plan_answer) s
    carry_out fuel parse_json user_task (some (t ∷ ts)) s =
        (on_agents (execute_sub_tasks sdk s.0.config execute (t ∷ ts))
            >>= answer_results fuel parse_json user_task (t ∷ ts))
          s

    unfoldable pub orchestrate_task :
        ℕ → (String → Outcome Value) → String → Action (Auto W) (Option Value)
    unfolding generate_task_plan carry_out
    orchestrate_task fuel parse_json user_task =
        generate_task_plan fuel parse_json user_task >>= carry_out fuel parse_json user_task
