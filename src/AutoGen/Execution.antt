-- ===== src/AutoGen/Execution.antt =====
-- `executeSubTasks` and `createSpecializedAgent` of lib/auto-gen-orchestrator.js. `sdk` is what
-- the SDK's constructors do, and `execute` the `executeTask` of a specialist.
pub mod Total
use gemini_agent_lib.Prelude.{
  String, ◌≡◌, refl, ap, ◌∙◌, Bool, true, false, Bool-cases, inl, inr, Option, none, some, List, [],
  ◌∷◌, ◌++◌, map, All, join, is_some, or_else, ◌==◌, eq_iff, arith, ◌+++◌, if◌then◌else◌,
}
use gemini_agent_lib.Prelude.Dict.{Dict, get, put, has, get-put, get-put_self}
use gemini_agent_lib.Prelude.Action.{
  Outcome, returned, thrown, Action, pure, throw, try_catch, handled, ◌>>=◌,
}
use gemini_agent_lib.AgentRegistry.{LlmConfig, has_text, new_llm, or_text}
use gemini_agent_lib.Agent.{is_nil}
use gemini_agent_lib.AutoGen.{SubTask, id_of, order_sub_tasks_by_dependencies}
use gemini_agent_lib.AutoGen.Order.{In, order_sub_tasks_by_dependencies-In}

pub record SpecializedAgent : Type 0 where
  pub role : String
  pub objective : String
  pub context : String
  pub task : String
  pub llm : LlmConfig
  pub enable_google_search : Bool

-- the agents made, and the world
abbrev pub State : Type 0 → Type 0
State W = List SpecializedAgent × W

abbrev pub Results : Type 0
Results = Dict (Option String)

abbrev pub specialized : LlmConfig → SubTask → SpecializedAgent
specialized config t = record {
  role = t.agent_role;
  objective = t.agent_objective;
  context = join "" (
      "Você é um agente de IA especialista com o papel de " ∷ t.agent_role ∷ ". Seu objetivo é: "
      ∷ t.agent_objective ∷ "." ∷ []);
  task = t.agent_task_prompt;
  llm = config;
  enable_google_search = t.enable_google_search;
}

abbrev pub made_by : Outcome (Unit {0}) → LlmConfig → SubTask → Option SpecializedAgent
made_by (thrown e) config t = none
made_by (returned u) config t = some (specialized config t)

-- `createSpecializedAgent`; the model's name and mode are those of the configuration, or the
-- defaults
unfoldable pub create_specialized_agent :
    (LlmConfig → Outcome (Unit {0})) → LlmConfig → SubTask → Option SpecializedAgent
create_specialized_agent sdk config t =
    let used : LlmConfig = record config {
      model_name = or_text (some config.model_name) "gemini-2.0-flash-001";
      mode = or_text (some config.mode) "oneshot";
    } in
    made_by (new_llm sdk used) used t

-- what the prompt grows by for the result of a dependency, if it is there and is truthy
abbrev pub dependency_text : String → Option (Option String) → String
dependency_text dependency none = ""
dependency_text dependency (some none) = ""
dependency_text dependency (some (some s)) =
    if has_text (some s)
    then "\n--- Resultado da Tarefa " +++ dependency +++ " ---\n" +++ s +++ "\n"
    else ""

abbrev pub dependency_context : List String → Results → String
dependency_context ds results =
    if is_nil ds
    then ""
    else "\n\n**Resultados de Tarefas Anteriores:**\n"
      +++ join "" (map (λ d. dependency_text d (get results d)) ds)

abbrev pub prompt_for : SubTask → Results → String
prompt_for t results = t.agent_task_prompt +++ dependency_context (or_else t.depends_on []) results

abbrev pub failed_text : String → Option String
failed_text e = some ("Erro na execução da sub-tarefa: " +++ e)

module _ {W : Type 0} (sdk : LlmConfig → Outcome (Unit {0})) (config : LlmConfig)
    (execute : SpecializedAgent → Action W (Option String)) where
  abbrev pub run_agent : SpecializedAgent → Action W (Option String)
  run_agent a = try_catch (execute a) (λ e. pure (failed_text e))

  -- one turn of the loop
  abbrev pub run_sub_task :
      SubTask → Results → Option SpecializedAgent → Action (State W) (Option String)
  run_sub_task t results none s = pure (some "Erro ao criar agente especialista.") s
  run_sub_task t results (some a) s =
      let b : SpecializedAgent = record a { task = prompt_for t results } in
      let p = run_agent b s.1 in (p.0, (s.0 ++ (b ∷ []), p.1))

  unfoldable pub run_sub_tasks : List (Option SubTask) → Results → Action (State W) Results
  unfolding create_specialized_agent
  run_sub_tasks [] results = pure results
  run_sub_tasks (none ∷ ts) results = throw "Cannot read properties of undefined (reading 'id')"
  run_sub_tasks (some t ∷ ts) results = do
    answer ← run_sub_task t results (create_specialized_agent sdk config t)
    run_sub_tasks ts (put results (id_of t) answer)

  abbrev pub run_ordered : Option (List (Option SubTask)) → Action (State W) (Option Results)
  run_ordered none = pure none
  run_ordered (some ts) = run_sub_tasks ts [] >>= λ results. pure (some results)

  -- `executeSubTasks`; `none`: the fuel of the order ran out
  unfoldable pub execute_sub_tasks : List SubTask → Action (State W) (Option Results)
  unfolding run_sub_tasks
  execute_sub_tasks ts = run_ordered (order_sub_tasks_by_dependencies ts)
