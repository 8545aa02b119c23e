-- ===== src/AutoGen/Orchestration/Tests.antt =====
-- The orchestration of lib/auto-gen-orchestrator.js with an agent that answers at once, and a plan
-- that is read from a text.
use gemini_agent_lib.Prelude.{
  ℕ, suc, String, ◌≡◌, refl, false, Option, none, some, [], ◌∷◌, trim, is_space,
}
use gemini_agent_lib.Prelude.Action.{Outcome, returned, thrown, Action}
use gemini_agent_lib.Value.{Value, str, obj, arr, Fields, end, field, nil, cons}
use gemini_agent_lib.Agent.{Llm}
use gemini_agent_lib.AgentRegistry.{new_llm}
use gemini_agent_lib.ThinkingAgent
use gemini_agent_lib.ThinkingAgent.{ThinkingAgent, think}
use gemini_agent_lib.AutoGen.Planning.{plan_of_text}
use gemini_agent_lib.AutoGen.Execution.{SpecializedAgent}
use gemini_agent_lib.AutoGen.Orchestration.{
  Auto, Settings, config_of, orchestrator_options, new, orchestrate_task, no_plan_answer,
}
use gemini_agent_lib.AutoGen.Orchestration.Laws.{
  Thinks, orchestrate_task_total, orchestrate_task-json,
}

-- A field that one sub-task lacks is taken from the next:
-- the first sub-task gets the role and the dependency of the second one.
misread_plan :
    plan_of_text
      "```json\n{ \"subTasks\": [\n{\"id\": \"a\", \"taskDescription\": \"veja\"},\n{\"id\": \"b\", \"agentRole\": \"leitor\", \"dependsOn\": [\"a\"]}\n] }\n```"
    ≡ record {
      id = some "a";
      task_description = "veja";
      agent_role = "leitor";
      agent_objective = "Executar a tarefa designada";
      agent_task_prompt = "Executar a tarefa conforme necessário";
      enable_google_search = false;
      depends_on = some ("a" ∷ []);
    }
      ∷ record {
        id = some "b";
        task_description = "Tarefa 2";
        agent_role = "Agente Especialista";
        agent_objective = "Executar a tarefa designada";
        agent_task_prompt = "Executar a tarefa conforme necessário";
        enable_google_search = false;
        depends_on = some [];
      }
      ∷ []
unfolding plan_of_text trim is_space
misread_plan = refl

abbrev settings : Settings
settings = record {
  api_key = none;
  project_id = some "projeto";
  location = none;
  credentials_path = some "chave.json";
  model_name = none;
  mode = none;
}

abbrev answering : String → Llm ℕ
answering text request w =
    (returned (some (record { text = some text; function_call = none })), suc w)

abbrev thinker : String → ThinkingAgent ℕ
thinker text = ThinkingAgent.thinking_agent (orchestrator_options settings) (answering text)

abbrev orchestrator : String → Auto ℕ
orchestrator text =
    (record { config = config_of settings; orchestrator_agent = thinker text; agents = [] }, 0)

-- The constructor makes it.
made_orchestrator :
    new (λ c. returned tt) (λ vertex c. answering "texto") settings
    ≡ returned (orchestrator "texto").0
unfolding new ThinkingAgent.new new_llm
made_orchestrator = refl

abbrev failing : SpecializedAgent → Action ℕ (Option String)
failing a w = (thrown "sem rede", suc w)

abbrev no_json : String → Outcome Value
no_json s = thrown "Unexpected token"

thinker-Thinks : (text : String) → Thinks 2 (thinker text)
unfolding think
thinker-Thinks text task w = (some text, refl)

orchestrate_task_total_example :
    (answer : Value) × ((orchestrate_task
        (λ c. returned tt)
        failing
        2
        no_json
        "tarefa"
        (orchestrator "Olá")).0
      ≡ returned (some answer))
orchestrate_task_total_example =
    orchestrate_task_total 2 (λ c. returned tt) failing no_json "tarefa" (orchestrator "Olá")
      (thinker-Thinks "Olá")

abbrev bare_plan : Fields
bare_plan = field "subTasks" (arr (cons (obj (field "id" (str "a") end)) nil)) end

abbrev to_plan : String → Outcome Value
to_plan s = returned (obj bare_plan)

abbrev bare_text : String
bare_text = "{\"subTasks\": [{\"id\": \"a\"}]}"

orchestrate_task-json_example :
    let p =
      orchestrate_task (λ c. returned tt) failing 2 to_plan "tarefa" (orchestrator bare_text) in
    (p.0 ≡ returned (some no_plan_answer)) × (p.1.0.agents ≡ [])
unfolding think
orchestrate_task-json_example =
    orchestrate_task-json 2 (λ c. returned tt) failing to_plan "tarefa" (orchestrator bare_text)
      bare_text bare_plan refl refl refl refl refl
