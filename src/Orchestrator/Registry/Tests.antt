-- ===== src/Orchestrator/Registry/Tests.antt =====
-- The theorems on lib/orchestrator-registry.js and its tools at a chain of two writers.
use gemini_agent_lib.Prelude.{ℕ, suc, ◌≡◌, refl, Bool, false, none, some, List, [], ◌∷◌, ◌+++◌}
use gemini_agent_lib.Prelude.Dict.{get}
use gemini_agent_lib.Prelude.Action.{returned, thrown, pure}
use gemini_agent_lib.Value.{Fields, str, field, end}
use gemini_agent_lib.Orchestrator.Worker.{Worker}
use gemini_agent_lib.Orchestrator.Sequential
use gemini_agent_lib.Orchestrator.Sequential.{SequentialAgentChain}
use gemini_agent_lib.Orchestrator.Sequential.Laws.{Feeds, fed, feed}
use gemini_agent_lib.Orchestrator.Registry.{
  OrchestratorConfig, OrchestratorRegistry, Classes, register_orchestrator, get_orchestrator,
  tool_function,
}
use gemini_agent_lib.Orchestrator.Registry.Laws.{tool_function-Feeds}
use gemini_agent_lib.Orchestrator.Registry.Tool.{Told, tool_function-Told}

abbrev writer : Worker ℕ
writer = record {
  role = "redator";
  objective = "escrever";
  enable_google_search = false;
  task_formatter = none;
  execute_task = λ task w. (returned (task +++ "!"), suc w);
}

abbrev writers : List (Worker ℕ)
writers = writer ∷ writer ∷ []

abbrev classes : Classes Bool Bool ℕ
classes = record {
  new_llm = λ t. thrown "sem chave";
  new_auto_gen = λ t. returned t;
  orchestrate_task = λ g task. pure none;
}

abbrev config : OrchestratorConfig Bool ℕ
config = record { type = some "SequentialAgentChain"; agents = some writers; llm_config = none }

abbrev empty : OrchestratorRegistry Bool Bool ℕ
empty = record { configs = []; instances = [] }

abbrev call : Fields
call = field "texto" (str "oi") end

abbrev both : Feeds writers "oi" 0 "oi!!" 2
both =
    feed writer (writer ∷ []) "oi" "oi" "oi!" "oi!!" 0 1 2 refl refl
      (feed writer [] "oi!" "oi!" "oi!!" "oi!!" 1 2 2 refl refl (fed "oi!!" 2))

tool_function-Feeds_example :
    tool_function classes
      (register_orchestrator "revista" (some config) empty).1
      "revista"
      ("texto" ∷ [])
      call
      0
    ≡ (returned (some "oi!!"), 2)
tool_function-Feeds_example =
    tool_function-Feeds classes empty "revista" config writers (record { agents = writers })
      ("texto" ∷ []) call "oi" "oi!!" 0 2 refl refl (unfold Sequential.new in refl) refl both

tool_function-Told_example :
    Told classes empty "revista"
      ("texto" ∷ [])
      call
      0
      (tool_function classes empty "revista" ("texto" ∷ []) call 0)
tool_function-Told_example = tool_function-Told classes empty "revista" ("texto" ∷ []) call 0

-- a name that is not registered
unknown_name : tool_function classes empty "revista" ("texto" ∷ []) call 0 ≡ (
  returned (
      some
        "Erro ao executar orquestrador revista: [OrchestratorRegistry] Orquestrador com nome 'revista' não encontrado."),
  0,
)
unfolding tool_function get_orchestrator get
unknown_name = refl
