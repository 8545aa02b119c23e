-- ===== src/Orchestrator/Tests.antt =====
-- The theorems on the orchestrators at two agents. The world counts the executions.
use gemini_agent_lib.Prelude.{
  ℕ, zero, suc, String, ◌≡◌, refl, false, Option, none, some, List, [], ◌∷◌, ◌+++◌, All,
}
use gemini_agent_lib.Prelude.Action.{returned, thrown, Action}
use gemini_agent_lib.Agent.{Response}
use gemini_agent_lib.Orchestrator.Worker.{Worker}
use gemini_agent_lib.Orchestrator.Sequential.{SequentialAgentChain, new, run, chain_error}
use gemini_agent_lib.Orchestrator.Sequential.Laws.{fed, feed, run-Feeds, run-failed}
use gemini_agent_lib.Orchestrator.Hierarchical.{HierarchicalAgentOrchestrator, orchestrate}
use gemini_agent_lib.Orchestrator.Hierarchical.Laws.{Formats, orchestrate_total}
use gemini_agent_lib.Orchestrator.Hierarchical.Prompts.{default_task}

abbrev worker_of : String → (String → Action ℕ String) → Worker ℕ
worker_of role execute = record {
  role = role;
  objective = "ajudar";
  enable_google_search = false;
  task_formatter = none;
  execute_task = execute;
}

abbrev writer : Worker ℕ
writer = worker_of "redator" (λ task w. (returned (task +++ "!"), suc w))

abbrev offline : Worker ℕ
offline = worker_of "revisor" (λ task w. (thrown "sem rede", suc w))

abbrev chain_of : List (Worker ℕ) → SequentialAgentChain ℕ
chain_of agents = record { agents = agents }

run-Feeds_example : run (chain_of (writer ∷ writer ∷ [])) "oi" 0 ≡ (returned "oi!!", 2)
unfolding new
run-Feeds_example =
    run-Feeds (writer ∷ writer ∷ []) (chain_of (writer ∷ writer ∷ [])) "oi" "oi!!" 0 2 refl (
      feed writer (writer ∷ []) "oi" "oi" "oi!" "oi!!" 0 1 2 refl refl
        (feed writer [] "oi!" "oi!" "oi!!" "oi!!" 1 2 2 refl refl (fed "oi!!" 2)))

run-failed_example :
    run (chain_of (writer ∷ offline ∷ writer ∷ [])) "oi" 0
    ≡ (returned (chain_error 2 "revisor" "sem rede"), 2)
unfolding new
run-failed_example =
    run-failed (writer ∷ []) offline (writer ∷ []) (chain_of (writer ∷ offline ∷ writer ∷ [])) "oi"
      "oi!" "oi!" "sem rede" 0 1 2 refl
      (feed writer [] "oi" "oi" "oi!" "oi!" 0 1 1 refl refl (fed "oi!" 1)) refl refl

-- The model names both experts at first, and then cannot be reached.
abbrev ask : String → Action ℕ (Option Response)
ask prompt zero =
    (returned (some (record { text = some "redator\nrevisor"; function_call = none })), 1)
ask prompt (suc n) = (thrown "sem rede", suc n)

abbrev office : HierarchicalAgentOrchestrator ℕ
office = record { agents = writer ∷ offline ∷ []; ask = ask }

abbrev each_Formats : All (Formats "um poema") (writer ∷ offline ∷ [])
each_Formats = (
  (default_task "redator" "ajudar" "um poema", refl),
  ((default_task "revisor" "ajudar" "um poema", refl), tt),
)

orchestrate_total_example :
    (answer : Option String) × ((orchestrate office "um poema" 0).0 ≡ returned answer)
orchestrate_total_example = orchestrate_total office "um poema" 0 each_Formats
