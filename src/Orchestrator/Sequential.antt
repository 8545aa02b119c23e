-- ===== src/Orchestrator/Sequential.antt =====
-- lib/sequential-agent-chain.js: each agent's output is the next agent's input.
pub mod Laws
use gemini_agent_lib.Prelude.{ℕ, suc, ◌+◌, String, List, [], ◌∷◌, ◌+++◌}
use gemini_agent_lib.Prelude.Action.{Outcome, returned, thrown, Action, pure, throw}
use gemini_agent_lib.Value.{decimal}
use gemini_agent_lib.Orchestrator.Worker.{Worker, assign, with_task}

pub record SequentialAgentChain (W : Type 0) : Type 0 where
  pub agents : List (Worker W)

-- the text that a failing agent ends the chain with; `number` counts the agents from 1
unfoldable pub chain_error : ℕ → String → String → String
chain_error number role message =
    "Erro na cadeia de agentes no Agente "
    +++ decimal number
    +++ " ("
    +++ role
    +++ "): "
    +++ message

module _ {W : Type 0} where
  -- the constructor; what is no array is as the empty one
  unfoldable pub new : List (Worker W) → Outcome (SequentialAgentChain W)
  new [] = thrown "SequentialAgentChain precisa de um array de agentes não vazio."
  new (a ∷ rest) = returned (record { agents = a ∷ rest })

  -- how a step goes on: an error of the agent ends the chain with a text
  abbrev pub after_step :
      ℕ → Worker W → (String → Action W String) → Outcome String × W → Outcome String × W
  after_step i a next (returned output, w) = next output w
  after_step i a next (thrown e, w) = (returned (chain_error (suc i) a.role e), w)

  -- the loop, at the agent of index `i`
  unfoldable pub run_from : ℕ → List (Worker W) → String → Action W String
  run_from i [] input = pure input
  run_from i (a ∷ rest) input =
      with_task (assign a input input)
        λ task w. after_step i a (run_from (suc i) rest) (a.execute_task task w)

  unfoldable pub run : SequentialAgentChain W → String → Action W String
  run c input = run_from 0 c.agents input
