-- ===== src/Orchestrator/Sequential/Laws.antt =====
-- A chain runs its agents in order, until one fails.
use gemini_agent_lib.Prelude.{
  ℕ, suc, ◌+◌, String, ◌≡◌, refl, ap, ◌∙◌, List, [], ◌∷◌, ◌++◌, length, arith,
}
use gemini_agent_lib.Prelude.Action.{Outcome, returned, thrown}
use gemini_agent_lib.Orchestrator.Worker.{Worker, assign}
use gemini_agent_lib.Orchestrator.Sequential.{
  SequentialAgentChain, chain_error, new, after_step, with_task, run_from, run,
}

module _ {W : Type 0} where
  -- The agents of a list turn `input` in world `w` into `output` in `w'`, each of them returning.
  pub data Feeds : List (Worker W) → String → W → String → W → Type 0 where
    fed : (input : String) (w : W) → Feeds [] input w input w
    feed :
        (a : Worker W) (rest : List (Worker W)) (input task output last : String) (w w' w'' : W)
        → assign a input input ≡ returned task
        → a.execute_task task w ≡ (returned output, w')
        → Feeds rest output w' last w''
        → Feeds (a ∷ rest) input w last w''

  run_from-Feeds :
      {agents : List (Worker W)} {input output : String} {w w' : W} (i : ℕ)
      → Feeds agents input w output w'
      → run_from i agents input w ≡ (returned output, w')
  unfolding run_from
  run_from-Feeds i (fed input w) = refl
  run_from-Feeds i (feed a rest input task output last w w' w'' t e f) =
      rw (t, with_task, e, after_step) (run_from-Feeds (suc i) f)

  numbered :
      (role message : String) (w : W) (m n : ℕ)
      → m ≡ n
      → ◌≡◌ {A = Outcome String × W}
          (returned (chain_error m role message), w)
          (returned (chain_error n role message), w)
  numbered role message w m n e = ap (λ k. (returned (chain_error k role message), w)) e

  agents-new :
      (agents : List (Worker W)) (c : SequentialAgentChain W)
      → new agents ≡ returned c
      → c.agents ≡ agents
  unfolding new
  agents-new [] c h = cc
  agents-new (a ∷ rest) c h = ground arith

  run_from-failed :
      {agents : List (Worker W)} {input output : String} {w w' : W} (i : ℕ) (a : Worker W)
      (rest : List (Worker W)) (task message : String) (w'' : W)
      → Feeds agents input w output w'
      → assign a output output ≡ returned task
      → a.execute_task task w' ≡ (thrown message, w'')
      → run_from i (agents ++ a ∷ rest) input w
        ≡ (returned (chain_error (suc (i + length agents)) a.role message), w'')
  unfolding run_from
  run_from-failed i a rest task message w'' (fed input w) t e =
      rw (t, with_task, e, after_step)
        (numbered a.role message w'' (suc i) (suc (i + 0)) (omega arith))
  run_from-failed i a rest task message w'' (feed b bs input task' output last w w' w1 t' e' f) t
        e =
      rw (t', with_task, e', after_step)
        (run_from-failed (suc i) a rest task message w'' f t e
          ∙ numbered a.role message w'' (suc (suc i + length bs)) (suc (i + suc (length bs)))
              (omega arith))

  -- Where every agent returns, the chain returns what the last one did, in the world it left.
  pub run-Feeds :
      (agents : List (Worker W)) (c : SequentialAgentChain W) (input output : String) (w w' : W)
      → new agents ≡ returned c
      → Feeds agents input w output w'
      → run c input w ≡ (returned output, w')
  unfolding run
  run-Feeds agents c input output w w' h f = rw (agents-new agents c h) (run_from-Feeds 0 f)

  -- Where the agents before one return and that one throws, the chain returns a text with its
  -- number, counted from 1, its role and its message; no agent after it runs.
  pub run-failed :
      (agents : List (Worker W)) (a : Worker W) (rest : List (Worker W))
      (c : SequentialAgentChain W) (input output task message : String) (w w' w'' : W)
      → new (agents ++ a ∷ rest) ≡ returned c
      → Feeds agents input w output w'
      → assign a output output ≡ returned task
      → a.execute_task task w' ≡ (thrown message, w'')
      → run c input w ≡ (returned (chain_error (length agents + 1) a.role message), w'')
  unfolding run
  run-failed agents a rest c input output task message w w' w'' h f t e =
      rw (agents-new (agents ++ a ∷ rest) c h) (
        run_from-failed 0 a rest task message w'' f t e
        ∙ numbered a.role message w'' (suc (0 + length agents)) (length agents + 1) (omega arith))
