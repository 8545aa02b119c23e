-- ===== src/Orchestrator/Registry/Laws.antt =====
-- What a tool of an orchestrator gives.
use gemini_agent_lib.Prelude.{String, ◌≡◌, refl, false, some, List}
use gemini_agent_lib.Prelude.Dict.{get-put_self, get-remove_self}
use gemini_agent_lib.Prelude.Action.{returned}
use gemini_agent_lib.Value.{Fields, str, member, to_text}
use gemini_agent_lib.Orchestrator.Worker.{Worker}
use gemini_agent_lib.Orchestrator.Sequential
use gemini_agent_lib.Orchestrator.Sequential.{SequentialAgentChain, run}
use gemini_agent_lib.Orchestrator.Sequential.Laws.{Feeds, run-Feeds}
use gemini_agent_lib.Orchestrator.Registry.{
  OrchestratorConfig, OrchestratorRegistry, Classes, lacks_type, register_orchestrator, instantiate,
  get_orchestrator, tool_function, input_key,
}

module _ {T G W : Type 0} (classes : Classes T G W) where
  -- Where an accepted configuration is registered for a name, what `getOrchestrator` gives for it
  -- next is made from that configuration, whatever was registered or made before.
  pub register-get_orchestrator :
      (r : OrchestratorRegistry T G W) (name : String) (c : OrchestratorConfig T W)
      → lacks_type (some c) ≡ false
      → get_orchestrator classes (register_orchestrator name (some c) r).1 name
        ≡ instantiate classes name c
  unfolding register_orchestrator get_orchestrator
  register-get_orchestrator r name c typed =
      rw (typed, get-remove_self r.instances name, get-put_self r.configs name c) refl

  -- Once a chain of agents is registered for a name, and where each of them returns in turn on the
  -- text that the call gives for the first property of the tool's schema, the tool returns what
  -- the last agent did.
  pub tool_function-Feeds :
      (r : OrchestratorRegistry T G W) (name : String) (c : OrchestratorConfig T W)
      (agents : List (Worker W)) (chain : SequentialAgentChain W) (properties : List String)
      (args : Fields) (input output : String) (w w' : W)
      → c.type ≡ some "SequentialAgentChain"
      → c.agents ≡ some agents
      → Sequential.new agents ≡ returned chain
      → member args (input_key properties) ≡ str input
      → Feeds agents input w output w'
      → tool_function classes (register_orchestrator name (some c) r).1 name properties args w
        ≡ (returned (some output), w')
  unfolding tool_function instantiate to_text
  tool_function-Feeds r name c agents chain properties args input output w w' type listed made given
        f =
      rw
        (
          register-get_orchestrator r name c (rw type refl),
          type,
          listed,
          made,
          given,
          run-Feeds agents chain input output w w' made f,
        )
        refl
