-- ===== src/Lib.antt =====
-- gemini-agent-lib: agents over Gemini models (lib/). The development models its core: the agents
-- and their tools, the registry of specialists, the orchestrators, and the managers of chat
-- sessions with sub-conversations.
--
-- Parts, and how they interact:
-- lib/tool-builder.js, lib/function-declaration-schema-type.js: ToolBuilder, SchemaType. A
--   builder makes the tools; a method that throws leaves what it wrote.
-- lib/agent.js: Agent (the declarations sent to the model), Agent.Task (`executeTask`). The model
--   is a function of a request and the world; a tool is one of a value and the world.
-- lib/agent-registry.js: AgentRegistry. Objects that it makes bear a number, for the identity of
--   references. The SDK behind lib/vertex-ai-llm.js is a parameter; the checks of that
--   constructor are `new_llm`.
-- lib/sequential-agent-chain.js, lib/hierarchical-agent-orchestrator.js: Orchestrator.Sequential,
--   Orchestrator.Hierarchical, over any agent (Orchestrator.Worker); an agent of lib/agent.js is
--   one by `worker`.
-- lib/orchestrator-registry.js, lib/orchestrator-tool-factory.js: Orchestrator.Registry, the
--   choice of an orchestrator by its configuration, and the tool that runs it.
-- lib/loaders/text-loader.js: TextLoader, on texts as lists of code units.
-- lib/tools/subconversation-tools.js: SubconversationTools, whose signals the routing reads.
-- lib/thinking-agent.js: ThinkingAgent (constructor, `executeTask`, `processThinkingResponse`),
--   ThinkingAgent.Patterns (its regular expressions), ThinkingAgent.Sections (the search of the
--   paragraphs). lib/hierarchical-agent-thinking-orchestrator.js: Orchestrator.Thinking, whose
--   loop over the experts is that of Orchestrator.Hierarchical, and Orchestrator.Thinking.Response.
-- lib/auto-gen-orchestrator.js: AutoGen (the order of a plan's sub-tasks), AutoGen.Planning (the
--   plan in a text), AutoGen.Execution, AutoGen.Orchestration (`orchestrateTask`), over a
--   ThinkingAgent.
-- lib/chat-agent.js: ChatAgent (members and history), ChatAgent.Memories, ChatAgent.Context
--   (`_prepareEnrichedContext`), ChatAgent.Conversation (`processUserMessage`),
--   ChatAgent.Evaluation (`_evaluateAndManageMemories`), ChatAgent.Delegation, and
--   ChatAgent.Construction. ChatAgent.Frame carries a relation of history and world through all
--   of them. The model, the memories and the specialists are functions on the world.
-- lib/chat-manager.js: ChatManager. lib/routing-chat-manager.js: RoutingChatManager and its
--   Session. Both use chat agents and memory adapters by the interface ChatAgents; an agent is the
--   number of its reference, and its members stand in the world.
-- Value: JavaScript values and `JSON.stringify`; Prelude.Pattern: regular expressions, as the ends
--   of a match in the order in which the engine tries them; Prelude.Dict: plain objects and maps;
--   Prelude.Action: methods that change a state and may throw, with the state after a throw.
--
-- Bounds and fuel: `executeTask` and `processUserMessage` loop as long as the model asks for calls,
-- so the loops are on fuel; more fuel than the calls that the model still asks for is enough.
-- `splitText` is on fuel of the text's length and one, which is enough for every loader that its
-- constructor returns. The order of a plan is on fuel of its first queue and one for each node,
-- which is always enough. `orchestrateTask` takes the fuel of its own agent's `executeTask`.
--
-- Where the documents and the code differ, the code is modelled: a specialist's result goes to
-- the coordinator in the turn that ends the sub-conversation, and a specialist's answer to a
-- delegated task is the reply.
--
-- Not modelled: that a heap of chat agents of lib/chat-agent.js fills the interface ChatAgents,
-- and a registry that two of them share; the lines of `generateTaskPlan` in
-- lib/auto-gen-orchestrator.js that no run reaches; the adapters of lib/memory, the requests of
-- the model clients, and the tools that call services. Calls run one after another: two messages
-- of one session at the same time are left out, as are the members that every JavaScript object
-- inherits, and log output. Objects list their keys in the order of
-- insertion: that JavaScript lists keys that are whole numbers first is left out, so a role such
-- as `7` may stand elsewhere in a list of roles or experts.
pub mod Prelude
pub mod Value
pub mod SchemaType
pub mod TextLoader
pub mod ToolBuilder
pub mod Agent
pub mod AgentRegistry
pub mod Orchestrator
pub mod ChatAgent
pub mod ChatAgents
pub mod ThinkingAgent
pub mod AutoGen
pub mod ChatManager
pub mod RoutingChatManager
pub mod SubconversationTools
