-- ===== src/ChatAgent/Delegation.antt =====
-- The delegation of lib/chat-agent.js to specialists: the tool that the model calls for it, and
-- the methods that change the registry of specialists. The registry is a member of the agent: one
-- that the caller also uses elsewhere is left out.
pub mod Listing
use gemini_agent_lib.Prelude.{
  String, Bool, true, false, not, Option, none, some, List, [], ◌∷◌, map, any, or_else, join, ◌==◌,
  ◌+++◌, if◌then◌else◌,
}
use gemini_agent_lib.Prelude.Dict.{Dict}
use gemini_agent_lib.Prelude.Action.{Action, pure, throw, ◌>>=◌, ◌>>◌}
use gemini_agent_lib.SchemaType
use gemini_agent_lib.AgentRegistry
use gemini_agent_lib.AgentRegistry.{AgentRegistry, SpecialistConfig, has_text}
use gemini_agent_lib.Agent.{Schema, schema, no_properties, end, property, no_items, Tool, is_nil}
use gemini_agent_lib.ChatAgent.{ChatAgent}

abbrev pub delegation_name : String
delegation_name = "delegate_task_to_specialist"

abbrev text_schema : String → Schema
text_schema description =
    schema description (some (SchemaType.text SchemaType.string)) no_properties no_items

abbrev pub is_delegation : {W : Type 0} → Tool W → Bool
is_delegation t = t.name == delegation_name

-- `_createDelegationTool`; its `required` is one of the members that schemas leave out
unfoldable pub delegation_tool : {W : Type 0} → List String → Tool W
delegation_tool roles = record {
  name = delegation_name;
  description = join "" (
      "Delega uma tarefa específica para um agente especialista quando a pergunta do "
      ∷ "usuário requer conhecimento ou ação especializada." ∷ []);
  parameters = some (
      schema "" (some (SchemaType.text SchemaType.object))
        (property "specialist_role"
          (text_schema (
            join "" (
              "O papel do agente especialista necessário. Deve ser um dos seguintes: "
              ∷ join ", " roles
              ∷ "."
              ∷ [])))
          (property "task_for_specialist"
            (text_schema
              "A descrição clara e completa da tarefa a ser executada pelo agente especialista.")
            end))
        no_items);
  function = none;
}

module _ {W : Type 0} where
  -- `tools[tools.findIndex(…)] = t`, where one is found
  abbrev pub update_tool : Tool W → List (Tool W) → List (Tool W)
  update_tool t [] = []
  update_tool t (u ∷ us) =
      let rest = update_tool t us in if is_delegation u then t ∷ us else u ∷ rest

  -- the same, and else `tools.unshift(t)`
  abbrev pub put_tool : Tool W → List (Tool W) → List (Tool W)
  put_tool t ts = if any is_delegation ts then update_tool t ts else t ∷ ts

  -- `tools.splice(tools.findIndex(…), 1)`, where one is found
  abbrev pub drop_tool : List (Tool W) → List (Tool W)
  drop_tool [] = []
  drop_tool (u ∷ us) = let rest = drop_tool us in if is_delegation u then us else u ∷ rest

-- the context of an agent that is given none
abbrev delegation_context : String → String → List String → String
delegation_context role objective roles = join "" (
    "Você é um "
    ∷ role
    ∷ " com o objetivo de "
    ∷ objective
    ∷ ".\n"
    ∷ "Sua principal função é conversar com o usuário. Responda diretamente sempre que "
    ∷ "possível.\n"
    ∷ "Você tem acesso aos seguintes especialistas para tarefas específicas:\n"
    ∷ join "\n" (map (λ r. "- " +++ r) roles)
    ∷ "\n"
    ∷ "\n"
    ∷ "Instruções para delegação:\n"
    ∷ "1. Analise a solicitação do usuário.\n"
    ∷ "2. Se for uma pergunta geral ou algo que você pode responder, FAÇA ISSO "
    ∷ "DIRETAMENTE.\n"
    ∷ "3. **SOMENTE SE** a solicitação exigir CLARAMENTE uma das especialidades "
    ∷ "listadas acima, use a ferramenta 'delegate_task_to_specialist'.\n"
    ∷ "4. Ao delegar:\n"
    ∷ "    - Forneça o 'specialist_role' EXATO da lista.\n"
    ∷ "    - Crie uma 'task_for_specialist' CLARA e AUTOCONTIDA, passando TODO o "
    ∷ "contexto necessário.\n"
    ∷ "5. Após receber a resposta do especialista, integre-a NATURALMENTE na sua "
    ∷ "resposta final ao usuário.\n"
    ∷ "6. NÃO invente especialistas ou use a ferramenta de delegação para tarefas simples."
    ∷ [])

abbrev no_registry : String
no_registry = "Cannot read properties of undefined"

module _ {T W : Type 0} where
  abbrev pub on_registry : {A : Type 0} → Action (AgentRegistry T) A → Action (ChatAgent T W) A
  on_registry m c = elim c.agent_registry [
    | none ↦ throw no_registry c
    | some r ↦ let p = m r in (p.0, record c { agent_registry = some p.1 })
  ]

  -- `agentRegistry.getAvailableSpecialistRoles()`
  abbrev pub registry_roles : Action (ChatAgent T W) (List String)
  registry_roles = on_registry (λ r. pure (AgentRegistry.get_available_specialist_roles r) r)

  -- the tool again, for the roles that there are now
  abbrev pub refresh_tool :
      (Tool W → List (Tool W) → List (Tool W)) → Action (ChatAgent T W) (Unit {0})
  refresh_tool f = do
    roles ← registry_roles
    λ c. pure tt (record c { tools = f (delegation_tool roles) c.tools })

  -- a change of the registry, if delegation is enabled
  abbrev pub if_enabled : Action (ChatAgent T W) (Unit {0}) → Action (ChatAgent T W) (Unit {0})
  if_enabled m c = if c.specialist_delegation_enabled then m c else pure tt c

  -- the branch of `_setupSpecialistDelegation` where there are specialists
  abbrev with_delegation : String → String → List String → ChatAgent T W → ChatAgent T W
  with_delegation role objective roles c = record c {
    context =
        if has_text c.context then c.context else some (delegation_context role objective roles);
    tools = delegation_tool roles ∷ c.tools;
    specialist_delegation_enabled = true;
  }

  -- `_setupSpecialistDelegation`: nothing that it calls throws
  unfoldable pub setup_specialist_delegation :
      Option (AgentRegistry T)
      → Dict (SpecialistConfig T)
      → String
      → String
      → ChatAgent T W
      → ChatAgent T W
  setup_specialist_delegation given config role objective c =
      let r = or_else given (AgentRegistry.new config) in
      let roles = AgentRegistry.get_available_specialist_roles r in
      let d : ChatAgent T W = record c { agent_registry = some r } in
      if is_nil roles then d else with_delegation role objective roles d

  -- `setSpecialistAgentsConfig`
  unfoldable pub set_specialist_agents_config :
      Option (Dict (SpecialistConfig T)) → Action (ChatAgent T W) (Unit {0})
  set_specialist_agents_config config =
      if_enabled
        (on_registry (AgentRegistry.set_specialist_agents_config config) >> refresh_tool put_tool)

  -- `registerSpecialist`
  unfoldable pub register_specialist :
      String → Option (SpecialistConfig T) → Action (ChatAgent T W) (Unit {0})
  register_specialist role config =
      if_enabled
        (on_registry (AgentRegistry.register_specialist role config) >> refresh_tool update_tool)

  -- `unregisterSpecialist`
  unfoldable pub unregister_specialist : String → Action (ChatAgent T W) (Unit {0})
  unregister_specialist role = if_enabled do
    on_registry (λ r. pure tt (AgentRegistry.unregister_specialist role r))
    refresh_tool update_tool

  -- `getAvailableSpecialistRoles`
  unfoldable pub get_available_specialist_roles : ChatAgent T W → List String
  get_available_specialist_roles c = elim c.agent_registry [
    | none ↦ []
    | some r ↦
        if c.specialist_delegation_enabled
        then AgentRegistry.get_available_specialist_roles r
        else []
  ]

  -- `getSpecialistConfig`
  unfoldable pub get_specialist_config : ChatAgent T W → String → Option (SpecialistConfig T)
  get_specialist_config c role = elim c.agent_registry [
    | none ↦ none
    | some r ↦
        if c.specialist_delegation_enabled then AgentRegistry.get_specialist_config r role else none
  ]

  -- an object of configurations given to an agent whose delegation is enabled already
  abbrev pub reconfigure : Option (Dict (SpecialistConfig T)) → Action (ChatAgent T W) (Unit {0})
  reconfigure none = pure tt
  reconfigure (some config) = set_specialist_agents_config (some config)

  abbrev pub enabled_with : AgentRegistry T → ChatAgent T W → ChatAgent T W
  enabled_with r c =
      let roles = AgentRegistry.get_available_specialist_roles r in
      record c {
        agent_registry = some r;
        tools = if is_nil roles then c.tools else put_tool (delegation_tool roles) c.tools;
        specialist_delegation_enabled = true;
      }

  -- `enableSpecialistDelegation`; `none` is its default, `null`
  unfoldable pub enable_specialist_delegation :
      Option (Dict (SpecialistConfig T)) → Action (ChatAgent T W) (Unit {0})
  enable_specialist_delegation config c =
      if c.specialist_delegation_enabled
      then reconfigure config c
      else pure tt (enabled_with (AgentRegistry.new (or_else config [])) c)

  -- `disableSpecialistDelegation`
  unfoldable pub disable_specialist_delegation : ChatAgent T W → ChatAgent T W
  disable_specialist_delegation c =
      if c.specialist_delegation_enabled
      then record c { tools = drop_tool c.tools; specialist_delegation_enabled = false }
      else c

-- One call of a method, by its name.
pub data DelegationCall (T : Type 0) : Type 0 where
  set_config : Option (Dict (SpecialistConfig T)) → DelegationCall T
  register : String → Option (SpecialistConfig T) → DelegationCall T
  unregister : String → DelegationCall T
  enable : Option (Dict (SpecialistConfig T)) → DelegationCall T
  disable : DelegationCall T

module _ {T W : Type 0} where
  -- The agent after a call, whether it returns or throws.
  unfoldable pub after : DelegationCall T → ChatAgent T W → ChatAgent T W
  after (set_config config) c = (set_specialist_agents_config config c).1
  after (register role config) c = (register_specialist role config c).1
  after (unregister role) c = (unregister_specialist role c).1
  after (enable config) c = (enable_specialist_delegation config c).1
  after disable c = disable_specialist_delegation c

  unfoldable pub after_all : List (DelegationCall T) → ChatAgent T W → ChatAgent T W
  unfolding after
  after_all [] c = c
  after_all (d ∷ ds) c = after_all ds (after d c)
