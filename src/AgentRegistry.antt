-- ===== src/AgentRegistry.antt =====
-- lib/agent-registry.js: configurations of specialists, and the caches of their model clients and
-- agents. Objects that the registry only hands on (tools, classes, formatters) are of a type `T`.
-- Each object that it makes has a number of its own, `ident`, for the identity of the reference.
pub mod Clients
pub mod Coherence
pub mod Stale
mod Tests
use gemini_agent_lib.Prelude.{
  ℕ, suc, String, Bool, true, false, not, ◌&&◌, ◌||◌, Option, none, some, List, [], is_empty,
  or_else, is_some, ◌+++◌, if◌then◌else◌,
}
use gemini_agent_lib.Prelude.Dict.{Dict, get, put, remove, has, keys}
use gemini_agent_lib.Prelude.Action.{Outcome, returned, thrown, Action, pure, throw, ◌>>=◌}
use gemini_agent_lib.Value.{Value}

pub record SpecialistConfig (T : Type 0) : Type 0 where
  pub objective : Option String
  pub context : Option String
  pub llm_mode : Option String
  pub llm_model_name : Option String
  pub generation_config : Option Value
  pub agent_class : Option T
  pub tools : Option (List T)
  pub enable_google_search : Option Bool
  pub task_formatter : Option T

-- the variables of `process.env` that are read
pub record Env : Type 0 where
  pub specialist_default_model : Option String
  pub google_cloud_project_id : Option String
  pub google_application_credentials : Option String
  pub google_api_key : Option String
  pub google_cloud_location : Option String

-- the argument of `new VertexAILLM`; no `generationConfig` stands for `{ maxOutputTokens: 2048 }`
pub record LlmConfig : Type 0 where
  pub project_id : Option String
  pub credentials_path : Option String
  pub api_key : Option String
  pub location : String
  pub model_name : String
  pub mode : String
  pub generation_config : Option Value

pub record LlmInstance : Type 0 where
  pub ident : ℕ
  pub config : LlmConfig

-- the argument of `new AgentClass`
pub record AgentSpec (T : Type 0) : Type 0 where
  pub role : String
  pub objective : Option String
  pub context : Option String
  pub llm : LlmInstance
  pub tools : List T
  pub enable_google_search : Bool
  pub task_formatter : Option T

pub record AgentInstance (T : Type 0) : Type 0 where
  pub ident : ℕ
  pub agent_class : Option T
  pub spec : AgentSpec T

pub record AgentRegistry (T : Type 0) : Type 0 where
  pub configs : Dict (SpecialistConfig T)
  pub llm_instances : Dict LlmInstance
  pub agent_instances : Dict (AgentInstance T)
  pub created : ℕ

-- `o || d` for a text, where the empty one is falsy
abbrev pub or_text : Option String → String → String
or_text none d = d
or_text (some s) d = if is_empty s then d else s

abbrev pub has_text : Option String → Bool
has_text none = false
has_text (some s) = not (is_empty s)

abbrev pub not_configured : String → String
not_configured role =
    "[AgentRegistry] Configuração para o agente especialista com role '" +++ role
    +++ "' não encontrada."

module _ {T : Type 0} where
  -- the constructor
  unfoldable pub new : Dict (SpecialistConfig T) → AgentRegistry T
  new config = record { configs = config; llm_instances = []; agent_instances = []; created = 0 }

  -- `none` is an argument that is no object
  unfoldable pub set_specialist_agents_config :
      Option (Dict (SpecialistConfig T)) → Action (AgentRegistry T) Unit
  set_specialist_agents_config none r =
      throw "[AgentRegistry] A configuração deve ser um objeto válido" r
  set_specialist_agents_config (some config) r =
      pure tt (record r { configs = config; llm_instances = []; agent_instances = [] })

  unfoldable pub register_specialist :
      String → Option (SpecialistConfig T) → Action (AgentRegistry T) Unit
  register_specialist role none r =
      if is_empty role
      then throw "[AgentRegistry] O papel (role) do especialista deve ser uma string válida" r
      else throw "[AgentRegistry] A configuração do especialista deve ser um objeto válido" r
  register_specialist role (some config) r =
      if is_empty role
      then throw "[AgentRegistry] O papel (role) do especialista deve ser uma string válida" r
      else pure tt (record r {
        configs = put r.configs role config;
        llm_instances = remove r.llm_instances role;
        agent_instances = remove r.agent_instances role;
      })

  unfoldable pub unregister_specialist : String → AgentRegistry T → AgentRegistry T
  unregister_specialist role r =
      if has r.configs role
      then record r {
        configs = remove r.configs role;
        llm_instances = remove r.llm_instances role;
        agent_instances = remove r.agent_instances role;
      }
      else r

  unfoldable pub get_available_specialist_roles : AgentRegistry T → List String
  get_available_specialist_roles r = keys r.configs

  unfoldable pub get_specialist_config : AgentRegistry T → String → Option (SpecialistConfig T)
  get_specialist_config r role = get r.configs role

  unfoldable pub clear_cache : AgentRegistry T → AgentRegistry T
  clear_cache r = record r { llm_instances = []; agent_instances = [] }

-- The checks of the constructor of lib/vertex-ai-llm.js. What the SDK's own constructors do then
-- is a parameter.
unfoldable pub new_llm : (LlmConfig → Outcome (Unit {0})) → LlmConfig → Outcome (Unit {0})
new_llm sdk c =
    if not (has_text c.project_id)
    then thrown "Project ID do Google Cloud não fornecido."
    else if not (has_text c.api_key) && not (has_text c.credentials_path)
    then thrown "Método de autenticação não fornecido. Forneça apiKey ou credentialsPath."
    else sdk c

-- `sdk` is what the SDK's constructors do, `construct` what the constructor of a class given in
-- a configuration does. The class `Agent` has a constructor that does not throw.
abbrev pub mode_of : {T : Type 0} → SpecialistConfig T → String
mode_of c = or_text c.llm_mode "oneshot"

abbrev pub spec_of : {T : Type 0} → String → SpecialistConfig T → LlmInstance → AgentSpec T
spec_of role c llm = record {
  role = role;
  objective = c.objective;
  context = c.context;
  llm = llm;
  tools = or_else c.tools [];
  enable_google_search = or_else c.enable_google_search false;
  task_formatter = c.task_formatter;
}

module _ {T : Type 0} (env : Env) where
  abbrev pub model_of : SpecialistConfig T → String
  model_of c =
      or_text c.llm_model_name (or_text env.specialist_default_model "gemini-2.0-flash-001")

  unfoldable pub llm_key : String → SpecialistConfig T → String
  llm_key role c = role +++ "-" +++ mode_of c +++ "-" +++ model_of c

  abbrev pub llm_config : SpecialistConfig T → LlmConfig
  llm_config c = record {
    project_id = env.google_cloud_project_id;
    credentials_path = env.google_application_credentials;
    api_key = env.google_api_key;
    location = or_text env.google_cloud_location "us-central1";
    model_name = model_of c;
    mode = mode_of c;
    generation_config = c.generation_config;
  }

module _ {T : Type 0} (env : Env) (sdk : LlmConfig → Outcome (Unit {0})) where
  store_llm :
      String → SpecialistConfig T → Outcome (Unit {0}) → Action (AgentRegistry T) LlmInstance
  store_llm key c (thrown e) r = throw e r
  store_llm key c (returned _) r =
      let i : LlmInstance = record { ident = r.created; config = llm_config env c } in
      pure i (record r { llm_instances = put r.llm_instances key i; created = suc r.created })

  cached_llm :
      String → SpecialistConfig T → Option LlmInstance → Action (AgentRegistry T) LlmInstance
  unfolding store_llm
  cached_llm key c (some i) r = pure i r
  cached_llm key c none r = store_llm key c (new_llm sdk (llm_config env c)) r

  configured_llm : String → Option (SpecialistConfig T) → Action (AgentRegistry T) LlmInstance
  unfolding cached_llm
  configured_llm role none r = throw (not_configured role) r
  configured_llm role (some c) r =
      cached_llm (llm_key env role c) c (get r.llm_instances (llm_key env role c)) r

  -- `_getSpecialistLLM`
  unfoldable pub get_specialist_llm : String → Action (AgentRegistry T) LlmInstance
  unfolding configured_llm
  get_specialist_llm role r = configured_llm role (get r.configs role) r

module _ {T : Type 0} (env : Env) (sdk : LlmConfig → Outcome (Unit {0}))
    (construct : T → AgentSpec T → Outcome (Unit {0})) where
  constructed : Option T → AgentSpec T → Outcome (Unit {0})
  constructed none spec = returned tt
  constructed (some class) spec = construct class spec

  store_agent :
      String
      → SpecialistConfig T
      → AgentSpec T
      → Outcome (Unit {0})
      → Action (AgentRegistry T) (AgentInstance T)
  store_agent role c spec (thrown e) r = throw e r
  store_agent role c spec (returned _) r =
      let a : AgentInstance T = record {
        ident = r.created;
        agent_class = c.agent_class;
        spec = spec;
      } in
      pure a (record r { agent_instances = put r.agent_instances role a; created = suc r.created })

  make_agent : String → SpecialistConfig T → Action (AgentRegistry T) (AgentInstance T)
  unfolding store_agent constructed
  make_agent role c = do
    llm ← get_specialist_llm env sdk role
    store_agent role c (spec_of role c llm) (constructed c.agent_class (spec_of role c llm))

  cached_agent :
      String
      → SpecialistConfig T
      → Bool
      → Option (AgentInstance T)
      → Action (AgentRegistry T) (AgentInstance T)
  unfolding make_agent
  cached_agent role c true o = make_agent role c
  cached_agent role c false none = make_agent role c
  cached_agent role c false (some a) = pure a

  configured_agent :
      String → Bool → Option (SpecialistConfig T) → Action (AgentRegistry T) (AgentInstance T)
  unfolding cached_agent
  configured_agent role force_new none r = throw (not_configured role) r
  configured_agent role force_new (some c) r =
      cached_agent role c force_new (get r.agent_instances role) r

  unfoldable pub get_specialist_agent : String → Bool → Action (AgentRegistry T) (AgentInstance T)
  unfolding configured_agent
  get_specialist_agent role force_new r = configured_agent role force_new (get r.configs role) r

-- One call of a method, by its name.
pub data Call (T : Type 0) : Type 0 where
  set_config : Option (Dict (SpecialistConfig T)) → Call T
  register : String → Option (SpecialistConfig T) → Call T
  unregister : String → Call T
  get_llm : String → Call T
  get_agent : String → Bool → Call T
  clear : Call T

module _ {T : Type 0} (env : Env) (sdk : LlmConfig → Outcome (Unit {0}))
    (construct : T → AgentSpec T → Outcome (Unit {0})) where
  -- The registry after a call, whether it returns or throws.
  unfoldable pub after : Call T → AgentRegistry T → AgentRegistry T
  after (set_config c) r = (set_specialist_agents_config c r).1
  after (register role c) r = (register_specialist role c r).1
  after (unregister role) r = unregister_specialist role r
  after (get_llm role) r = (get_specialist_llm env sdk role r).1
  after (get_agent role force_new) r = (get_specialist_agent env sdk construct role force_new r).1
  after clear r = clear_cache r

  unfoldable pub after_all : List (Call T) → AgentRegistry T → AgentRegistry T
  unfolding after
  after_all [] r = r
  after_all (List.◌∷◌ c cs) r = after_all cs (after c r)
