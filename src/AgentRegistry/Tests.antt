-- ===== src/AgentRegistry/Tests.antt =====
-- The theorems on lib/agent-registry.js at one specialist.
use gemini_agent_lib.Prelude.{String, ◌≡◌, refl, false, Option, none, some, [], ◌∷◌}
use gemini_agent_lib.Prelude.Dict.{get, put, remove}
use gemini_agent_lib.Prelude.Action.{Outcome, returned}
use gemini_agent_lib.Value.{Value, str}
use gemini_agent_lib.AgentRegistry.{
  SpecialistConfig, Env, LlmConfig, LlmInstance, AgentSpec, AgentInstance, AgentRegistry, new,
  llm_key, llm_config, spec_of, get_specialist_llm, register_specialist, get_specialist_agent,
  register, after_all, new_llm,
}
use gemini_agent_lib.AgentRegistry.Clients.{Given}
use gemini_agent_lib.AgentRegistry.Coherence.{Matches, get_specialist_agent-Matches}
use gemini_agent_lib.AgentRegistry.Stale.{register-keeps_llm}

abbrev env : Env
env = record {
  specialist_default_model = none;
  google_cloud_project_id = some "projeto";
  google_application_credentials = none;
  google_api_key = some "chave";
  google_cloud_location = none;
}

abbrev sdk : LlmConfig → Outcome (Unit {0})
sdk c = returned tt

abbrev construct : String → AgentSpec String → Outcome (Unit {0})
construct class spec = returned tt

abbrev finances : Option Value → SpecialistConfig String
finances generation = record {
  objective = some "contas";
  context = none;
  llm_mode = none;
  llm_model_name = none;
  generation_config = generation;
  agent_class = none;
  tools = none;
  enable_google_search = none;
  task_formatter = none;
}

abbrev client : LlmInstance
client = record { ident = 0; config = llm_config env (finances none) }

abbrev used : AgentRegistry String
used = record {
  configs = ("financas", finances none) ∷ [];
  llm_instances = (llm_key env "financas" (finances none), client) ∷ [];
  agent_instances = [];
  created = 1;
}

abbrev agent_of : SpecialistConfig String → AgentInstance String
agent_of c = record { ident = 1; agent_class = none; spec = spec_of "financas" c client }

abbrev built : AgentRegistry String
built = record {
  configs = ("financas", finances none) ∷ [];
  llm_instances = (llm_key env "financas" (finances none), client) ∷ [];
  agent_instances = ("financas", agent_of (finances none)) ∷ [];
  created = 2;
}

get_specialist_agent-Matches_example :
    (c : SpecialistConfig String) × (get built.configs "financas" ≡ some c)
    × Matches env
        (Given [] (register "financas" (some (finances none)) ∷ []))
        "financas"
        c
        (agent_of (finances none))
    × (get_specialist_agent env sdk construct "financas" false built
        ≡ (returned (agent_of (finances none)), built))
unfolding new get_specialist_agent after_all register_specialist llm_key new_llm get_specialist_llm
    get put remove
get_specialist_agent-Matches_example =
    get_specialist_agent-Matches env sdk construct []
      (register "financas" (some (finances none)) ∷ []) "financas" false (agent_of (finances none))
      built refl

abbrev tuned : SpecialistConfig String
tuned = finances (some (str "frio"))

register-keeps_llm_example : (agent_of tuned).spec.llm ≡ client
unfolding get_specialist_agent register_specialist llm_key new_llm get_specialist_llm get put remove
register-keeps_llm_example =
    register-keeps_llm env sdk construct "financas" tuned client false used (agent_of tuned)
      (record built {
        configs = ("financas", tuned) ∷ [];
        agent_instances = ("financas", agent_of tuned) ∷ [];
      })
      refl refl refl
