-- ===== src/AgentRegistry/Clients.antt =====
-- The cache of model clients of lib/agent-registry.js: from which configurations its clients were
-- made.
use gemini_agent_lib.Prelude.{
  String, ◌≡◌, refl, subst, Option, none, some, List, [], ◌∷◌, ◌⊎◌, inl, inr, ◌+++◌,
}
use gemini_agent_lib.Prelude.Dict.{Dict, get, put, remove, put-eq-some, remove-eq-some}
use gemini_agent_lib.Prelude.Action.{Outcome, returned, thrown, Returns}
use gemini_agent_lib.AgentRegistry.{
  SpecialistConfig, Env, LlmConfig, LlmInstance, AgentRegistry, or_text, llm_key, new_llm,
  llm_config, store_llm, cached_llm, configured_llm, get_specialist_llm, Call, set_config, register,
}

module _ {T : Type 0} where
  -- the configurations that a call hands over, by their roles
  abbrev pub Gives : Call T → String → SpecialistConfig T → Type 0
  Gives (set_config (some configs)) role c = get configs role ≡ some c
  Gives (register j (some d)) role c = (j ≡ role) × (d ≡ c)
  Gives _ role c = ⊥

  abbrev pub GivenBy : List (Call T) → String → SpecialistConfig T → Type 0
  GivenBy [] role c = ⊥
  GivenBy (k ∷ ks) role c = Gives k role c ⊎ GivenBy ks role c

  -- A configuration that the registry was given for a role: at first, or by one of these calls.
  abbrev pub Given :
      Dict (SpecialistConfig T) → List (Call T) → String → SpecialistConfig T → Type 0
  Given initial ks role c = (get initial role ≡ some c) ⊎ GivenBy ks role c

  -- the role, the mode and the model, with their defaults, joined by dashes
  abbrev pub client_name : Env → String → SpecialistConfig T → String
  client_name env role c =
      role
      +++ "-"
      +++ or_text c.llm_mode "oneshot"
      +++ "-"
      +++ or_text c.llm_model_name (or_text env.specialist_default_model "gemini-2.0-flash-001")

  -- the client that a configuration asks for
  abbrev pub wanted : Env → SpecialistConfig T → LlmConfig
  wanted env c = record {
    project_id = env.google_cloud_project_id;
    credentials_path = env.google_application_credentials;
    api_key = env.google_api_key;
    location = or_text env.google_cloud_location "us-central1";
    model_name =
        or_text c.llm_model_name (or_text env.specialist_default_model "gemini-2.0-flash-001");
    mode = or_text c.llm_mode "oneshot";
    generation_config = c.generation_config;
  }

module _ {T : Type 0} (env : Env) (G : String → SpecialistConfig T → Type 0) where
  -- A client as a configuration asks for it that was given and whose role, mode and model give
  -- this key.
  abbrev pub ClientFor : String → LlmInstance → Type 0
  ClientFor name i =
      (j : String) × (d : SpecialistConfig T) × G j d
      × (client_name env j d ≡ name)
      × (i.config ≡ wanted env d)

  abbrev pub Known : Dict (SpecialistConfig T) → Type 0
  Known configs = (role : String) (c : SpecialistConfig T) → get configs role ≡ some c → G role c

  abbrev pub Clients : Dict LlmInstance → Type 0
  Clients llms = (name : String) (i : LlmInstance) → get llms name ≡ some i → ClientFor name i

  pub Clients-nil : Clients []
  unfolding get
  Clients-nil name i e = cc

  pub Clients-remove :
      (llms : Dict LlmInstance) (name : String) → Clients llms → Clients (remove llms name)
  Clients-remove llms name h k i e = h k i (remove-eq-some llms name k i e).1

  Clients-put :
      (llms : Dict LlmInstance) (name : String) (i : LlmInstance)
      → ClientFor name i
      → Clients llms
      → Clients (put llms name i)
  Clients-put llms name i f h k j e = elim (put-eq-some llms name k i j e) [
    | inl (here, same) ↦ subst (λ n. ClientFor n j) here (subst (λ x. ClientFor name x) same f)
    | inr (other, kept) ↦ h k j kept
  ]

  pub Known-put :
      (configs : Dict (SpecialistConfig T)) (role : String) (c : SpecialistConfig T)
      → G role c
      → Known configs
      → Known (put configs role c)
  Known-put configs role c g h j d e = elim (put-eq-some configs role j c d e) [
    | inl (here, same) ↦ subst (λ n. G n d) here (subst (λ x. G role x) same g)
    | inr (other, kept) ↦ h j d kept
  ]

  pub Known-remove :
      (configs : Dict (SpecialistConfig T)) (role : String)
      → Known configs
      → Known (remove configs role)
  Known-remove configs role h j d e = h j d (remove-eq-some configs role j d e).1

  module _ (sdk : LlmConfig → Outcome (Unit {0})) where
    -- What getting a client leaves: a client as asked for, in a cache of such clients.
    abbrev Served : String → Outcome LlmInstance × AgentRegistry T → Type 0
    Served name p = Returns (λ i _. ClientFor name i) p × Clients p.1.llm_instances

    stored-Served :
        (role : String) (c : SpecialistConfig T) (o : Outcome (Unit {0})) (r : AgentRegistry T)
        → G role c
        → Clients r.llm_instances
        → Served (client_name env role c) (store_llm env sdk (llm_key env role c) c o r)
    unfolding store_llm llm_key
    stored-Served role c (thrown e) r g h = (tt, h)
    stored-Served role c (returned u) r g h =
        let f : ClientFor (client_name env role c)
            (record { ident = r.created; config = wanted env c }) =
          (role, c, g, refl, refl) in
        (f, Clients-put r.llm_instances (client_name env role c) _ f h)

    cached-Served :
        (role : String) (c : SpecialistConfig T) (o : Option LlmInstance) (r : AgentRegistry T)
        → get r.llm_instances (client_name env role c) ≡ o
        → G role c
        → Clients r.llm_instances
        → Served (client_name env role c) (cached_llm env sdk (llm_key env role c) c o r)
    unfolding cached_llm
    cached-Served role c (some i) r e g h = (h (client_name env role c) i e, h)
    cached-Served role c none r e g h = stored-Served role c (new_llm sdk (llm_config env c)) r g h

    pub served :
        (role : String) (c : SpecialistConfig T) (r : AgentRegistry T)
        → get r.configs role ≡ some c
        → Known r.configs
        → Clients r.llm_instances
        → Served (client_name env role c) (get_specialist_llm env sdk role r)
    unfolding get_specialist_llm configured_llm llm_key
    served role c r found known h =
        rw (found, configured_llm)
          (cached-Served role c (get r.llm_instances (client_name env role c)) r refl
            (known role c found) h)

    llm-Clients-of :
        (role : String) (o : Option (SpecialistConfig T)) (r : AgentRegistry T)
        → get r.configs role ≡ o
        → Known r.configs
        → Clients r.llm_instances
        → Clients (get_specialist_llm env sdk role r).1.llm_instances
    unfolding get_specialist_llm configured_llm
    llm-Clients-of role (some c) r found known h = (served role c r found known h).1
    llm-Clients-of role none r found known h = rw (found, configured_llm) h

    pub llm-Clients :
        (role : String) (r : AgentRegistry T)
        → Known r.configs
        → Clients r.llm_instances
        → Clients (get_specialist_llm env sdk role r).1.llm_instances
    llm-Clients role r = llm-Clients-of role (get r.configs role) r refl
