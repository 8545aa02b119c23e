-- ===== src/AgentRegistry/Coherence.antt =====
-- The cache of agents follows the configurations.
use mathlib.Core.Path.{subst₂}
use gemini_agent_lib.Prelude.{
  String, ◌≡◌, refl, ap, subst, sym, ◌∙◌, Bool, true, false, Option, none, some, List, [], ◌∷◌,
  arith, is_empty, Bool-cases, inl, inr, or_else,
}
use gemini_agent_lib.Prelude.Dict.{
  Dict, get, put, remove, has, get-put_self, get-put_other, get-remove_other, put-eq-some,
  remove-eq-some,
}
use gemini_agent_lib.Prelude.Action.{
  Outcome, returned, thrown, continue, Returns, Returns-use, Returns-continue,
}
use gemini_agent_lib.AgentRegistry.{
  SpecialistConfig, Env, LlmConfig, LlmInstance, AgentSpec, AgentInstance, AgentRegistry, new,
  set_specialist_agents_config, register_specialist, unregister_specialist, clear_cache, spec_of,
  get_specialist_llm, constructed, store_agent, make_agent, cached_agent, configured_agent,
  get_specialist_agent, Call, set_config, register, unregister, get_llm, get_agent, clear, after,
  after_all,
}
use gemini_agent_lib.AgentRegistry.Clients.{
  Gives, GivenBy, Given, client_name, ClientFor, Known, Clients, Clients-nil, Clients-remove,
  Known-put, Known-remove, served, llm-Clients,
}

module _ {T : Type 0} (env : Env) (sdk : LlmConfig → Outcome (Unit {0})) where
  -- Getting a model client touches neither the configurations nor the cache of agents.
  llm_keeps :
      (role : String) (r : AgentRegistry T)
      → ((get_specialist_llm env sdk role r).1.configs ≡ r.configs)
        × ((get_specialist_llm env sdk role r).1.agent_instances ≡ r.agent_instances)
  unfolding get_specialist_llm
  llm_keeps role r = (ground arith, ground arith)

-- `G` says which configurations the registry was given.
module _ {T : Type 0} (env : Env) (G : String → SpecialistConfig T → Type 0) where
  -- An agent built for a role from a configuration: with its class and its other members, and with
  -- a model client as a configuration asked for it whose role, mode and model give the same key.
  abbrev pub Matches : String → SpecialistConfig T → AgentInstance T → Type 0
  Matches role c a =
      (a.agent_class ≡ c.agent_class)
      × (a.spec ≡ record {
        role = role;
        objective = c.objective;
        context = c.context;
        llm = a.spec.llm;
        tools = or_else c.tools [];
        enable_google_search = or_else c.enable_google_search false;
        task_formatter = c.task_formatter;
      })
      × ClientFor env G (client_name env role c) a.spec.llm

  -- Every agent in the cache was built from its role's present configuration.
  abbrev pub Coherent : Dict (SpecialistConfig T) → Dict (AgentInstance T) → Type 0
  Coherent configs agents =
      (role : String) (a : AgentInstance T)
      → get agents role ≡ some a
      → (c : SpecialistConfig T) × (get configs role ≡ some c) × Matches role c a

  -- The agents are coherent, and the configurations and clients come from what was given.
  abbrev pub IsCoherent : AgentRegistry T → Type 0
  IsCoherent r =
      Coherent r.configs r.agent_instances × Known env G r.configs × Clients env G r.llm_instances

  Coherent-nil : (configs : Dict (SpecialistConfig T)) → Coherent configs []
  unfolding get
  Coherent-nil configs role a h = cc

  Coherent-register :
      (configs : Dict (SpecialistConfig T)) (agents : Dict (AgentInstance T)) (role : String)
      (c : SpecialistConfig T)
      → Coherent configs agents
      → Coherent (put configs role c) (remove agents role)
  Coherent-register configs agents role c h j a e =
      let (other, kept) = remove-eq-some agents role j a e in
      let (c', found, m) = h j a kept in (c', get-put_other configs role j c other ∙ found, m)

  Coherent-unregister :
      (configs : Dict (SpecialistConfig T)) (agents : Dict (AgentInstance T)) (role : String)
      → Coherent configs agents
      → Coherent (remove configs role) (remove agents role)
  Coherent-unregister configs agents role h j a e =
      let (other, kept) = remove-eq-some agents role j a e in
      let (c', found, m) = h j a kept in (c', get-remove_other configs role j other ∙ found, m)

  Coherent-put :
      (configs : Dict (SpecialistConfig T)) (agents : Dict (AgentInstance T)) (role : String)
      (c : SpecialistConfig T) (a : AgentInstance T)
      → get configs role ≡ some c
      → Matches role c a
      → Coherent configs agents
      → Coherent configs (put agents role a)
  Coherent-put configs agents role c a found m h j b e = elim (put-eq-some agents role j a b e) [
    | inl (here, same) ↦
        subst (λ k. (d : SpecialistConfig T) × (get configs k ≡ some d) × Matches k d b) here
          (subst (λ x. (d : SpecialistConfig T) × (get configs role ≡ some d) × Matches role d x)
            same (c, found, m))
    | inr (other, kept) ↦ h j b kept
  ]

  module _ (sdk : LlmConfig → Outcome (Unit {0}))
      (construct : T → AgentSpec T → Outcome (Unit {0})) where
    llm-IsCoherent :
        (role : String) (r : AgentRegistry T)
        → IsCoherent r
        → IsCoherent (get_specialist_llm env sdk role r).1
    llm-IsCoherent role r (h, known, clients) =
        let (cs, agents) = llm_keeps env sdk role r in
        (
          subst₂ Coherent (sym cs) (sym agents) h,
          subst (Known env G) (sym cs) known,
          llm-Clients env G sdk role r known clients,
        )

    store-IsCoherent :
        (role : String) (c : SpecialistConfig T) (llm : LlmInstance) (o : Outcome (Unit {0}))
        (r : AgentRegistry T)
        → get r.configs role ≡ some c
        → ClientFor env G (client_name env role c) llm
        → IsCoherent r
        → IsCoherent (store_agent env sdk construct role c (spec_of role c llm) o r).1
    unfolding store_agent
    store-IsCoherent role c llm (thrown e) r found f h = h
    store-IsCoherent role c llm (returned _) r found f (h, known, clients) =
        (Coherent-put r.configs r.agent_instances role c _ found (refl, refl, f) h, known, clients)

    made-IsCoherent :
        (role : String) (c : SpecialistConfig T) (p : Outcome LlmInstance × AgentRegistry T)
        → get p.1.configs role ≡ some c
        → Returns (λ i _. ClientFor env G (client_name env role c) i) p
        → IsCoherent p.1
        → IsCoherent
            (continue p (λ llm.
              store_agent env sdk construct role c
                (spec_of role c llm)
                (constructed env sdk construct c.agent_class (spec_of role c llm)))).1
    made-IsCoherent role c (returned llm, r) found f h =
        store-IsCoherent role c llm
          (constructed env sdk construct c.agent_class (spec_of role c llm)) r found f h
    made-IsCoherent role c (thrown e, r) found f h = h

    make-IsCoherent :
        (role : String) (c : SpecialistConfig T) (r : AgentRegistry T)
        → get r.configs role ≡ some c
        → IsCoherent r
        → IsCoherent (make_agent env sdk construct role c r).1
    unfolding make_agent
    make-IsCoherent role c r found (h, known, clients) =
        made-IsCoherent role c (get_specialist_llm env sdk role r)
          (ap (λ d. get d role) (llm_keeps env sdk role r).0 ∙ found)
          (served env G sdk role c r found known clients).0
          (llm-IsCoherent role r (h, known, clients))

    cached-IsCoherent :
        (role : String) (c : SpecialistConfig T) (force_new : Bool) (o : Option (AgentInstance T))
        (r : AgentRegistry T)
        → get r.configs role ≡ some c
        → IsCoherent r
        → IsCoherent (cached_agent env sdk construct role c force_new o r).1
    unfolding cached_agent
    cached-IsCoherent role c true o r found h = make-IsCoherent role c r found h
    cached-IsCoherent role c false none r found h = make-IsCoherent role c r found h
    cached-IsCoherent role c false (some a) r found h = h

    configured-IsCoherent :
        (role : String) (force_new : Bool) (o : Option (SpecialistConfig T)) (r : AgentRegistry T)
        → get r.configs role ≡ o
        → IsCoherent r
        → IsCoherent (configured_agent env sdk construct role force_new o r).1
    unfolding configured_agent
    configured-IsCoherent role force_new none r found h = h
    configured-IsCoherent role force_new (some c) r found h =
        cached-IsCoherent role c force_new (get r.agent_instances role) r found h

    register-IsCoherent :
        (role : String) (o : Option (SpecialistConfig T)) (r : AgentRegistry T)
        → ((j : String) (c : SpecialistConfig T) → Gives (register role o) j c → G j c)
        → IsCoherent r
        → IsCoherent (register_specialist role o r).1
    unfolding register_specialist
    register-IsCoherent role none r given h = elim (Bool-cases (is_empty role)) [
      | inl e ↦ rw e h
      | inr e ↦ rw e h
    ]
    register-IsCoherent role (some c) r given (h, known, clients) =
        elim (Bool-cases (is_empty role)) [
          | inl e ↦ rw e (h, known, clients)
          | inr e ↦ rw e (
            Coherent-register r.configs r.agent_instances role c h,
            Known-put env G r.configs role c (given role c (refl, refl)) known,
            Clients-remove env G r.llm_instances role clients,
          )
        ]

    after-IsCoherent :
        (k : Call T) (r : AgentRegistry T)
        → ((role : String) (c : SpecialistConfig T) → Gives k role c → G role c)
        → IsCoherent r
        → IsCoherent (after env sdk construct k r)
    unfolding after set_specialist_agents_config unregister_specialist clear_cache
        get_specialist_agent
    after-IsCoherent (set_config none) r given h = h
    after-IsCoherent (set_config (some config)) r given h =
        (Coherent-nil config, given, Clients-nil env G)
    after-IsCoherent (register role o) r given h = register-IsCoherent role o r given h
    after-IsCoherent (unregister role) r given (h, known, clients) =
        elim (Bool-cases (has r.configs role)) [
          | inl e ↦ rw e (
            Coherent-unregister r.configs r.agent_instances role h,
            Known-remove env G r.configs role known,
            Clients-remove env G r.llm_instances role clients,
          )
          | inr e ↦ rw e (h, known, clients)
        ]
    after-IsCoherent (get_llm role) r given h = llm-IsCoherent role r h
    after-IsCoherent (get_agent role force_new) r given h =
        configured-IsCoherent role force_new (get r.configs role) r refl h
    after-IsCoherent clear r given (h, known, clients) =
        (Coherent-nil r.configs, known, Clients-nil env G)

    after_all-IsCoherent :
        (ks : List (Call T)) (r : AgentRegistry T)
        → ((role : String) (c : SpecialistConfig T) → GivenBy ks role c → G role c)
        → IsCoherent r
        → IsCoherent (after_all env sdk construct ks r)
    unfolding after_all
    after_all-IsCoherent [] r given h = h
    after_all-IsCoherent (k ∷ ks) r given h =
        after_all-IsCoherent ks (after env sdk construct k r) (λ role c g. given role c (inr g))
          (after-IsCoherent k r (λ role c g. given role c (inl g)) h)

module _ {T : Type 0} (env : Env) (sdk : LlmConfig → Outcome (Unit {0}))
    (construct : T → AgentSpec T → Outcome (Unit {0})) where
  -- What a registry holds when a call of `getSpecialistAgent` has returned an agent.
  abbrev pub Holds : String → AgentInstance T → AgentRegistry T → Type 0
  Holds role a r =
      (get r.agent_instances role ≡ some a)
      × (c : SpecialistConfig T) × (get r.configs role ≡ some c)

  stored-Holds :
      (role : String) (c : SpecialistConfig T) (spec : AgentSpec T) (o : Outcome (Unit {0}))
      (r : AgentRegistry T)
      → get r.configs role ≡ some c
      → Returns (Holds role) (store_agent env sdk construct role c spec o r)
  unfolding store_agent
  stored-Holds role c spec (thrown x) r found = tt
  stored-Holds role c spec (returned _) r found = (get-put_self r.agent_instances role _, c, found)

  found_after :
      (c : SpecialistConfig T) (role : String) (p : Outcome LlmInstance × AgentRegistry T)
      → get p.1.configs role ≡ some c
      → Returns (λ _ s. get s.configs role ≡ some c) p
  found_after c role (returned llm, r) h = h
  found_after c role (thrown x, r) h = tt

  made-Holds :
      (role : String) (c : SpecialistConfig T) (r : AgentRegistry T)
      → get r.configs role ≡ some c
      → Returns (Holds role) (make_agent env sdk construct role c r)
  unfolding make_agent
  made-Holds role c r found =
      let p = get_specialist_llm env sdk role r in
      Returns-continue (λ _ s. get s.configs role ≡ some c) (Holds role) p _
        (found_after c role p (ap (λ d. get d role) (llm_keeps env sdk role r).0 ∙ found))
        (λ llm s e.
          stored-Holds role c (spec_of role c llm)
            (constructed env sdk construct c.agent_class (spec_of role c llm)) s e)

  cached-Holds :
      (role : String) (c : SpecialistConfig T) (force_new : Bool) (o : Option (AgentInstance T))
      (r : AgentRegistry T)
      → get r.configs role ≡ some c
      → get r.agent_instances role ≡ o
      → Returns (Holds role) (cached_agent env sdk construct role c force_new o r)
  unfolding cached_agent
  cached-Holds role c true o r found e = made-Holds role c r found
  cached-Holds role c false none r found e = made-Holds role c r found
  cached-Holds role c false (some a) r found e = (e, c, found)

  configured-Holds :
      (role : String) (force_new : Bool) (o : Option (SpecialistConfig T)) (r : AgentRegistry T)
      → get r.configs role ≡ o
      → Returns (Holds role) (configured_agent env sdk construct role force_new o r)
  unfolding configured_agent
  configured-Holds role force_new none r found = tt
  configured-Holds role force_new (some c) r found =
      cached-Holds role c force_new (get r.agent_instances role) r found refl

  got-Holds :
      (role : String) (force_new : Bool) (r : AgentRegistry T)
      → Returns (Holds role) (get_specialist_agent env sdk construct role force_new r)
  unfolding get_specialist_agent
  got-Holds role force_new r = configured-Holds role force_new (get r.configs role) r refl

  cached_again :
      (role : String) (a : AgentInstance T) (r : AgentRegistry T)
      → Holds role a r
      → get_specialist_agent env sdk construct role false r ≡ (returned a, r)
  unfolding get_specialist_agent configured_agent cached_agent
  cached_again role a r (cached, c, found) = rw (found, configured_agent, cached, cached_agent) refl

  -- After any calls on a new registry, throwing or not: an agent that `getSpecialistAgent` returns
  -- has its role and the class, objective, context, tools, search and formatter of the role's
  -- present configuration; its model client has the mode, the model and the `generationConfig` of
  -- a configuration that the registry was given, at first or by one of the calls, and whose role,
  -- mode and model, joined by dashes, are the same text as those of the present one. The next call
  -- for the role that does not force a new agent returns the same object and changes nothing.
  pub get_specialist_agent-Matches :
      (initial : Dict (SpecialistConfig T)) (calls : List (Call T)) (role : String)
      (force_new : Bool) (a : AgentInstance T) (r : AgentRegistry T)
      → get_specialist_agent env sdk construct role force_new
          (after_all env sdk construct calls (new initial))
        ≡ (returned a, r)
      → (c : SpecialistConfig T) × (get r.configs role ≡ some c)
        × Matches env (Given initial calls) role c a
        × (get_specialist_agent env sdk construct role false r ≡ (returned a, r))
  unfolding new after
  get_specialist_agent-Matches initial calls role force_new a r e =
      let G = Given initial calls in
      let start = after_all env sdk construct calls (new initial) in
      let before =
        after_all-IsCoherent env G sdk construct calls (new initial) (λ j d g. inr g)
          (Coherent-nil env G initial, (λ j d f. inl f), Clients-nil env G) in
      let now : IsCoherent env G r =
        subst (IsCoherent env G) (ap (λ (p : Outcome (AgentInstance T) × AgentRegistry T). p.1) e) (
          after-IsCoherent env G sdk construct (get_agent role force_new) start (λ j d x. absurd x)
            before) in
      let holds : Holds role a r =
        Returns-use (Holds role) _ a r (got-Holds role force_new start) e in
      let (c, found, m) = now.0 role a holds.0 in (c, found, m, cached_again role a r holds)
