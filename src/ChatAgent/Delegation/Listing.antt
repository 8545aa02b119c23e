-- ===== src/ChatAgent/Delegation/Listing.antt =====
-- The tool of delegation of lib/chat-agent.js through the methods that change the specialists.
use gemini_agent_lib.Prelude.{
  String, ◌≡◌, refl, ap, ◌∙◌, Bool, true, false, Option, none, some, List, [], ◌∷◌, any, is_empty,
  or_else, Bool-cases, inl, inr, arith, if◌then◌else◌,
}
use gemini_agent_lib.Prelude.Dict.{Dict, put, remove}
use gemini_agent_lib.AgentRegistry
use gemini_agent_lib.AgentRegistry.{AgentRegistry, SpecialistConfig}
use gemini_agent_lib.Agent.{Tool, is_nil}
use gemini_agent_lib.ChatAgent.{ChatAgent}
use gemini_agent_lib.ChatAgent.Delegation.{
  is_delegation, delegation_tool, update_tool, put_tool, drop_tool, set_specialist_agents_config,
  register_specialist, unregister_specialist, enable_specialist_delegation,
  disable_specialist_delegation, get_available_specialist_roles, DelegationCall, set_config,
  register, unregister, enable, disable, after, after_all,
}

abbrev pub roles_in : {T : Type 0} → AgentRegistry T → List String
roles_in r = AgentRegistry.get_available_specialist_roles r

-- the agent, but for the members that these methods change
abbrev delegating :
    {T W : Type 0} → ChatAgent T W → List (Tool W) → Bool → Option (AgentRegistry T) → ChatAgent T W
delegating c tools enabled registry = record c {
  tools = tools;
  specialist_delegation_enabled = enabled;
  agent_registry = registry;
}

-- An agent whose other tools are `given`: delegation is off, or on without its tool, or on with
-- the tool in front, which lists the roles that the registry has.
pub data Told {T W : Type 0} (c : ChatAgent T W) (given : List (Tool W))
    : ChatAgent T W → Type 0 where
  off : (o : Option (AgentRegistry T)) → Told c given (delegating c given false o)
  silent : (r : AgentRegistry T) → Told c given (delegating c given true (some r))
  told :
      (r : AgentRegistry T)
      → Told c given (delegating c (delegation_tool (roles_in r) ∷ given) true (some r))

module _ {W : Type 0} where
  update_absent :
      (t : Tool W) (ts : List (Tool W)) → any is_delegation ts ≡ false → update_tool t ts ≡ ts
  update_absent t [] h = refl
  update_absent t (u ∷ us) h = ground (arith, update_absent t us)

  drop_absent : (ts : List (Tool W)) → any is_delegation ts ≡ false → drop_tool ts ≡ ts
  drop_absent [] h = refl
  drop_absent (u ∷ us) h = ground (arith, drop_absent us)

module _ {T W : Type 0} (c : ChatAgent T W) (given : List (Tool W))
    (absent : any is_delegation given ≡ false) where
  set_config-Told :
      (o : Option (Dict (SpecialistConfig T))) (d : ChatAgent T W)
      → Told c given d
      → Told c given (set_specialist_agents_config o d).1
  unfolding set_specialist_agents_config AgentRegistry.set_specialist_agents_config delegation_tool
  set_config-Told o _ (off r) = off r
  set_config-Told none _ (silent r) = silent r
  set_config-Told none _ (told r) = told r
  set_config-Told (some config) _ (silent r) = rw absent (told _)
  set_config-Told (some config) _ (told r) = told _

  register-Told :
      (role : String) (o : Option (SpecialistConfig T)) (d : ChatAgent T W)
      → Told c given d
      → Told c given (register_specialist role o d).1
  unfolding register_specialist AgentRegistry.register_specialist delegation_tool
  register-Told role o _ (off r) = off r
  register-Told role none _ (silent r) = elim (Bool-cases (is_empty role)) [
    | inl e ↦ rw e (silent r)
    | inr e ↦ rw e (silent r)
  ]
  register-Told role none _ (told r) = elim (Bool-cases (is_empty role)) [
    | inl e ↦ rw e (told r)
    | inr e ↦ rw e (told r)
  ]
  register-Told role (some config) _ (silent r) = elim (Bool-cases (is_empty role)) [
    | inl e ↦ rw e (silent r)
    | inr e ↦ rw (e, update_absent _ given absent) (silent _)
  ]
  register-Told role (some config) _ (told r) = elim (Bool-cases (is_empty role)) [
    | inl e ↦ rw e (told r)
    | inr e ↦ rw e (told _)
  ]

  unregister-Told :
      (role : String) (d : ChatAgent T W)
      → Told c given d
      → Told c given (unregister_specialist role d).1
  unfolding unregister_specialist delegation_tool
  unregister-Told role _ (off r) = off r
  unregister-Told role _ (silent r) = rw (update_absent _ given absent) (silent _)
  unregister-Told role _ (told r) = told _

  new-Told :
      (o : Option (AgentRegistry T)) (r : AgentRegistry T)
      → Told c given (
          delegating c
            (if is_nil (roles_in r) then given else put_tool (delegation_tool (roles_in r)) given)
            true
            (some r))
  new-Told o r = elim (Bool-cases (is_nil (roles_in r))) [
    | inl e ↦ rw e (silent r)
    | inr e ↦ rw (e, absent) (told r)
  ]

  enable-Told :
      (o : Option (Dict (SpecialistConfig T))) (d : ChatAgent T W)
      → Told c given d
      → Told c given (enable_specialist_delegation o d).1
  unfolding enable_specialist_delegation
  enable-Told o _ (off r) = new-Told r (AgentRegistry.new (or_else o []))
  enable-Told none _ (silent r) = silent r
  enable-Told none _ (told r) = told r
  enable-Told (some config) _ (silent r) = set_config-Told (some config) _ (silent r)
  enable-Told (some config) _ (told r) = set_config-Told (some config) _ (told r)

  disable-Told :
      (d : ChatAgent T W) → Told c given d → Told c given (disable_specialist_delegation d)
  unfolding disable_specialist_delegation delegation_tool
  disable-Told _ (off r) = off r
  disable-Told _ (silent r) = rw (drop_absent given absent) (off (some r))
  disable-Told _ (told r) = off (some r)

  after-Told :
      (k : DelegationCall T) (d : ChatAgent T W) → Told c given d → Told c given (after k d)
  unfolding after
  after-Told (set_config o) d t = set_config-Told o d t
  after-Told (register role o) d t = register-Told role o d t
  after-Told (unregister role) d t = unregister-Told role d t
  after-Told (enable o) d t = enable-Told o d t
  after-Told disable d t = disable-Told d t

  pub after_all-keeps_Told :
      (ks : List (DelegationCall T)) (d : ChatAgent T W)
      → Told c given d
      → Told c given (after_all ks d)
  unfolding after_all
  after_all-keeps_Told [] d t = t
  after_all-keeps_Told (k ∷ ks) d t = after_all-keeps_Told ks (after k d) (after-Told k d t)

abbrev alone : {T : Type 0} → String → SpecialistConfig T → AgentRegistry T
alone role config = record {
  configs = (role, config) ∷ [];
  llm_instances = [];
  agent_instances = [];
  created = 0;
}

module _ {T W : Type 0} where
  enabled_empty :
      (c : ChatAgent T W)
      → c.specialist_delegation_enabled ≡ false
      → after (enable none) c ≡ delegating c c.tools true (some (AgentRegistry.new []))
  unfolding after enable_specialist_delegation AgentRegistry.new
      AgentRegistry.get_available_specialist_roles
  enabled_empty c e = rw e refl

  registered_first :
      (c : ChatAgent T W) (role : String) (config : SpecialistConfig T)
      → any is_delegation c.tools ≡ false
      → is_empty role ≡ false
      → (register_specialist role
          (some config)
          (delegating c c.tools true (some (AgentRegistry.new [])))).1
        ≡ delegating c c.tools true (some (alone role config))
  unfolding register_specialist AgentRegistry.register_specialist AgentRegistry.new put remove
  registered_first c role config absent named = rw (named, update_absent _ c.tools absent) refl

  -- Where delegation is enabled without configurations, and a specialist registered then: the
  -- agent has that specialist, and its delegation is enabled, but no tool is added for it, so the
  -- model is never told that it can delegate.
  pub enable-register_silent :
      (c : ChatAgent T W) (role : String) (config : SpecialistConfig T)
      → any is_delegation c.tools ≡ false
      → c.specialist_delegation_enabled ≡ false
      → is_empty role ≡ false
      → (get_available_specialist_roles
            (after (register role (some config)) (after (enable none) c))
          ≡ role ∷ [])
        × ((after (register role (some config)) (after (enable none) c)).tools ≡ c.tools)
  unfolding after get_available_specialist_roles AgentRegistry.get_available_specialist_roles
  enable-register_silent c role config absent e named =
      let step : after (register role (some config)) (after (enable none) c)
          ≡ delegating c c.tools true (some (alone role config)) =
        ap (after (register role (some config))) (enabled_empty c e)
        ∙ registered_first c role config absent named in
      (ap get_available_specialist_roles step, ap (λ d. d.tools) step)
