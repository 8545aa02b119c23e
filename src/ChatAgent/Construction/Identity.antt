-- ===== src/ChatAgent/Construction/Identity.antt =====
-- What the constructor of lib/chat-agent.js makes of its argument: the identifier of the chat, and
-- the tool of delegation.
use gemini_agent_lib.Prelude.{
  String, ◌≡◌, refl, subst, sym, true, false, Option, none, some, List, [], is_empty, or_else, trim,
  trim_idem, any, arith, ◌∙◌, ap, Bool-cases, ◌⊎◌, inl, inr,
}
use gemini_agent_lib.Prelude.Dict.{Dict}
use gemini_agent_lib.Prelude.Action.{Outcome, returned, thrown}
use gemini_agent_lib.AgentRegistry
use gemini_agent_lib.AgentRegistry.{AgentRegistry, SpecialistConfig}
use gemini_agent_lib.Agent.{is_nil}
use gemini_agent_lib.ChatAgent.{ChatLlm, ChatAgent}
use gemini_agent_lib.ChatAgent.Delegation.{
  is_delegation, setup_specialist_delegation, DelegationCall, after_all,
}
use gemini_agent_lib.ChatAgent.Delegation.Listing.{Told, off, told, roles_in, after_all-keeps_Told}
use gemini_agent_lib.ChatAgent.Construction.{
  Options, valid_id, chosen_id, has_memory, plain, with_setup, model_of, built, new,
}

module _ {T W : Type 0} where
  abbrev idle : ChatAgent T W → ChatAgent T W
  idle c = record c { specialist_delegation_enabled = false }

  setup-Told :
      (o : Option (AgentRegistry T)) (d : Dict (SpecialistConfig T)) (role objective : String)
      (c : ChatAgent T W)
      → Told
          (setup_specialist_delegation o d role objective (idle c))
          c.tools
          (setup_specialist_delegation o d role objective (idle c))
  unfolding setup_specialist_delegation
  setup-Told o d role objective c =
      elim (Bool-cases (is_nil (roles_in (or_else o (AgentRegistry.new d))))) [
        | inl e ↦ rw e (off (some (or_else o (AgentRegistry.new d))))
        | inr e ↦ rw e (told (or_else o (AgentRegistry.new d)))
      ]

  with_setup-Told :
      (o : Options T W) (c : ChatAgent T W)
      → Told (with_setup o (idle c)) c.tools (with_setup o (idle c))
  unfolding with_setup
  with_setup-Told o c = elim (Bool-cases (or_else o.enable_specialist_delegation false)) [
    | inl e ↦
        rw e
          (setup-Told o.agent_registry (or_else o.specialist_agents_config []) o.role o.objective c)
    | inr e ↦ rw e (off c.agent_registry)
  ]

  built-Told :
      (o : Options T W) (uuid : String) (m : Outcome (ChatLlm W)) (c : ChatAgent T W)
      → built o uuid m ≡ returned c
      → Told c (or_else o.tools []) c
  unfolding plain
  built-Told o uuid (returned llm) c e =
      let same : with_setup o (plain o llm uuid) ≡ c = ground (arith, e) in
      subst (λ x. Told x (or_else o.tools []) x) same (with_setup-Told o (plain o llm uuid))
  built-Told o uuid (thrown x) c e = ground (arith, e)

  -- After any calls of the methods on delegation on an agent that the constructor made from tools
  -- none of which is named `delegate_task_to_specialist`, throwing or not: the agent has those
  -- tools, in order, and a tool of that name only in front of them, only while delegation is
  -- enabled, and then it lists exactly the roles that the registry has now. No member but the
  -- tools, the registry and the flag of delegation has changed.
  pub after_all-Told :
      (default_llm : Outcome (ChatLlm W)) (uuid : String) (o : Options T W) (c : ChatAgent T W)
      (ks : List (DelegationCall T))
      → new default_llm uuid o ≡ returned c
      → any is_delegation (or_else o.tools []) ≡ false
      → Told c (or_else o.tools []) (after_all ks c)
  unfolding new
  after_all-Told default_llm uuid o c ks e absent =
      after_all-keeps_Told c (or_else o.tools []) absent ks c
        (built-Told o uuid (model_of o default_llm) c e)

  setup-chat_id :
      (o : Option (AgentRegistry T)) (d : Dict (SpecialistConfig T)) (role objective : String)
      (c : ChatAgent T W)
      → (setup_specialist_delegation o d role objective c).chat_id ≡ c.chat_id
  unfolding setup_specialist_delegation
  setup-chat_id o d role objective c =
      elim (Bool-cases (is_nil (roles_in (or_else o (AgentRegistry.new d))))) [
        | inl e ↦ rw e refl
        | inr e ↦ rw e refl
      ]

  with_setup-chat_id : (o : Options T W) (c : ChatAgent T W) → (with_setup o c).chat_id ≡ c.chat_id
  unfolding with_setup
  with_setup-chat_id o c = elim (Bool-cases (or_else o.enable_specialist_delegation false)) [
    | inl e ↦ rw e (
        setup-chat_id o.agent_registry (or_else o.specialist_agents_config []) o.role o.objective c)
    | inr e ↦ rw e refl
  ]

  built-chosen_id :
      (o : Options T W) (uuid : String) (m : Outcome (ChatLlm W)) (c : ChatAgent T W)
      → built o uuid m ≡ returned c
      → c.chat_id ≡ chosen_id (valid_id o.chat_id) (has_memory o) uuid
  unfolding plain
  built-chosen_id o uuid (returned llm) c e =
      let same : with_setup o (plain o llm uuid) ≡ c = ground (arith, e) in
      ap (λ x. x.chat_id) (sym same) ∙ with_setup-chat_id o (plain o llm uuid)
  built-chosen_id o uuid (thrown x) c e = ground (arith, e)

-- An identifier that is used is used again as it is.
valid_id-again :
    (o : Option String) (id : String) → valid_id o ≡ some id → valid_id (some id) ≡ some id
unfolding valid_id
valid_id-again none id e = ground (arith, e)
valid_id-again (some s) id e = ground (arith, e, trim_idem s)

-- The identifier that is wanted for an argument: its text without the blanks around it, or the
-- drawn one where there is no text or it is blank.
abbrev pub IdentifiedBy : String → Option String → String → Type 0
IdentifiedBy uuid none id = id ≡ uuid
IdentifiedBy uuid (some s) id =
    ((is_empty (trim s) ≡ false) × (id ≡ trim s)) ⊎ ((is_empty (trim s) ≡ true) × (id ≡ uuid))

identified :
    (uuid : String) (o : Option String) (id : String)
    → chosen_id (valid_id o) true uuid ≡ some id
    → IdentifiedBy uuid o id
unfolding chosen_id valid_id
identified uuid none id e = ground (arith, e)
identified uuid (some s) id e = elim (Bool-cases (is_empty (trim s))) [
  | inl b ↦ inr (b, ground (arith, e, b))
  | inr b ↦ inl (b, ground (arith, e, b))
]

chosen_id-again :
    (o u : Option String) (uuid : String)
    → valid_id o ≡ u
    → valid_id (some uuid) ≡ some uuid
    → (id : String) × (chosen_id u true uuid ≡ some id) × (valid_id (some id) ≡ some id)
unfolding chosen_id
chosen_id-again o none uuid e v = (uuid, refl, v)
chosen_id-again o (some id) uuid e v = (id, refl, valid_id-again o id e)

valid-uuid : (s : String) → trim s ≡ s → is_empty s ≡ false → valid_id (some s) ≡ some s
unfolding valid_id
valid-uuid s e k = rw (e, k) refl

-- An identifier that is used is trimmed, and not blank.
valid_id-trimmed :
    (o : Option String) (id : String)
    → valid_id o ≡ some id
    → (trim id ≡ id) × (is_empty (trim id) ≡ false)
unfolding valid_id
valid_id-trimmed none id e = ground (arith, e)
valid_id-trimmed (some s) id e = ground (arith, e, trim_idem s)

module _ {T W : Type 0} where
  -- An agent with a memory of any kind has an identifier of its chat that is trimmed and not
  -- blank, if the one that may be drawn is: that of its argument, trimmed, where that is not
  -- blank, and else the drawn one. Another agent that is given that identifier has the same one,
  -- whatever is drawn for it.
  pub new-chat_id :
      (default_llm : Outcome (ChatLlm W)) (uuid : String) (o : Options T W) (c : ChatAgent T W)
      (uuid' : String) (o' : Options T W) (c' : ChatAgent T W)
      → new default_llm uuid o ≡ returned c
      → has_memory o ≡ true
      → trim uuid ≡ uuid
      → is_empty uuid ≡ false
      → new default_llm uuid' o' ≡ returned c'
      → o'.chat_id ≡ c.chat_id
      → (id : String) × (c.chat_id ≡ some id)
        × (trim id ≡ id)
        × (is_empty (trim id) ≡ false)
        × IdentifiedBy uuid o.chat_id id
        × (c'.chat_id ≡ some id)
  unfolding new chosen_id
  new-chat_id default_llm uuid o c uuid' o' c' e memory trimmed drawn e' same =
      let p = built-chosen_id o uuid (model_of o default_llm) c e in
      let (id, q, again) =
        chosen_id-again o.chat_id (valid_id o.chat_id) uuid refl (valid-uuid uuid trimmed drawn) in
      let first : c.chat_id ≡ some id =
        p ∙ ap (λ b. chosen_id (valid_id o.chat_id) b uuid) memory ∙ q in
      let p' = built-chosen_id o' uuid' (model_of o' default_llm) c' e' in
      (
        id,
        first,
        (valid_id-trimmed (some id) id again).0,
        (valid_id-trimmed (some id) id again).1,
        identified uuid o.chat_id id q,
        p'
            ∙ ap (λ x. chosen_id (valid_id x) (has_memory o') uuid') (same ∙ first)
            ∙ ap (λ x. chosen_id x (has_memory o') uuid') again,
      )
