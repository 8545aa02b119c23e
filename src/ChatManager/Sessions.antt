-- ===== src/ChatManager/Sessions.antt =====
-- The sessions of a manager: each agent has been made, and what one session does leaves the
-- others alone.
use gemini_agent_lib.Prelude.{
  ℕ, suc, ◌<◌, ◌≤◌, String, ◌≡◌, refl, Option, none, some, inl, inr, Bool-cases, arith, is_empty,
  trim,
}
use gemini_agent_lib.Prelude.Dict.{get, put, put-eq-some, remove-eq-some}
use gemini_agent_lib.Prelude.Action.{Outcome, returned, thrown, continue, Ends, Ends-if}
use gemini_agent_lib.ChatAgents.{ChatAgents, Memories, AgentOptions}
use gemini_agent_lib.ChatManager.{
  ChatManager, end_found, end_session, clear_session_history, shutdown, on_world, open_session,
  agent_config, get_or_create_session,
}

pub record IsManaged {T M W : Type 0} (n : ℕ) (c : ChatManager T M W) : Type 0 where
  pub made : (id : String) (a : ℕ) → get c.active_sessions id ≡ some a → a < c.created
  pub grown : n ≤ c.created

module _ {T M W : Type 0} where
  end_found-IsManaged :
      (id : String) (o : Option ℕ) (c : ChatManager T M W)
      → IsManaged c.created c
      → IsManaged c.created (end_found id o c).1
  end_found-IsManaged id none c h = h
  end_found-IsManaged id (some a) c h = record {
    made = λ j b e. h.made j b (remove-eq-some c.active_sessions id j b e).1;
    grown = h.grown;
  }

  pub end_session-IsManaged :
      (id : String) (c : ChatManager T M W)
      → IsManaged c.created c
      → IsManaged c.created (end_session id c).1
  unfolding end_session
  end_session-IsManaged id c h = elim (Bool-cases (is_empty id)) [
    | inl e ↦ rw e h
    | inr e ↦ rw e (end_found-IsManaged (trim id) (get c.active_sessions (trim id)) c h)
  ]

module _ {T M W : Type 0} (agents : ChatAgents T M W) (memories : Memories M W) where
  pub clear-IsManaged :
      (id : String) (c : ChatManager T M W)
      → IsManaged c.created c
      → IsManaged c.created (clear_session_history agents memories id c).1
  unfolding clear_session_history
  clear-IsManaged id c h = elim (Bool-cases (is_empty (trim id))) [
    | inl e ↦ rw e h
    | inr e ↦ rw e (record { made = h.made; grown = h.grown })
  ]

  pub shutdown-IsManaged :
      (c : ChatManager T M W) → IsManaged c.created (shutdown agents memories c)
  unfolding shutdown
  shutdown-IsManaged c = record { made = λ id a e. unfold get in cc e; grown = omega arith }

module _ {T M W : Type 0} (agents : ChatAgents T M W) where
  constructed-Ends :
      (id : String) (c : ChatManager T M W) (p : Outcome (Unit {0}) × W)
      → ((id : String) (a : ℕ) → get c.active_sessions id ≡ some a → a < c.created)
      → Ends
          (IsManaged c.created)
          (λ a c'. IsManaged c.created c' × (a < c'.created))
          (continue
            (continue
              (on_world (λ w. p) c)
              (λ u c'. (returned c.created, record c' { created = suc c.created })))
            (λ a c'. (returned a, record c' { active_sessions = put c'.active_sessions id a })))
  constructed-Ends id c (thrown e, w) made = record { made = made; grown = omega arith }
  constructed-Ends id c (returned u, w) made = (
    record {
      made = λ j a e. elim (put-eq-some c.active_sessions id j c.created a e) [
        | inl (same, value) ↦ omega (arith, value)
        | inr (other, old) ↦ omega (arith, made j a old)
      ];
      grown = omega arith;
    },
    omega arith,
  )

  open-Ends :
      (options : AgentOptions T) (id : String) (o : Option ℕ) (c : ChatManager T M W)
      → ((id : String) (a : ℕ) → get c.active_sessions id ≡ some a → a < c.created)
      → get c.active_sessions id ≡ o
      → Ends
          (IsManaged c.created)
          (λ a c'. IsManaged c.created c' × (a < c'.created))
          (open_session agents options id o c)
  open-Ends options id (some a) c made e =
      (record { made = made; grown = omega arith }, made id a e)
  open-Ends options id none c made e =
      constructed-Ends id c (agents.construct c.created (agent_config c options id) c.world) made

  -- what `getOrCreateSession` leaves
  pub session-Ends :
      (id : String) (options : AgentOptions T) (c : ChatManager T M W)
      → ((id : String) (a : ℕ) → get c.active_sessions id ≡ some a → a < c.created)
      → Ends
          (IsManaged c.created)
          (λ a c'. IsManaged c.created c' × (a < c'.created))
          (get_or_create_session agents id options c)
  unfolding get_or_create_session
  session-Ends id options c made =
      Ends-if (IsManaged c.created) (λ a c'. IsManaged c.created c' × (a < c'.created))
        (is_empty (trim id)) _ _ (record { made = made; grown = omega arith })
        (open-Ends options (trim id) (get c.active_sessions (trim id)) c made refl)
