-- ===== src/RoutingChatManager/Coherence.antt =====
-- The sessions of a manager stay consistent, and apart from one another.
use gemini_agent_lib.Prelude.{
  ℕ, ◌<◌, ◌≤◌, String, ◌≡◌, refl, sym, ap, ◌∙◌, subst, Bool, false, Option, none, some, List, [],
  ◌∷◌, inl, inr, arith,
}
use gemini_agent_lib.Prelude.Dict.{Dict, get, put, put-eq-some, remove-eq-some}
use gemini_agent_lib.Prelude.Action.{
  Outcome, returned, thrown, Action, pure, ◌>>◌, Ends, Ends-continue, Ends-handled, Ends-always,
  Ends-state,
}
use gemini_agent_lib.AgentRegistry.{SpecialistConfig}
use gemini_agent_lib.ChatAgents.{ChatAgents, AgentOptions, Memories}
use gemini_agent_lib.ChatManager
use gemini_agent_lib.ChatManager.{
  LlmSettings, MemorySettings, MemoryAdapter, check_settings, with_llm, with_settings, ChatManager,
  on_world, sorry_reply,
}
use gemini_agent_lib.RoutingChatManager.Session.{SessionState, new_state}
use gemini_agent_lib.RoutingChatManager
use gemini_agent_lib.RoutingChatManager.{
  over, clear_each, Call, open_call, process_call, end_call, clear_call, shutdown_call, after,
  after_all, with_request, RoutingChatManager, on_reply, answer_as_specialist, take_pending,
  hand_back, on_end, on_request, on_signal, route, send, dispatch, turn, run_turn, process_message,
  get_or_create_session_state, open_state, state_opened, end_session, clear_session_history,
  shutdown, clear_found, clear_state, state_cleared,
}
use gemini_agent_lib.RoutingChatManager.Invariant.{IsRouted}
use gemini_agent_lib.ChatManager.Sessions.{
  IsManaged, session-Ends, end_session-IsManaged, clear-IsManaged, shutdown-IsManaged,
}
use gemini_agent_lib.RoutingChatManager.Turns.{turn-IsTurn, no_pending-IsActive}

-- Each state of a session is consistent, and the agents of the base class have been made.
pub record IsCoherent {T M W : Type 0} (r : RoutingChatManager T M W) : Type 0 where
  pub states :
      (id : String) (st : SessionState)
      → get r.session_states id ≡ some st
      → IsRouted r.base.created st
  pub sessions : (id : String) (a : ℕ) → get r.base.active_sessions id ≡ some a → a < r.base.created

grown-IsRouted : (m n : ℕ) (st : SessionState) → m ≤ n → IsRouted m st → IsRouted n st
grown-IsRouted m n st le h = record {
  primary_made = omega (arith, h.primary_made, le);
  instances_made = λ role a e. ground (arith, h.instances_made role a e);
  active = h.active;
}

new_state-IsRouted : (n a : ℕ) → a < n → IsRouted n (new_state a)
new_state-IsRouted n a le = record {
  primary_made = le;
  instances_made = λ role a e. unfold get in cc e;
  active = refl;
}

module _ {T M W : Type 0} (agents : ChatAgents T M W) where
  -- What one session's write leaves.
  written-IsCoherent :
      (r : RoutingChatManager T M W) (c : ChatManager T M W) (id : String) (st : SessionState)
      → IsCoherent r
      → r.base.created ≤ c.created
      → ((id : String) (a : ℕ) → get c.active_sessions id ≡ some a → a < c.created)
      → IsRouted c.created st
      → IsCoherent (record r { base = c; session_states = put r.session_states id st })
  written-IsCoherent r c id st h le made routed = record {
    states = λ j st' e. elim (put-eq-some r.session_states id j st st' e) [
      | inl (same, value) ↦ subst (IsRouted c.created) value routed
      | inr (other, old) ↦ grown-IsRouted r.base.created c.created st' le (h.states j st' old)
    ];
    sessions = made;
  }

  run_turn-IsCoherent :
      (id message : String) (st : SessionState) (r : RoutingChatManager T M W)
      → IsCoherent r
      → IsRouted r.base.created st
      → IsCoherent (run_turn agents id message st r).1
  run_turn-IsCoherent id message st r h routed =
      let s = (turn agents r.finish r.specialist_registry message (st, r.base)).1 in
      let after =
        turn-IsTurn agents r.base.created r.base.active_sessions r.finish r.specialist_registry
          message (st, r.base)
          (record { routed = routed; grown = omega arith; same_sessions = refl }) in
      written-IsCoherent r s.1 id s.0 h after.grown
        (λ j a e.
          omega
            (arith, h.sessions j a (ap (λ d. get d j) (sym after.same_sessions) ∙ e), after.grown))
        after.routed

  opened-Ends :
      (id : String) (r : RoutingChatManager T M W) (p : Outcome ℕ × ChatManager T M W)
      → IsCoherent r
      → Ends (IsManaged r.base.created) (λ a c. IsManaged r.base.created c × (a < c.created)) p
      → Ends IsCoherent
          (λ st r. IsCoherent r × IsRouted r.base.created st)
          (state_opened agents id p.0 (record r { base = p.1 }))
  opened-Ends id r (thrown e, c) h managed = record {
    states = λ j st e. grown-IsRouted r.base.created c.created st managed.grown (h.states j st e);
    sessions = managed.made;
  }
  opened-Ends id r (returned a, c) h (managed, le) =
      let routed = new_state-IsRouted c.created a le in
      (written-IsCoherent r c id (new_state a) h managed.grown managed.made routed, routed)

  open_state-Ends :
      (id : String) (options : AgentOptions T) (o : Option SessionState)
      (r : RoutingChatManager T M W)
      → IsCoherent r
      → get r.session_states id ≡ o
      → Ends IsCoherent
          (λ st r. IsCoherent r × IsRouted r.base.created st)
          (open_state agents id options o r)
  open_state-Ends id options (some st) r h e = (h, h.states id st e)
  open_state-Ends id options none r h e =
      opened-Ends id r
        (ChatManager.get_or_create_session agents id (with_request r.request options) r.base) h
        (session-Ends agents id (with_request r.request options) r.base h.sessions)

  process-IsCoherent :
      (id message : String) (options : AgentOptions T) (r : RoutingChatManager T M W)
      → IsCoherent r
      → IsCoherent (process_message agents id message options r).1
  unfolding process_message get_or_create_session_state
  process-IsCoherent id message options r h = Ends-state IsCoherent _ (
      Ends-handled IsCoherent (λ a r. IsCoherent r) _ (λ e. pure sorry_reply)
        (Ends-continue IsCoherent (λ st r. IsCoherent r × IsRouted r.base.created st)
          (λ a r. IsCoherent r) (open_state agents id options (get r.session_states id) r)
          (run_turn agents id message)
          (open_state-Ends id options (get r.session_states id) r h refl)
          (λ st r both.
            Ends-always IsCoherent (run_turn agents id message st r)
              (run_turn-IsCoherent id message st r both.0 both.1)))
        (λ e r h. h))

  open-IsCoherent :
      (id : String) (options : AgentOptions T) (r : RoutingChatManager T M W)
      → IsCoherent r
      → IsCoherent (get_or_create_session_state agents id options r).1
  unfolding get_or_create_session_state
  open-IsCoherent id options r h =
      Ends-state IsCoherent (open_state agents id options (get r.session_states id) r)
        (both-Ends _ (open_state-Ends id options (get r.session_states id) r h refl))
    where
      both-Ends :
          (p : Outcome SessionState × RoutingChatManager T M W)
          → Ends IsCoherent (λ st r. IsCoherent r × IsRouted r.base.created st) p
          → Ends IsCoherent (λ st r. IsCoherent r) p
      both-Ends (returned st, r) h = h.0
      both-Ends (thrown e, r) h = h

base-IsManaged :
    {T M W : Type 0}
    → (r : RoutingChatManager T M W) → IsCoherent r
    → IsManaged r.base.created r.base
base-IsManaged r h = record { made = h.sessions; grown = omega arith }

-- The base class alone goes on.
with_base-IsCoherent :
    {T M W : Type 0}
    → (r : RoutingChatManager T M W) (c : ChatManager T M W) → IsCoherent r
    → IsManaged r.base.created c
    → IsCoherent (record r { base = c })
with_base-IsCoherent r c h managed = record {
  states = λ j st e. grown-IsRouted r.base.created c.created st managed.grown (h.states j st e);
  sessions = managed.made;
}

end-IsCoherent :
    {T M W : Type 0}
    → (id : String) (r : RoutingChatManager T M W) → IsCoherent r
    → IsCoherent (end_session id r).1
unfolding end_session
end-IsCoherent id r h =
    let managed = end_session-IsManaged id r.base (base-IsManaged r h) in
    record {
      states = λ j st e.
          grown-IsRouted r.base.created _ st managed.grown
            (h.states j st (remove-eq-some r.session_states id j st e).1);
      sessions = managed.made;
    }

module _ {T M W : Type 0} (agents : ChatAgents T M W) (memories : Memories M W) where
  no_pending-IsRouted :
      (n : ℕ) (st : SessionState)
      → IsRouted n st
      → IsRouted n (record st { pending_specialist_result = none })
  no_pending-IsRouted n st h = record {
    primary_made = h.primary_made;
    instances_made = h.instances_made;
    active = no_pending-IsActive st.active_specialist_role st h.active;
  }

  cleared-IsCoherent :
      (id : String) (st : SessionState) (r : RoutingChatManager T M W) (o : Outcome (Unit {0}))
      (w : W)
      → IsCoherent r
      → get r.session_states id ≡ some st
      → IsCoherent
          (state_cleared agents memories id st o
            (record r { base = record r.base { world = w } })).1
  cleared-IsCoherent id st r (thrown x) w h e = record { states = h.states; sessions = h.sessions }
  cleared-IsCoherent id st r (returned u) w h e =
      written-IsCoherent agents r (record r.base { world = w }) id
        (record st { pending_specialist_result = none }) h (omega arith) h.sessions
        (no_pending-IsRouted r.base.created st (h.states id st e))

  clear-IsCoherent :
      (id : String) (o : Option SessionState) (r : RoutingChatManager T M W)
      → IsCoherent r
      → get r.session_states id ≡ o
      → IsCoherent (clear_found agents memories id o r).1
  clear-IsCoherent id (some st) r h e =
      cleared-IsCoherent id st r
        (on_world
          (agents.clear_history st.primary_agent
            >> clear_each agents memories st.specialist_instances)
          r.base).0
        _ h e
  clear-IsCoherent id none r h e =
      with_base-IsCoherent r _ h (clear-IsManaged agents memories id r.base (base-IsManaged r h))

  after-IsCoherent :
      (call : Call T) (r : RoutingChatManager T M W)
      → IsCoherent r
      → IsCoherent (after agents memories call r)
  unfolding after clear_session_history shutdown
  after-IsCoherent (open_call id options) r h = open-IsCoherent agents id options r h
  after-IsCoherent (process_call id message options) r h =
      process-IsCoherent agents id message options r h
  after-IsCoherent (end_call id) r h = end-IsCoherent id r h
  after-IsCoherent (clear_call id) r h = clear-IsCoherent id (get r.session_states id) r h refl
  after-IsCoherent shutdown_call r h = record {
    states = λ id st e. unfold get in cc e;
    sessions = (shutdown-IsManaged agents memories r.base).made;
  }

  all-IsCoherent :
      (calls : List (Call T)) (r : RoutingChatManager T M W)
      → IsCoherent r
      → IsCoherent (after_all agents memories calls r)
  unfolding after_all
  all-IsCoherent [] r h = h
  all-IsCoherent (call ∷ calls) r h =
      all-IsCoherent calls (after agents memories call r) (after-IsCoherent call r h)

module _ {T M W : Type 0} (construct : MemoryAdapter → T → Action W M) where
  -- a manager without a session
  IsNew : RoutingChatManager T M W → Type 0
  IsNew r = (r.session_states ≡ []) × (r.base.active_sessions ≡ [])

  IsNew-IsCoherent : (r : RoutingChatManager T M W) → IsNew r → IsCoherent r
  unfolding IsNew
  IsNew-IsCoherent r (states, sessions) = record {
    states = λ id st e. unfold get in cc (rw states at e);
    sessions = λ id a e. unfold get in cc (rw sessions at e);
  }

  -- what a constructor that returns has made
  MadeNew : Outcome (RoutingChatManager T M W) → Type 0
  MadeNew (returned r) = IsNew r
  MadeNew (thrown e) = Unit

  llm-MadeNew :
      (request finish : T) (specialists : Dict (SpecialistConfig T)) (options : AgentOptions T)
      (memory : Dict (MemorySettings T)) (share : Bool) (w : W) (o : Outcome (Unit {0}))
      → MadeNew (
          over construct request finish specialists
            (with_llm construct options memory share false w o))
  unfolding MadeNew IsNew
  llm-MadeNew request finish specialists options memory share w (returned u) = (refl, refl)
  llm-MadeNew request finish specialists options memory share w (thrown e) = tt

  settings-MadeNew :
      (request finish : T) (specialists : Dict (SpecialistConfig T))
      (new_llm : LlmSettings → Outcome (Unit {0})) (options : AgentOptions T)
      (memory : Dict (MemorySettings T)) (share : Bool) (w : W) (o : Outcome LlmSettings)
      → MadeNew (
          over construct request finish specialists
            (with_settings construct new_llm options memory share false w o))
  settings-MadeNew request finish specialists new_llm options memory share w (returned c) =
      llm-MadeNew request finish specialists options memory share w (new_llm c)
  settings-MadeNew request finish specialists new_llm options memory share w (thrown e) =
      unfold MadeNew in tt

  made-IsNew :
      (o : Outcome (RoutingChatManager T M W)) (r : RoutingChatManager T M W)
      → MadeNew o
      → o ≡ returned r
      → IsNew r
  made-IsNew o r made e = unfold MadeNew in subst MadeNew e made

module _ {T M W : Type 0} (construct : MemoryAdapter → T → Action W M) (agents : ChatAgents T M W)
    (memories : Memories M W) where
  -- After any calls on a new manager, whatever the agents and the memories do: in each session
  -- without an active role the primary agent is the active one; with one, the active agent is
  -- that role's instance and no result is pending; every agent of a session or of the base class
  -- has been made, and no specialist is its session's primary agent.
  pub after_all-IsCoherent :
      (request finish : T) (new_llm : LlmSettings → Outcome (Unit {0}))
      (settings : Option LlmSettings) (options : AgentOptions T) (memory : Dict (MemorySettings T))
      (share : Bool) (specialists : Dict (SpecialistConfig T)) (w : W)
      (r : RoutingChatManager T M W) (calls : List (Call T))
      → RoutingChatManager.new construct request finish new_llm settings options memory share
          specialists w
        ≡ returned r
      → IsCoherent (after_all agents memories calls r)
  unfolding RoutingChatManager.new ChatManager.new
  after_all-IsCoherent request finish new_llm settings options memory share specialists w r calls
        e =
      all-IsCoherent agents memories calls r (
        IsNew-IsCoherent construct r (
          made-IsNew construct _ r
            (settings-MadeNew construct request finish specialists new_llm options memory share w
              (check_settings settings))
            e))
