-- ===== src/ChatManager/Identity.antt =====
-- One agent for each session: identifiers that differ only in the blanks around them are one
-- session, and an ended session is no longer there.
use gemini_agent_lib.Prelude.{
  ℕ, suc, String, ◌≡◌, refl, Bool, true, false, Option, none, some, if◌then◌else◌, is_empty, trim,
}
use gemini_agent_lib.Prelude.Dict.{get, put, get-put_self, get-remove_self}
use gemini_agent_lib.Prelude.Action.{Outcome, returned, thrown, continue, Returns, Returns-use}
use gemini_agent_lib.ChatAgents.{ChatAgents, AgentOptions}
use gemini_agent_lib.ChatManager.{
  ChatManager, on_world, open_session, agent_config, get_or_create_session, end_session,
}

module _ {T M W : Type 0} (agents : ChatAgents T M W) where
  abbrev IsOpen : String → ℕ → ChatManager T M W → Type 0
  IsOpen id a c = get c.active_sessions id ≡ some a

  constructed-IsOpen :
      (id : String) (c : ChatManager T M W) (p : Outcome (Unit {0}) × W)
      → Returns (IsOpen id) (
          continue
            (continue
              (on_world (λ w. p) c)
              (λ u c'. (returned c.created, record c' { created = suc c.created })))
            (λ a c'. (returned a, record c' { active_sessions = put c'.active_sessions id a })))
  constructed-IsOpen id c (thrown e, w) = tt
  constructed-IsOpen id c (returned u, w) = get-put_self c.active_sessions id c.created

  open_session-IsOpen :
      (options : AgentOptions T) (id : String) (o : Option ℕ) (c : ChatManager T M W)
      → get c.active_sessions id ≡ o
      → Returns (IsOpen id) (open_session agents options id o c)
  open_session-IsOpen options id (some a) c e = e
  open_session-IsOpen options id none c e =
      constructed-IsOpen id c (agents.construct c.created (agent_config c options id) c.world)

  session-IsOpen :
      (id : String) (options : AgentOptions T) (c : ChatManager T M W)
      → Returns
          (λ a c'. (is_empty (trim id) ≡ false) × IsOpen (trim id) a c')
          (get_or_create_session agents id options c)
  unfolding get_or_create_session
  session-IsOpen id options c =
      tested (is_empty (trim id)) refl _ _
        (open_session-IsOpen options (trim id) (get c.active_sessions (trim id)) c refl)
    where
      tested :
          (blank : Bool)
          → is_empty (trim id) ≡ blank
          → (e : String) → (p : Outcome ℕ × ChatManager T M W) → Returns (IsOpen (trim id)) p
          → Returns
              (λ a c'. (is_empty (trim id) ≡ false) × IsOpen (trim id) a c')
              (if blank then (thrown e, c) else p)
      tested true named e p h = tt
      tested false named e (returned a, c') h = (named, h)
      tested false named e (thrown x, c') h = tt

  -- Once `getOrCreateSession` has returned an agent, it returns that agent for every identifier
  -- that is the same but for the blanks around it, whatever the options, and changes nothing.
  pub get_or_create_session-again :
      (id id' : String) (options options' : AgentOptions T) (c c' : ChatManager T M W) (a : ℕ)
      → get_or_create_session agents id options c ≡ (returned a, c')
      → trim id' ≡ trim id
      → get_or_create_session agents id' options' c' ≡ (returned a, c')
  unfolding get_or_create_session
  get_or_create_session-again id id' options options' c c' a e same =
      let (named, found) =
        Returns-use (λ a c'. (is_empty (trim id) ≡ false) × IsOpen (trim id) a c') _ a c'
          (session-IsOpen id options c) e in
      rw (same, named, found) refl

  -- After `getOrCreateSession` has returned an agent for an identifier that is not empty,
  -- `endSession` finds the session, and leaves no agent for it.
  pub end_session-get :
      (id : String) (options : AgentOptions T) (c c' : ChatManager T M W) (a : ℕ)
      → is_empty id ≡ false
      → get_or_create_session agents id options c ≡ (returned a, c')
      → ((end_session id c').0 ≡ true)
        × (get (end_session id c').1.active_sessions (trim id) ≡ none)
  unfolding end_session
  end_session-get id options c c' a given e =
      let (named, found) =
        Returns-use (λ a c'. (is_empty (trim id) ≡ false) × IsOpen (trim id) a c') _ a c'
          (session-IsOpen id options c) e in
      (rw (given, found) refl, rw (given, found) (get-remove_self c'.active_sessions (trim id)))
