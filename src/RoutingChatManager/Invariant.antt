-- ===== src/RoutingChatManager/Invariant.antt =====
-- Which agent a session talks to: the state of a session stays consistent in every turn.
use gemini_agent_lib.Prelude.{
  ℕ, suc, ◌<◌, ◌≤◌, String, ◌≡◌, refl, not, ◌&&◌, Option, none, some, inl, inr, arith, eq_iff,
  Bool-cases,
}
use gemini_agent_lib.Prelude.Dict.{Dict, get, put, put-eq-some, get-put, get-put_self}
use gemini_agent_lib.Prelude.Action.{
  Outcome, returned, thrown, continue, pure, Ends, Ends-continue, Ends-handled,
}
use gemini_agent_lib.Value.{Value, undefined, null, bool, num, str, arr, obj, truthy, get_member}
use gemini_agent_lib.AgentRegistry.{AgentRegistry, SpecialistConfig}
use gemini_agent_lib.ChatAgents.{ChatAgents}
use gemini_agent_lib.ChatManager.{on_world}
use gemini_agent_lib.RoutingChatManager.Session.{
  on_manager, SessionState, Turn, destructured, reverted, activated, create_specialist, specialist,
  activate, has_substring, start_specialist, start_sub_conversation, specialist_config,
}

-- Without a role the active agent is the primary one. With a role it is that role's instance,
-- and no result is pending.
abbrev pub IsActive : Option String → SessionState → Type 0
IsActive none st = st.active_agent ≡ st.primary_agent
IsActive (some role) st =
    (get st.specialist_instances role ≡ some st.active_agent)
    × (st.pending_specialist_result ≡ none)

-- Every agent of a session has been made, and no specialist is its primary agent.
pub record IsRouted (created : ℕ) (st : SessionState) : Type 0 where
  pub primary_made : st.primary_agent < created
  pub instances_made :
      (role : String) (a : ℕ)
      → get st.specialist_instances role ≡ some a
      → (st.primary_agent < a) × (a < created)
  pub active : IsActive st.active_specialist_role st

reverted-IsRouted : (k : ℕ) (st : SessionState) → IsRouted k st → IsRouted k (reverted st)
reverted-IsRouted k st h = record {
  primary_made = h.primary_made;
  instances_made = h.instances_made;
  active = refl;
}

abbrev with_instance : String → ℕ → SessionState → SessionState
with_instance role a st = record st { specialist_instances = put st.specialist_instances role a }

-- An instance for a role that had none takes no role's agent away.
with_instance-IsActive :
    (o : Option String) (k : ℕ) (st : SessionState) (role : String)
    → get st.specialist_instances role ≡ none
    → IsActive o st
    → IsActive o (with_instance role k st)
with_instance-IsActive none k st role new h = h
with_instance-IsActive (some r) k st role new (found, free) =
    (ground (arith, get-put st.specialist_instances role r k, eq_iff role r), free)

with_instance-IsRouted :
    (k : ℕ) (st : SessionState) (role : String)
    → IsRouted k st
    → get st.specialist_instances role ≡ none
    → IsRouted (suc k) (with_instance role k st)
with_instance-IsRouted k st role h new = record {
  primary_made = omega (arith, h.primary_made);
  instances_made = λ j a e. elim (put-eq-some st.specialist_instances role j k a e) [
    | inl (same, value) ↦ ground (arith, h.primary_made)
    | inr (other, old) ↦ ground (arith, h.instances_made j a old)
  ];
  active = with_instance-IsActive st.active_specialist_role k st role new h.active;
}

module _ {T M W : Type 0} (n : ℕ) (sessions : Dict ℕ) where
  -- A turn that began with `n` agents and these sessions has lost none of them.
  pub record IsTurn (s : Turn T M W) : Type 0 where
    pub routed : IsRouted s.1.created s.0
    pub grown : n ≤ s.1.created
    pub same_sessions : s.1.active_sessions ≡ sessions

  pub record IsFree (s : Turn T M W) : Type 0 where
    pub turn : IsTurn s
    pub free : s.0.pending_specialist_result ≡ none

  reverted-IsFree : (s : Turn T M W) → IsFree s → IsFree (reverted s.0, s.1)
  reverted-IsFree s h = record {
    turn = record {
      routed = reverted-IsRouted s.1.created s.0 h.turn.routed;
      grown = h.turn.grown;
      same_sessions = h.turn.same_sessions;
    };
    free = h.free;
  }

  pub destructured-Ends :
      (P : Turn T M W → Type 0) (v : Value) (s : Turn T M W)
      → P s
      → Ends P (λ d s. P s) (destructured v s)
  destructured-Ends P undefined s h = h
  destructured-Ends P null s h = h
  destructured-Ends P (bool b) s h = h
  destructured-Ends P (num k) s h = h
  destructured-Ends P (str t) s h = h
  destructured-Ends P (arr xs) s h = h
  destructured-Ends P (obj fs) s h = h

  -- an instance of the role, in a turn where no result is pending
  pub record HasInstance (role : String) (a : ℕ) (s : Turn T M W) : Type 0 where
    pub is_free : IsFree s
    pub instance_of : get s.0.specialist_instances role ≡ some a

  activated-IsFree :
      (role : String) (a : ℕ) (w : W) (s : Turn T M W)
      → HasInstance role a s
      → IsFree (activated role a s.0, record s.1 { world = w })
  activated-IsFree role a w s h =
      let free = h.is_free in
      let routed = free.turn.routed in
      record {
        turn = record {
          routed = record {
            primary_made = routed.primary_made;
            instances_made = routed.instances_made;
            active = (h.instance_of, free.free);
          };
          grown = free.turn.grown;
          same_sessions = free.turn.same_sessions;
        };
        free = free.free;
      }

module _ {T M W : Type 0} (agents : ChatAgents T M W) (n : ℕ) (sessions : Dict ℕ) where
  activate-Ends :
      (role : String) (details : Value) (a : ℕ) (s : Turn T M W)
      → HasInstance n sessions role a s
      → Ends (IsFree n sessions) (λ u s. IsFree n sessions s) (activate agents role details a s)
  activate-Ends role details a s h =
      let user = get_member details "user_message_for_specialist" in
      let done = activated-IsFree n sessions role a _ s h in
      elim (Bool-cases (truthy user && not (has_substring user))) [
        | inl e ↦ rw e done
        | inr e ↦ rw e done
      ]

  -- the new instance for what its constructor gave
  constructed-Ends :
      (role : String) (s : Turn T M W) (p : Outcome (Unit {0}) × W)
      → IsFree n sessions s
      → get s.0.specialist_instances role ≡ none
      → Ends
          (IsFree n sessions)
          (λ a s. HasInstance n sessions role a s)
          (continue
            (on_manager {A = ℕ}
              (λ c.
                continue
                  (on_world (λ w. p) c)
                  (λ u c'. (returned s.1.created, record c' { created = suc s.1.created })))
              s)
            (λ a s'. pure a (with_instance role a s'.0, s'.1)))
  constructed-Ends role s (returned u, w) h new =
      let turn = h.turn in
      record {
        is_free = record {
          turn = record {
            routed = with_instance-IsRouted s.1.created s.0 role turn.routed new;
            grown = omega (arith, turn.grown);
            same_sessions = turn.same_sessions;
          };
          free = h.free;
        };
        instance_of = get-put_self s.0.specialist_instances role s.1.created;
      }
  constructed-Ends role s (thrown e, w) h new =
      let turn = h.turn in
      record {
        turn = record {
          routed = turn.routed;
          grown = turn.grown;
          same_sessions = turn.same_sessions;
        };
        free = h.free;
      }

  create-Ends :
      (finish : T) (role : String) (config : Option (SpecialistConfig T)) (s : Turn T M W)
      → IsFree n sessions s
      → get s.0.specialist_instances role ≡ none
      → Ends
          (IsFree n sessions)
          (λ a s. HasInstance n sessions role a s)
          (create_specialist agents finish role config s)
  create-Ends finish role none s h new = h
  create-Ends finish role (some config) s h new =
      constructed-Ends role s
        (agents.construct s.1.created (specialist_config agents finish s config) s.1.world) h new

  specialist-Ends :
      (finish : T) (registry : AgentRegistry T) (role : String) (o : Option ℕ) (s : Turn T M W)
      → IsFree n sessions s
      → get s.0.specialist_instances role ≡ o
      → Ends
          (IsFree n sessions)
          (λ a s. HasInstance n sessions role a s)
          (specialist agents finish registry role o s)
  specialist-Ends finish registry role none s h e = create-Ends finish role _ s h e
  specialist-Ends finish registry role (some a) s h e = record { is_free = h; instance_of = e }

  start_specialist-Ends :
      (finish : T) (registry : AgentRegistry T) (role : String) (details : Value) (s : Turn T M W)
      → IsFree n sessions s
      → Ends
          (IsFree n sessions)
          (λ u s. IsFree n sessions s)
          (start_specialist agents finish registry role details s)
  start_specialist-Ends finish registry role details s h =
      let o = get s.0.specialist_instances role in
      Ends-continue (IsFree n sessions) (λ a s. HasInstance n sessions role a s)
        (λ u s. IsFree n sessions s) (specialist agents finish registry role o s)
        (activate agents role details) (specialist-Ends finish registry role o s h refl)
        (λ a s. activate-Ends role details a s)

  pub start-Ends :
      (finish : T) (registry : AgentRegistry T) (details : Value) (s : Turn T M W)
      → IsFree n sessions s
      → Ends
          (IsFree n sessions)
          (λ u s. IsFree n sessions s)
          (start_sub_conversation agents finish registry details s)
  unfolding start_sub_conversation
  start-Ends finish registry details s h =
      Ends-continue (IsFree n sessions) (λ d s. IsFree n sessions s) (λ u s. IsFree n sessions s)
        (destructured details s) _ (destructured-Ends n sessions (IsFree n sessions) details s h)
        (λ d s h.
          Ends-handled (IsFree n sessions) (λ u s. IsFree n sessions s)
            (start_specialist agents finish registry _ d s) _
            (start_specialist-Ends finish registry _ d s h) (λ e s. reverted-IsFree n sessions s))
