-- ===== src/RoutingChatManager/Turns.antt =====
-- One turn keeps the state of its session consistent, whatever the agents do.
use gemini_agent_lib.Prelude.{ℕ, String, ◌≡◌, refl, not, Option, none, some, nat_eq}
use gemini_agent_lib.Prelude.Dict.{Dict}
use gemini_agent_lib.Prelude.Action.{
  Outcome, returned, thrown, pure, Ends, Ends-continue, Ends-if, Ends-state,
}
use gemini_agent_lib.Value.{Value, truthy, get_member}
use gemini_agent_lib.AgentRegistry.{AgentRegistry}
use gemini_agent_lib.ChatAgents.{Reply, ChatAgents}
use gemini_agent_lib.RoutingChatManager.Session.{
  SessionState, PendingSpecialistResult, Turn, destructured, ask, start_sub_conversation,
  end_sub_conversation, finished_note, pending_note, is_text,
}
use gemini_agent_lib.RoutingChatManager.{
  on_reply, answer_as_specialist, take_pending, on_end, on_request, on_signal, route, send,
  dispatch, turn,
}
use gemini_agent_lib.RoutingChatManager.Invariant.{
  IsActive, IsTurn, IsFree, destructured-Ends, start-Ends,
}

abbrev no_pending : SessionState → SessionState
no_pending st = record st { pending_specialist_result = none }

-- the pending result is taken off
pub no_pending-IsActive :
    (o : Option String) (st : SessionState) → IsActive o st → IsActive o (no_pending st)
no_pending-IsActive none st h = h
no_pending-IsActive (some role) st (h, free) = (h, refl)

module _ {T M W : Type 0} (agents : ChatAgents T M W) (n : ℕ) (sessions : Dict ℕ) where
  abbrev Turns : {A : Type 0} → Outcome A × Turn T M W → Type 0
  Turns p = Ends (IsTurn n sessions) (λ a s. IsTurn n sessions s) p

  free-IsTurn :
      {A : Type 0}
      → (p : Outcome A × Turn T M W) → Ends (IsFree n sessions) (λ a s. IsFree n sessions s) p
      → Turns p
  free-IsTurn (returned a, s) h = h.turn
  free-IsTurn (thrown e, s) h = h.turn

  asked-IsTurn :
      (s : Turn T M W) (p : Outcome Reply × W)
      → IsTurn n sessions s
      → Turns (p.0, (s.0, record s.1 { world = p.1 }))
  asked-IsTurn s (returned r, w) h = record {
    routed = h.routed;
    grown = h.grown;
    same_sessions = h.same_sessions;
  }
  asked-IsTurn s (thrown e, w) h = record {
    routed = h.routed;
    grown = h.grown;
    same_sessions = h.same_sessions;
  }

  ask-IsTurn :
      (a : ℕ) (message : String) (s : Turn T M W)
      → IsTurn n sessions s
      → Turns (ask agents a message s)
  ask-IsTurn a message s h = asked-IsTurn s (agents.process_user_message a message s.1.world) h

  asked-IsFree :
      (s : Turn T M W) (p : Outcome Reply × W)
      → IsFree n sessions s
      → Ends
          (IsTurn n sessions)
          (λ a s. IsFree n sessions s)
          (p.0, (s.0, record s.1 { world = p.1 }))
  asked-IsFree s (returned r, w) h = record {
    turn = asked-IsTurn s (returned r, w) h.turn;
    free = h.free;
  }
  asked-IsFree s (thrown e, w) h = asked-IsTurn s (thrown e, w) h.turn

  answer-IsTurn :
      (message : String) (s : Turn T M W)
      → IsTurn n sessions s
      → Turns (answer_as_specialist agents message s)
  answer-IsTurn message s h =
      Ends-if (IsTurn n sessions) (λ a s. IsTurn n sessions s)
        (nat_eq s.0.active_agent s.0.primary_agent) _ _ h (ask-IsTurn _ message s h)

  no_pending-IsFree :
      (s : Turn T M W) → IsTurn n sessions s → IsFree n sessions (no_pending s.0, s.1)
  no_pending-IsFree s h = record {
    turn = record {
      routed = record {
        primary_made = h.routed.primary_made;
        instances_made = h.routed.instances_made;
        active = no_pending-IsActive s.0.active_specialist_role s.0 h.routed.active;
      };
      grown = h.grown;
      same_sessions = h.same_sessions;
    };
    free = refl;
  }

  take_pending-IsTurn :
      (message : String) (o : Option PendingSpecialistResult) (s : Turn T M W)
      → IsTurn n sessions s
      → Turns (take_pending agents message o s)
  take_pending-IsTurn message none s h = h
  take_pending-IsTurn message (some p) s h =
      ask-IsTurn s.0.primary_agent (finished_note p message) (no_pending s.0, s.1)
        (no_pending-IsFree s h).turn

  end-IsTurn :
      (details : Value) (s : Turn T M W)
      → IsTurn n sessions s
      → Turns (end_sub_conversation details s)
  unfolding end_sub_conversation
  end-IsTurn details s h =
      Ends-continue (IsTurn n sessions) (λ d s. IsTurn n sessions s) (λ u s. IsTurn n sessions s)
        (destructured details s) _ (destructured-Ends n sessions (IsTurn n sessions) details s h)
        (λ d s h. record {
          routed = record {
            primary_made = h.routed.primary_made;
            instances_made = h.routed.instances_made;
            active = refl;
          };
          grown = h.grown;
          same_sessions = h.same_sessions;
        })

  on_end-IsTurn :
      (agent : ℕ) (details : Value) (message : String) (reply : Reply) (s : Turn T M W)
      → IsTurn n sessions s
      → Turns (on_end agents agent details message reply s)
  on_end-IsTurn agent details message reply s h =
      Ends-if (IsTurn n sessions) (λ a s. IsTurn n sessions s) (nat_eq agent s.0.primary_agent) _ _
        (Ends-continue (IsTurn n sessions) (λ u s. IsTurn n sessions s) (λ r s. IsTurn n sessions s)
          (end_sub_conversation details s) (λ u. pure reply) (end-IsTurn details s h) (λ u s h. h))
        (Ends-continue (IsTurn n sessions) (λ u s. IsTurn n sessions s) (λ r s. IsTurn n sessions s)
          (end_sub_conversation details s) _ (end-IsTurn details s h)
          (λ u s h. take_pending-IsTurn message s.0.pending_specialist_result s h))

  on_request-IsTurn :
      (finish : T) (registry : AgentRegistry T) (details : Value) (message : String)
      (s : Turn T M W)
      → IsFree n sessions s
      → Turns (on_request agents finish registry details message s)
  on_request-IsTurn finish registry details message s h =
      Ends-continue (IsTurn n sessions) (λ u s. IsTurn n sessions s) (λ r s. IsTurn n sessions s)
        (start_sub_conversation agents finish registry details s) _
        (free-IsTurn _ (start-Ends agents n sessions finish registry details s h))
        (λ u s h. answer-IsTurn message s h)

  on_signal-IsTurn :
      (finish : T) (registry : AgentRegistry T) (agent : ℕ) (message : String) (reply : Reply)
      (signal : Value) (s : Turn T M W)
      → IsFree n sessions s
      → Turns (on_signal agents finish registry agent message reply signal s)
  on_signal-IsTurn finish registry agent message reply signal s h =
      let type = get_member signal "_signal_type" in
      let details = get_member signal "details" in
      let either = Ends-if (IsTurn n sessions) (λ a s. IsTurn n sessions s) in
      either (not (truthy signal)) _ _ h.turn (
        either (is_text type "REQUEST_SUB_CONVERSATION") _ _
          (on_request-IsTurn finish registry details message s h)
          (either (is_text type "END_SUB_CONVERSATION") _ _
            (on_end-IsTurn agent details message reply s h.turn) h.turn))

  reply-IsTurn :
      (finish : T) (registry : AgentRegistry T) (agent : ℕ) (message : String) (reply : Reply)
      (o : Option Value) (s : Turn T M W)
      → IsFree n sessions s
      → Turns (on_reply agents finish registry agent message reply o s)
  reply-IsTurn finish registry agent message reply none s h = h.turn
  reply-IsTurn finish registry agent message reply (some signal) s h =
      on_signal-IsTurn finish registry agent message reply signal s h

  send-IsTurn :
      (finish : T) (registry : AgentRegistry T) (agent : ℕ) (text message : String) (s : Turn T M W)
      → IsFree n sessions s
      → Turns (send agents finish registry agent text message s)
  unfolding route
  send-IsTurn finish registry agent text message s h =
      Ends-continue (IsTurn n sessions) (λ r s. IsFree n sessions s) (λ r s. IsTurn n sessions s)
        (ask agents agent text s) _
        (asked-IsFree s (agents.process_user_message agent text s.1.world) h)
        (λ reply s h.
          reply-IsTurn finish registry agent message reply reply.internal_tool_signal s h)

  dispatch-IsTurn :
      (finish : T) (registry : AgentRegistry T) (message : String)
      (o : Option PendingSpecialistResult) (s : Turn T M W)
      → s.0.pending_specialist_result ≡ o
      → IsTurn n sessions s
      → Turns (dispatch agents finish registry message o s)
  dispatch-IsTurn finish registry message (some p) s e h =
      send-IsTurn finish registry s.0.primary_agent (pending_note p message) message
        (no_pending s.0, s.1) (no_pending-IsFree s h)
  dispatch-IsTurn finish registry message none s e h =
      send-IsTurn finish registry s.0.active_agent message message s (record { turn = h; free = e })

  -- what a turn leaves, whether it returns or throws
  pub turn-IsTurn :
      (finish : T) (registry : AgentRegistry T) (message : String) (s : Turn T M W)
      → IsTurn n sessions s
      → IsTurn n sessions (turn agents finish registry message s).1
  unfolding turn
  turn-IsTurn finish registry message s h =
      Ends-state (IsTurn n sessions) (turn agents finish registry message s)
        (dispatch-IsTurn finish registry message s.0.pending_specialist_result s refl h)
