-- ===== src/RoutingChatManager/Handover.antt =====
-- How a conversation goes to a specialist and comes back, and that other sessions are not touched.
use gemini_agent_lib.Prelude.{
  suc, ℕ, String, ◌≡◌, refl, ◌∙◌, true, false, Option, none, some, nat_eq, arith, ◌==◌,
}
use gemini_agent_lib.Prelude.Dict.{get, put, get-put_other}
use gemini_agent_lib.Prelude.Action.{
  Outcome, returned, thrown, handled, pure, Ends, Ends-continue, Ends-handled, Ends-always,
  Ends-state,
}
use gemini_agent_lib.Value.{Value, to_text, str, truthy, get_member, is_undefined}
use gemini_agent_lib.AgentRegistry.{AgentRegistry, SpecialistConfig, get_specialist_config}
use gemini_agent_lib.ChatAgents.{Reply, ChatAgents, AgentOptions}
use gemini_agent_lib.ChatManager
use gemini_agent_lib.ChatManager.{ChatManager, sorry_reply}
use gemini_agent_lib.SubconversationTools.{
  request_specialist_sub_conversation, end_specialist_sub_conversation, signal, request_details,
  end_details, value_or_null,
}
use gemini_agent_lib.RoutingChatManager.Session.{
  specialist_config, SessionState, Turn, reverted, activated, result_of, finished_note,
  start_sub_conversation, end_sub_conversation, with_context,
}
use gemini_agent_lib.RoutingChatManager.{
  RoutingChatManager, route, turn, run_turn, process_message, get_or_create_session_state,
  open_state, state_opened, with_request,
}

-- the details of the signal that ends a sub-conversation
abbrev pub finished : Value → Value
finished args =
    end_details (get_member args "status") (get_member args "final_result")
      (get_member args "last_user_message")
      (value_or_null (get_member args "message_to_coordinator"))

-- Arguments that `end_specialist_sub_conversation` accepts.
pub record IsFinished (args : Value) : Type 0 where
  pub status : truthy (get_member args "status") ≡ true
  pub result : is_undefined (get_member args "final_result") ≡ false
  pub message : is_undefined (get_member args "last_user_message") ≡ false

-- Arguments that `request_specialist_sub_conversation` accepts, for this role.
pub record IsRequest (role : String) (args : Value) : Type 0 where
  pub role_member : get_member args "specialist_role" ≡ str role
  pub named : truthy (str role) ≡ true
  pub context : truthy (get_member args "initial_context") ≡ true

end_signal :
    (args : Value)
    → IsFinished args
    → end_specialist_sub_conversation args ≡ signal "END_SUB_CONVERSATION" (finished args)
unfolding end_specialist_sub_conversation
end_signal args h = rw (h.status, h.result, h.message) refl

request_signal :
    (role : String) (args : Value)
    → IsRequest role args
    → request_specialist_sub_conversation args
      ≡ signal "REQUEST_SUB_CONVERSATION"
          (request_details (str role) (get_member args "initial_context"))
unfolding request_specialist_sub_conversation
request_signal role args h = rw (h.role_member, h.named, h.context) refl

nat_eq_self : (n : ℕ) → nat_eq n n ≡ true
nat_eq_self n = ground arith

module _ {T M W : Type 0} (agents : ChatAgents T M W) (finish : T)
    (registry : AgentRegistry T) where
  -- If no result is pending and the active specialist answers with the signal of
  -- `end_specialist_sub_conversation` on accepted arguments, the turn gives what the primary agent
  -- answers to the note about that result; the primary agent is active again, without a role and
  -- without a pending result, and the specialists' instances are kept.
  pub turn-end :
      (message : String) (s : Turn T M W) (text : Option String) (args : Value) (w : W)
      → s.0.pending_specialist_result ≡ none
      → nat_eq s.0.active_agent s.0.primary_agent ≡ false
      → IsFinished args
      → agents.process_user_message s.0.active_agent message s.1.world ≡ (
        returned (record {
          text = text;
          internal_tool_signal = some (end_specialist_sub_conversation args);
        }),
        w,
      )
      → (let p =
            agents.process_user_message s.0.primary_agent
              (finished_note (result_of s.0.active_specialist_role (finished args)) message)
              w in
          turn agents finish registry message s ≡ (
            p.0,
            (
              record (reverted s.0) { pending_specialist_result = none },
              record s.1 { world = p.1 },
            ),
          ))
  unfolding turn route end_sub_conversation
  turn-end message s text args w free other h reply =
      rw (free, reply, end_signal args h, other) refl

  -- If no result is pending and the active agent asks by an accepted signal for a specialist that
  -- the session has an instance of, another agent than the primary one, that instance becomes
  -- active under its role, with the initial context added, and the turn gives what it answers to
  -- the user's own message.
  pub turn-request :
      (message role : String) (s : Turn T M W) (text : Option String) (args : Value) (a : ℕ) (w : W)
      → s.0.pending_specialist_result ≡ none
      → get s.0.specialist_instances role ≡ some a
      → nat_eq a s.0.primary_agent ≡ false
      → IsRequest role args
      → agents.process_user_message s.0.active_agent message s.1.world ≡ (
        returned (record {
          text = text;
          internal_tool_signal = some (request_specialist_sub_conversation args);
        }),
        w,
      )
      → (let p =
            agents.process_user_message a message
              (with_context agents a (get_member args "initial_context") w) in
          turn agents finish registry message s
          ≡ (p.0, (activated role a s.0, record s.1 { world = p.1 })))
  unfolding turn route start_sub_conversation get to_text
  turn-request message role s text args a w free found other h reply =
      rw (free, reply, request_signal role args h, found, other) refl

  -- If no result is pending and the active agent asks by an accepted signal for a role that is
  -- configured and has no instance yet, and the constructor returns for the next reference, which
  -- is not the primary agent's, the new instance is kept for the role and active, and the turn
  -- gives what it answers to the user's own message.
  pub turn-create :
      (message role : String) (s : Turn T M W) (text : Option String) (args : Value)
      (config : SpecialistConfig T) (w w' : W)
      → s.0.pending_specialist_result ≡ none
      → get s.0.specialist_instances role ≡ none
      → get_specialist_config registry role ≡ some config
      → nat_eq s.1.created s.0.primary_agent ≡ false
      → IsRequest role args
      → agents.process_user_message s.0.active_agent message s.1.world ≡ (
        returned (record {
          text = text;
          internal_tool_signal = some (request_specialist_sub_conversation args);
        }),
        w,
      )
      → agents.construct s.1.created
          (specialist_config agents finish (s.0, record s.1 { world = w }) config)
          w
        ≡ (returned tt, w')
      → (let p =
            agents.process_user_message s.1.created message
              (with_context agents s.1.created (get_member args "initial_context") w') in
          turn agents finish registry message s ≡ (
            p.0,
            (
              activated role s.1.created (record s.0 {
                specialist_instances = put s.0.specialist_instances role s.1.created;
              }),
              record s.1 { created = suc s.1.created; world = p.1 },
            ),
          ))
  unfolding turn route start_sub_conversation get to_text
  turn-create message role s text args config w w' free absent known other h reply made =
      rw (free, reply, request_signal role args h, absent, known, made, other) refl

  -- If no result is pending and the active agent asks for a role of which the session has no
  -- instance and the registry no configuration, control is with the primary agent afterwards, and
  -- the turn throws: the coordinator's own answer is lost.
  pub turn-unknown :
      (message role : String) (s : Turn T M W) (text : Option String) (args : Value) (w : W)
      → s.0.pending_specialist_result ≡ none
      → get s.0.specialist_instances role ≡ none
      → get_specialist_config registry role ≡ none
      → IsRequest role args
      → agents.process_user_message s.0.active_agent message s.1.world ≡ (
        returned (record {
          text = text;
          internal_tool_signal = some (request_specialist_sub_conversation args);
        }),
        w,
      )
      → turn agents finish registry message s
        ≡ (thrown "specialistResponse is not defined", (reverted s.0, record s.1 { world = w }))
  unfolding turn route start_sub_conversation get to_text
  turn-unknown message role s text args w free absent unknown h reply =
      rw (free, reply, request_signal role args h, absent, unknown, nat_eq_self s.0.primary_agent)
        refl

module _ {T M W : Type 0} (agents : ChatAgents T M W) where
  -- what a turn of one session leaves of the others
  Same : (j : String) (r r' : RoutingChatManager T M W) → Type 0
  Same j r r' = get r'.session_states j ≡ get r.session_states j

  abbrev Answers : Outcome Reply × RoutingChatManager T M W → Type 0
  Answers p = (reply : Reply) × (p.0 ≡ returned reply)

  handled-Answers :
      (p : Outcome Reply × RoutingChatManager T M W) → Answers (handled p (λ e. pure sorry_reply))
  handled-Answers (returned a, r) = (a, refl)
  handled-Answers (thrown e, r) = (sorry_reply, refl)

  opened-Same :
      (id j : String) (r : RoutingChatManager T M W) (p : Outcome ℕ × ChatManager T M W)
      → (id == j) ≡ false
      → Ends
          (Same j r)
          (λ st r'. Same j r r')
          (state_opened agents id p.0 (record r { base = p.1 }))
  unfolding Same
  opened-Same id j r (thrown e, c) h = refl
  opened-Same id j r (returned a, c) h = get-put_other r.session_states id j _ h

  open_state-Same :
      (id j : String) (options : AgentOptions T) (o : Option SessionState)
      (r : RoutingChatManager T M W)
      → (id == j) ≡ false
      → Ends (Same j r) (λ st r'. Same j r r') (open_state agents id options o r)
  open_state-Same id j options (some st) r h = unfold Same in refl
  open_state-Same id j options none r h =
      opened-Same id j r
        (ChatManager.get_or_create_session agents id (with_request r.request options) r.base) h

  run_turn-Same :
      (id j message : String) (st : SessionState) (r r' : RoutingChatManager T M W)
      → (id == j) ≡ false
      → Same j r r'
      → Same j r (run_turn agents id message st r').1
  unfolding Same
  run_turn-Same id j message st r r' h same = get-put_other r'.session_states id j _ h ∙ same

  -- `processMessage` always returns a reply, whatever the agents do.
  pub process_message_total :
      (id message : String) (options : AgentOptions T) (r : RoutingChatManager T M W)
      → (reply : Reply) × ((process_message agents id message options r).0 ≡ returned reply)
  unfolding process_message
  process_message_total id message options r = handled-Answers _

  -- Whatever the agents do, `processMessage` for one identifier leaves the state of every session
  -- of another identifier as it was.
  pub process_message-get :
      (id j message : String) (options : AgentOptions T) (r : RoutingChatManager T M W)
      → (id == j) ≡ false
      → get (process_message agents id message options r).1.session_states j
        ≡ get r.session_states j
  unfolding process_message get_or_create_session_state Same
  process_message-get id j message options r h = Ends-state (Same j r) _ (
      Ends-handled (Same j r) (λ a r'. Same j r r') _ (λ e. pure sorry_reply)
        (Ends-continue (Same j r) (λ st r'. Same j r r') (λ a r'. Same j r r')
          (open_state agents id options (get r.session_states id) r) (run_turn agents id message)
          (open_state-Same id j options (get r.session_states id) r h)
          (λ st r' same.
            Ends-always (Same j r) (run_turn agents id message st r')
              (run_turn-Same id j message st r r' h same)))
        (λ e r' same. same))
