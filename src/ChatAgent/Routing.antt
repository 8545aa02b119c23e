-- ===== src/ChatAgent/Routing.antt =====
-- The signals that a chat agent with the tools of lib/tools/subconversation-tools.js hands to
-- lib/routing-chat-manager.js.
use gemini_agent_lib.Prelude.{
  ℕ, String, ◌≡◌, refl, ap, sym, subst, ◌∙◌, true, false, ◌⊎◌, inl, inr, arith, some, Bool-cases,
}
use gemini_agent_lib.Prelude.Action.{Outcome, returned, thrown, Action, pure}
use gemini_agent_lib.Value.{Value, null, str, truthy, get_member, is_undefined}
use gemini_agent_lib.Agent.{find_tool_function}
use gemini_agent_lib.ChatAgents.{Reply}
use gemini_agent_lib.SubconversationTools.{
  request_specialist_sub_conversation, end_specialist_sub_conversation,
}
use gemini_agent_lib.ChatAgent.{ChatAgent, as_agent}
use gemini_agent_lib.ChatAgent.Conversation.{Runtime, process_user_message}
use gemini_agent_lib.ChatAgent.Signals.{GenuineReply, process_user_message-signal}

abbrev type_of : Value → Value
type_of v = get_member v "_signal_type"

abbrev detail : Value → String → Value
detail v k = get_member (get_member v "details") k

-- a signal of one of the three kinds, with the details that its kind needs
abbrev pub IsAccepted : Value → Type 0
IsAccepted v =
    (type_of v ≡ str "SIGNAL_ERROR")
    ⊎ ((type_of v ≡ str "REQUEST_SUB_CONVERSATION")
        × (truthy (detail v "specialist_role") ≡ true)
        × (truthy (detail v "initial_context") ≡ true))
    ⊎ ((type_of v ≡ str "END_SUB_CONVERSATION")
        × (truthy (detail v "status") ≡ true)
        × (is_undefined (detail v "final_result") ≡ false)
        × (is_undefined (detail v "last_user_message") ≡ false))

request-IsAccepted : (args : Value) → IsAccepted (request_specialist_sub_conversation args)
unfolding request_specialist_sub_conversation
request-IsAccepted args = elim (Bool-cases (truthy (get_member args "specialist_role"))) [
  | inr e ↦ rw e (inl refl)
  | inl e ↦ elim (Bool-cases (truthy (get_member args "initial_context"))) [
    | inr f ↦ rw (e, f) (inl refl)
    | inl f ↦ rw (e, f) (inr (inl (refl, e, f)))
  ]
]

end-IsAccepted : (args : Value) → IsAccepted (end_specialist_sub_conversation args)
unfolding end_specialist_sub_conversation
end-IsAccepted args = elim (Bool-cases (truthy (get_member args "status"))) [
  | inr e ↦ rw e (inl refl)
  | inl e ↦ elim (Bool-cases (is_undefined (get_member args "final_result"))) [
    | inl f ↦ rw (e, f) (inl refl)
    | inr f ↦ elim (Bool-cases (is_undefined (get_member args "last_user_message"))) [
      | inl g ↦ rw (e, f, g) (inl refl)
      | inr g ↦ rw (e, f, g) (inr (inr (refl, e, f, g)))
    ]
  ]
]

-- the function of one of the two tools
abbrev pub IsSubconversationTool : {W : Type 0} → (Value → Action W Value) → Type 0
IsSubconversationTool f =
    (f ≡ (λ v. pure (request_specialist_sub_conversation v)))
    ⊎ (f ≡ (λ v. pure (end_specialist_sub_conversation v)))

abbrev value_in : {W : Type 0} → Outcome Value × W → Value
value_in (returned v, w) = v
value_in (thrown e, w) = null

module _ {T W : Type 0} (rt : Runtime T W) (c : ChatAgent T W) where
  of_tool :
      (f : Value → Action W Value) (args v : Value) (w w' : W)
      → IsSubconversationTool f
      → f args w ≡ (returned v, w')
      → IsAccepted v
  of_tool f args v w w' (inl e) q =
      subst IsAccepted (ap value_in (ap (λ g. g args w) (sym e) ∙ q)) (request-IsAccepted args)
  of_tool f args v w w' (inr e) q =
      subst IsAccepted (ap value_in (ap (λ g. g args w) (sym e) ∙ q)) (end-IsAccepted args)

  of_reply :
      (reply : Reply) (v : Value)
      → ((name : String) (f : Value → Action W Value)
          → find_tool_function (as_agent c) name ≡ some f
          → IsSubconversationTool f)
      → GenuineReply c reply
      → reply.internal_tool_signal ≡ some v
      → IsAccepted v
  of_reply reply v only (inl e) q = absurd (ground (arith, e, q))
  of_reply reply v only (inr (u, e, s, (name, f, args, w, w', found, ran))) q =
      let same : u ≡ v = ground (arith, e, q) in
      subst IsAccepted same (of_tool f args u w w' (only name f found) ran)

  -- Where each tool with a function is one of the two tools for sub-conversations: a signal in a
  -- reply of `processUserMessage` is an error, a request with a role and a context that are
  -- truthy, or an end with a truthy status and a result and a last message that are not
  -- `undefined`.
  pub process_user_message-IsAccepted :
      (fuel : ℕ) (message : String) (w : W) (reply : Reply) (v : Value)
      → ((name : String) (f : Value → Action W Value)
          → find_tool_function (as_agent c) name ≡ some f
          → IsSubconversationTool f)
      → (process_user_message rt fuel message (c, w)).0 ≡ returned (some reply)
      → reply.internal_tool_signal ≡ some v
      → IsAccepted v
  process_user_message-IsAccepted fuel message w reply v only e q =
      of_reply reply v only (process_user_message-signal rt c fuel message w reply e) q
