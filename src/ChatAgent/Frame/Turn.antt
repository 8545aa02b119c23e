-- ===== src/ChatAgent/Frame/Turn.antt =====
-- The relation of a chat agent's history and the world, through whole calls: the loop of
-- `processUserMessage`, and `processFunctionResult`.
use gemini_agent_lib.Prelude.{ℕ, zero, suc, String, Option, none, some, Option-cases, inl, inr}
use gemini_agent_lib.Prelude.Action.{Action, Ends-continue}
use gemini_agent_lib.Value.{Value, null}
use gemini_agent_lib.AgentRegistry.{or_text, has_text}
use gemini_agent_lib.Agent.{Response}
use gemini_agent_lib.ChatAgent.{ChatAgent, State, add_to_history}
use gemini_agent_lib.ChatAgent.Conversation.{
  Runtime, Worked, delegated, result, Ending, result_turn, call_text, ask, continue_with, work,
  rounds, set_task, answer_message, process_user_message, keep_text, process_function_result,
  function_prompt, next_round,
}
use gemini_agent_lib.ChatAgent.Frame.{
  Relation, Respects, Reached, reached, Within, choose-Within, add_to_history-Within,
}
use gemini_agent_lib.ChatAgent.Frame.Conversation.{
  work-Within, ask-Within, continue_with-Within, finished-Within,
}

module _ {T W : Type 0} (rt : Runtime T W) (c : ChatAgent T W) (R : Relation W) (MayThrow : Type 0)
    (respects : Respects rt c R MayThrow) where
  next_round-Within :
      (again : Option Response → Value → Action (State T W) (Option Ending))
      → ((response : Option Response) (last : Value) (s : State T W)
          → Reached c R s
          → Within c R MayThrow (again response last s))
      → (name : String) (o : Worked) (s : State T W) → Reached c R s
      → Within c R MayThrow (next_round again name o s)
  unfolding next_round
  next_round-Within again k name (delegated text) s r = r
  next_round-Within again k name (result v) s r =
      Ends-continue _ _ _ (continue_with name v s) _
        (continue_with-Within rt c R MayThrow respects name v s r)
        (λ response s1 r1. k response v s1 r1)

  rounds-Within :
      (fuel : ℕ) (response : Option Response) (last : Value) (s : State T W)
      → Reached c R s
      → Within c R MayThrow (rounds rt fuel response last s)
  unfolding rounds
  rounds-Within zero response last s r = r
  rounds-Within (suc fuel) none last s r = r
  rounds-Within (suc fuel) (some a) last s r =
      let again = rounds-Within fuel in
      elim (Option-cases a.function_call) [
        | inl e ↦ rw (e, rounds) r
        | inr (call, e) ↦
            rw (e, rounds)
              (Ends-continue _ _ _ (add_to_history "model" (call_text a call) s) _
                (add_to_history-Within rt c R MayThrow respects MayThrow "model" _ s r)
                λ _ s1 r1.
                  Ends-continue _ _ _ (work rt call s1) _
                    (work-Within rt c R MayThrow respects MayThrow call s1 r1)
                    λ o s2 r2. next_round-Within (rounds rt fuel) again call.name o s2 r2)
      ]

  pub set_task-Reached :
      (message : String) (s : State T W) → Reached c R s → Reached c R (set_task message s).1
  set_task-Reached message _ (reached task h registry w r) = reached message h registry w r

  pub answer_message-Within :
      (fuel : ℕ) (message : String) (s : State T W)
      → Reached c R s
      → Within c R MayThrow (answer_message rt fuel message s)
  unfolding answer_message
  answer_message-Within fuel message s r =
      Ends-continue _ _ _ (ask message s) _ (ask-Within rt c R MayThrow respects message s r)
        λ response s1 r1.
          Ends-continue _ _ _ (rounds rt fuel response null s1) _
            (rounds-Within fuel response null s1 r1)
            λ ending s2 r2. finished-Within rt c R MayThrow respects message ending s2 r2

  pub process_user_message-Within :
      (fuel : ℕ) (message : String) (s : State T W)
      → Reached c R s
      → Within c R MayThrow (process_user_message rt fuel message s)
  unfolding process_user_message
  process_user_message-Within fuel message s r =
      let s1 = (set_task message s).1 in
      let r1 = set_task-Reached message s r in
      Ends-continue _ _ _ (add_to_history "user" message s1) _
        (add_to_history-Within rt c R MayThrow respects MayThrow "user" message s1 r1)
        λ _ s2 r2. answer_message-Within fuel message s2 r2

  keep_text-Within :
      (o : Option Response) (s : State T W) → Reached c R s → Within c R MayThrow (keep_text o s)
  keep_text-Within none s r = r
  keep_text-Within (some a) s r =
      choose-Within c R MayThrow (has_text a.text) _ _ s
        (add_to_history-Within rt c R MayThrow respects MayThrow "model" (or_text a.text "") s r) r

  pub process_function_result-Within :
      (name : String) (v : Value) (s : State T W)
      → Reached c R s
      → Within c R MayThrow (process_function_result name v s)
  unfolding process_function_result
  process_function_result-Within name v s r =
      Ends-continue _ _ _ (add_to_history "user" (result_turn name v) s) _
        (add_to_history-Within rt c R MayThrow respects MayThrow "user" _ s r)
        λ _ s1 r1.
          Ends-continue _ _ _ (ask (function_prompt name v) s1) _
            (ask-Within rt c R MayThrow respects _ s1 r1)
            λ response s2 r2.
              Ends-continue _ _ _ (keep_text response s2) _ (keep_text-Within response s2 r2)
                λ _ s3 r3. r3
