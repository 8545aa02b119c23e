-- ===== src/ChatAgent/Frame/Conversation.antt =====
-- The relation of a chat agent's history and the world, through `processUserMessage`.
use gemini_agent_lib.Prelude.{
  String, ◌≡◌, refl, not, ◌&&◌, ◌||◌, Option, none, some, List, any, ◌==◌,
}
use gemini_agent_lib.Prelude.Action.{
  Outcome, returned, thrown, Action, Ends, Ends-continue, pure, try_catch, handled,
}
use gemini_agent_lib.Value.{Value, undefined, null, bool, num, str, obj, arr, truthy, get_member}
use gemini_agent_lib.AgentRegistry.{AgentRegistry, AgentInstance, or_text, has_text}
use gemini_agent_lib.Agent.{FunctionCall, find_tool_function}
use gemini_agent_lib.Agent.Task.{args_of, call_error}
use gemini_agent_lib.ChatAgent.{Message, ChatAgent, State, in_world, as_agent, add_to_history}
use gemini_agent_lib.ChatAgent.Context.{prepare_enriched_context}
use gemini_agent_lib.ChatAgent.Evaluation.{manages_facts, manages_summary}
use gemini_agent_lib.ChatAgent.Delegation.{delegation_name}
use gemini_agent_lib.ChatAgent.Conversation.{
  Runtime, Ending, answered, by_specialist, result_turn, result_prompt, delegation_error,
  destructured, destructured_args, chosen_role, check_arguments, response_text, run_function,
  request, ask, continue_with, in_registry, delegate, work, evaluation, roles_of, agent_for,
  conclude, finish, finished,
}
use gemini_agent_lib.ChatAgent.Frame.{
  Relation, Respects, Reached, reached, Within, lifted, caught, choose-Within, view,
  add_to_history-Within,
}
use gemini_agent_lib.ChatAgent.Frame.Memories.{as_text-keeps, prepare_enriched_context-Within}
use gemini_agent_lib.ChatAgent.Frame.Evaluation.{evaluate_and_manage_memories-Within}

destructured-keeps : {S : Type 0} (o : Option Value) (s : S) → (destructured o s).1 ≡ s
destructured-keeps none s = refl
destructured-keeps (some undefined) s = refl
destructured-keeps (some null) s = refl
destructured-keeps (some (bool b)) s = refl
destructured-keeps (some (num n)) s = refl
destructured-keeps (some (str t)) s = refl
destructured-keeps (some (arr vs)) s = refl
destructured-keeps (some (obj fs)) s = refl

destructured_args-keeps : {S : Type 0} (c : FunctionCall) (s : S) → (destructured_args c s).1 ≡ s
destructured_args-keeps c s = destructured-keeps c.args s

response_text-keeps : {S : Type 0} (v : Value) (s : S) → (response_text v s).1 ≡ s
response_text-keeps null s = refl
response_text-keeps (obj fs) s = as_text-keeps _ _ s
response_text-keeps undefined s = refl
response_text-keeps (bool b) s = refl
response_text-keeps (num n) s = refl
response_text-keeps (str t) s = refl
response_text-keeps (arr vs) s = refl

module _ {T W : Type 0} (c : ChatAgent T W) (R : Relation W) where
  -- A step that reads, or throws, and leaves the state.
  unmoved :
      {A : Type 0} (p : Outcome A × State T W) (s : State T W)
      → p.1 ≡ s
      → Reached c R s
      → Within c R Unit p
  unmoved (returned a, s') s e r = rw e r
  unmoved (thrown e', s') s e r = (tt, rw e r)

  chosen_role-Within :
      (roles : List String) (v : Value) (s : State T W)
      → Reached c R s
      → Within c R Unit (chosen_role roles v s)
  chosen_role-Within roles (str role) s r =
      choose-Within c R Unit (any (λ x. x == role) roles) _ _ s r (tt, r)
  chosen_role-Within roles undefined s r = (tt, r)
  chosen_role-Within roles null s r = (tt, r)
  chosen_role-Within roles (bool b) s r = (tt, r)
  chosen_role-Within roles (num n) s r = (tt, r)
  chosen_role-Within roles (arr vs) s r = (tt, r)
  chosen_role-Within roles (obj fs) s r = (tt, r)

  check_arguments-Within :
      (role task : Value) (s : State T W)
      → Reached c R s
      → Within c R Unit (check_arguments role task s)
  check_arguments-Within role task s r =
      choose-Within c R Unit (not (truthy role) || not (truthy task)) _ _ s (tt, r) r

  moved_registry :
      {A : Type 0} (task : String) (h : List Message) (w : W) (p : Outcome A × AgentRegistry T)
      → R h w
      → Within c R Unit (p.0, (view c task h (some p.1), w))
  moved_registry task h w (returned a, g) r = reached task h (some g) w r
  moved_registry task h w (thrown e, g) r = (tt, reached task h (some g) w r)

  in_registry-Within :
      {A : Type 0} (m : Action (AgentRegistry T) A) (s : State T W)
      → Reached c R s
      → Within c R Unit (in_registry m s)
  in_registry-Within m _ (reached task h none w r) = (tt, reached task h none w r)
  in_registry-Within m _ (reached task h (some g) w r) = moved_registry task h w (m g) r

  either_way :
      {A : Type 0} (h : List Message) (p : Outcome A × W)
      → R h p.1
      → Ends (λ w. Unit {0} × R h w) (λ a w. R h w) p
  either_way h (returned a, w) r = r
  either_way h (thrown e, w) r = (tt, r)

module _ {T W : Type 0} (rt : Runtime T W) (c : ChatAgent T W) (R : Relation W) (MayThrow : Type 0)
    (respects : Respects rt c R MayThrow) where
  executed-Within :
      (a : AgentInstance T) (v : Value) (s : State T W)
      → Reached c R s
      → Within c R Unit (in_world (rt.execute_task a v) s)
  executed-Within a v _ (reached task h registry w r) =
      lifted c R Unit task h registry (rt.execute_task a v w)
        (either_way c R h (rt.execute_task a v w) (respects.specialists a v h w r))

  delegate-Within :
      (call : FunctionCall) (s : State T W) → Reached c R s → Within c R Unit (delegate rt call s)
  unfolding delegate
  delegate-Within call s r =
      Ends-continue _ _ _ (destructured_args call s) _
        (unmoved c R _ s (destructured_args-keeps call s) r)
        λ args s1 r1.
          let wanted = get_member args "specialist_role" in
          let task = get_member args "task_for_specialist" in
          Ends-continue _ _ _ (check_arguments wanted task s1) _
            (check_arguments-Within c R wanted task s1 r1)
            λ _ s2 r2.
              Ends-continue _ _ _ (in_registry roles_of s2) _
                (in_registry-Within c R roles_of s2 r2)
                λ roles s3 r3.
                  Ends-continue _ _ _ (chosen_role roles wanted s3) _
                    (chosen_role-Within c R roles wanted s3 r3)
                    λ role s4 r4.
                      Ends-continue _ _ _ (in_registry (agent_for rt role) s4) _
                        (in_registry-Within c R (agent_for rt role) s4 r4)
                        λ a s5 r5.
                          Ends-continue _ _ _ (in_world (rt.execute_task a task) s5) _
                            (executed-Within a task s5 r5)
                            λ v s6 r6.
                              Ends-continue _ _ _ (response_text v s6) _
                                (unmoved c R _ s6 (response_text-keeps v s6) r6)
                                λ text s7 r7.
                                  Ends-continue _ _ _ (add_to_history "model" text s7) _
                                    (add_to_history-Within rt c R MayThrow respects Unit "model"
                                      text s7 r7)
                                    λ _ s8 r8. r8

  recovered_call :
      (X : Type 0) (call : FunctionCall) (h : List Message) (p : Outcome Value × W)
      → R h p.1
      → Ends
          (λ w'. X × R h w')
          (λ v w'. R h w')
          (handled p (λ e. pure (str (call_error call.name e))))
  recovered_call X call h (returned v, w') r = r
  recovered_call X call h (thrown e, w') r = r

  run_function-Ends :
      (X : Type 0) (call : FunctionCall) (o : Option (Value → Action W Value)) (h : List Message)
      (w : W)
      → find_tool_function (as_agent c) call.name ≡ o
      → R h w
      → Ends (λ w'. X × R h w') (λ v w'. R h w') (run_function call o w)
  run_function-Ends X call none h w e r = r
  run_function-Ends X call (some f) h w e r =
      recovered_call X call h (f (args_of call) w)
        (respects.works call.name f (args_of call) h w e r)

  tool_ran-Within :
      (X : Type 0) (call : FunctionCall) (s : State T W)
      → Reached c R s
      → Within c R X (in_world (run_function call (find_tool_function (as_agent s.0) call.name)) s)
  unfolding find_tool_function
  tool_ran-Within X call _ (reached task h registry w r) =
      lifted c R X task h registry _
        (run_function-Ends X call (find_tool_function (as_agent c) call.name) h w refl r)

  pub work-Within :
      (X : Type 0) (call : FunctionCall) (s : State T W)
      → Reached c R s
      → Within c R X (work rt call s)
  unfolding work
  work-Within X call s r =
      choose-Within c R X (call.name == delegation_name && s.0.specialist_delegation_enabled)
        (try_catch (delegate rt call) (λ e. pure (delegation_error e))) _ s
        (caught c R X (delegate rt call s) _ (delegate-Within call s r) (λ e s1 r1. r1))
        (Ends-continue _ _ _
          (in_world (run_function call (find_tool_function (as_agent s.0) call.name)) s) _
          (tool_ran-Within X call s r) (λ v s1 r1. r1))

  asked-Within :
      (prompt context : String) (s : State T W)
      → Reached c R s
      → Within c R MayThrow (in_world (s.0.llm (request prompt context s.0)) s)
  asked-Within prompt context _ (reached task h registry w r) =
      lifted c R MayThrow task h registry _ (respects.asks _ h w r)

  pub ask-Within :
      (prompt : String) (s : State T W) → Reached c R s → Within c R MayThrow (ask prompt s)
  unfolding ask
  ask-Within prompt s r =
      Ends-continue _ _ _ (prepare_enriched_context s) _
        (prepare_enriched_context-Within rt c R MayThrow respects MayThrow s r)
        (λ context s1 r1. asked-Within prompt context s1 r1)

  pub continue_with-Within :
      (name : String) (v : Value) (s : State T W)
      → Reached c R s
      → Within c R MayThrow (continue_with name v s)
  unfolding continue_with
  continue_with-Within name v s r =
      Ends-continue _ _ _ (add_to_history "user" (result_turn name v) s) _
        (add_to_history-Within rt c R MayThrow respects MayThrow "user" _ s r)
        (λ _ s1 r1. ask-Within (result_prompt name v) s1 r1)

  conclude-Within :
      (message text : String) (last : Value) (s : State T W)
      → Reached c R s
      → Within c R MayThrow (conclude rt message text last s)
  unfolding conclude
  conclude-Within message text last s r =
      Ends-continue _ _ _ (add_to_history "model" text s) _
        (add_to_history-Within rt c R MayThrow respects MayThrow "model" text s r)
        λ _ s1 r1.
          Ends-continue _ _ _ (evaluation rt message text s1) _
            (choose-Within c R MayThrow (manages_facts s1.0 || manages_summary s1.0) _ _ s1
              (evaluate_and_manage_memories-Within rt c R MayThrow respects MayThrow message text s1
                r1)
              r1)
            (λ _ s2 r2. r2)

  finish-Within :
      (message : String) (e : Ending) (s : State T W)
      → Reached c R s
      → Within c R MayThrow (finish rt message e s)
  unfolding finish
  finish-Within message (by_specialist text) s r = r
  finish-Within message (answered none last) s r = r
  finish-Within message (answered (some a) last) s r =
      choose-Within c R MayThrow (has_text a.text) _ _ s
        (conclude-Within message (or_text a.text "") last s r) r

  pub finished-Within :
      (message : String) (o : Option Ending) (s : State T W)
      → Reached c R s
      → Within c R MayThrow (finished rt message o s)
  finished-Within message none s r = r
  finished-Within message (some e) s r =
      Ends-continue _ _ _ (finish rt message e s) _ (finish-Within message e s r) (λ _ s1 r1. r1)
