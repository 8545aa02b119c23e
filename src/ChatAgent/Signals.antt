-- ===== src/ChatAgent/Signals.antt =====
-- Where the signal in a reply of `processUserMessage` of lib/chat-agent.js comes from.
use gemini_agent_lib.Prelude.{
  ℕ, zero, suc, String, ◌≡◌, refl, subst, Bool, true, false, ◌&&◌, ◌⊎◌, Option, none, some,
  is_empty, Bool-cases, Option-cases, inl, inr, if◌then◌else◌, ◌==◌,
}
use gemini_agent_lib.Prelude.Action.{
  Outcome, returned, thrown, Action, Ends, Ends-continue, continue, handled, try_catch, pure, ◌>>=◌,
}
use gemini_agent_lib.Value.{Value, null, str, truthy, get_member}
use gemini_agent_lib.AgentRegistry.{or_text, has_text}
use gemini_agent_lib.Agent.{FunctionCall, Response, find_tool_function}
use gemini_agent_lib.Agent.Task.{args_of, call_error}
use gemini_agent_lib.ChatAgents.{Reply}
use gemini_agent_lib.ChatAgent.{ChatAgent, State, in_world, as_agent, add_to_history}
use gemini_agent_lib.ChatAgent.Delegation.{delegation_name}
use gemini_agent_lib.ChatAgent.Conversation.{
  Runtime, Worked, delegated, result, Ending, answered, by_specialist, call_text, signal_of,
  delegation_error, run_function, ask, destructured_args, check_arguments, chosen_role, in_registry,
  roles_of, agent_for, response_text, delegate, work, next_round, continue_with, rounds, evaluation,
  conclude, finish, finished, set_task, answer_message, process_user_message,
}
use gemini_agent_lib.ChatAgent.Frame.{
  Relation, Respects, Reached, reached, Within, add_to_history-Within,
}
use gemini_agent_lib.ChatAgent.Frame.Conversation.{work-Within, ask-Within, continue_with-Within}
use gemini_agent_lib.ChatAgent.Frame.Turn.{set_task-Reached}

-- a value that a tool of the agent returned
abbrev FromTool : {T W : Type 0} → ChatAgent T W → Value → Type 0
FromTool {W = W} c v =
    (name : String) × (f : Value → Action W Value) × (args : Value) × (w : W) × (w' : W)
    × (find_tool_function (as_agent c) name ≡ some f)
    × (f args w ≡ (returned v, w'))

abbrev IsSignal : Value → Type 0
IsSignal v = (truthy v ≡ true) × (truthy (get_member v "_signal_type") ≡ true)

-- a result that is no signal unless a tool returned it
abbrev Genuine : {T W : Type 0} → ChatAgent T W → Value → Type 0
Genuine c v = (signal_of v ≡ none) ⊎ FromTool c v

abbrev GenuineWork : {T W : Type 0} → ChatAgent T W → Worked → Type 0
GenuineWork c (delegated text) = Unit
GenuineWork c (result v) = Genuine c v

abbrev GenuineEnding : {T W : Type 0} → ChatAgent T W → Option Ending → Type 0
GenuineEnding c none = Unit
GenuineEnding c (some (by_specialist text)) = Unit
GenuineEnding c (some (answered o last)) = Genuine c last

abbrev pub GenuineReply : {T W : Type 0} → ChatAgent T W → Reply → Type 0
GenuineReply c r =
    (r.internal_tool_signal ≡ none)
    ⊎ ((v : Value) × (r.internal_tool_signal ≡ some v) × IsSignal v × FromTool c v)

-- If it returns, this holds of the value.
abbrev Only : {A S : Type 0} → (A → Type 0) → Outcome A × S → Type 0
Only P p = Ends (λ s. Unit {0}) (λ a s. P a) p

behind :
    {A B S : Type 0} (P : B → Type 0) (p : Outcome A × S) (m : A → Action S B)
    → ((a : A) (s : S) → Only P (m a s))
    → Only P (continue p m)
behind P (returned a, s) m k = k a s
behind P (thrown e, s) m k = tt

abbrev Anything : {W : Type 0} → Relation W
Anything h w = Unit

text-signal : (t : String) → signal_of (str t) ≡ none
text-signal t = elim (Bool-cases (is_empty t)) [ inl e ↦ rw e refl | inr e ↦ rw e refl ]

signal_of-cases :
    {T W : Type 0} (c : ChatAgent T W) (v : Value)
    → Genuine c v
    → (signal_of v ≡ none) ⊎ ((u : Value) × (signal_of v ≡ some u) × IsSignal u × FromTool c u)
signal_of-cases c v (inl e) = inl e
signal_of-cases c v (inr t) = elim (Bool-cases (truthy v)) [
  | inr e ↦ inl (rw e refl)
  | inl e ↦ elim (Bool-cases (truthy (get_member v "_signal_type"))) [
    | inr f ↦ inl (rw (e, f) refl)
    | inl f ↦ inr (v, rw (e, f) refl, (e, f), t)
  ]
]

anyhow : {A W : Type 0} (p : Outcome A × W) → Ends (λ w. Unit {0} × Unit {0}) (λ a w. Unit {0}) p
anyhow (returned a, w) = tt
anyhow (thrown e, w) = (tt, tt)

either_action :
    {A S : Type 0} (P : A → Type 0) (b : Bool) (m n : Action S A) (s : S)
    → Only P (m s)
    → Only P (n s)
    → Only P ((if b then m else n) s)
either_action P true m n s h k = h
either_action P false m n s h k = k

after_step :
    {T W A B : Type 0} {c : ChatAgent T W} (P : B → Type 0) (p : Outcome A × State T W)
    (m : A → Action (State T W) B)
    → Within c Anything Unit p
    → ((a : A) (s : State T W) → Reached c Anything s → Only P (m a s))
    → Only P (continue p m)
after_step P (returned a, s) m r k = k a s r
after_step P (thrown e, s) m r k = tt

Only-use :
    {A S : Type 0} (P : Option A → Type 0) (o : Outcome (Option A)) (s : S) (a : A)
    → Only {S = S} P (o, s)
    → o ≡ returned (some a)
    → P (some a)
Only-use {S = S} P o s a k e = subst (λ x. Only {S = S} P (x, s)) e k

-- Two things that hold of one end.
both :
    {T W A : Type 0} (c : ChatAgent T W) (P : A → Type 0) (p : Outcome A × State T W)
    → Within c Anything Unit p
    → Only P p
    → Ends (λ s. Unit {0}) (λ a s. P a × Reached c Anything s) p
both c P (returned a, s) r k = (k, r)
both c P (thrown e, s) r k = tt

module _ {T W : Type 0} (rt : Runtime T W) (c : ChatAgent T W) where
  Anything-Respects : Respects rt c Anything (Unit {0})
  Anything-Respects = record {
    push = λ x h w r. tt;
    asks = λ q h w r. anyhow (c.llm q w);
    works = λ name f v h w found r. tt;
    specialists = λ a v h w r. tt;
    sets_fact = λ m i k v h w e r. tt;
    all_facts = λ m i h w e r. tt;
    adds_summary = λ m i v t h w e r. tt;
    latest_summary = λ m i h w e r. tt;
    searches = λ m t n v h w e r. tt;
  }

  delegate-Genuine :
      (call : FunctionCall) (s : State T W) → Only (GenuineWork c) (delegate rt call s)
  unfolding delegate
  delegate-Genuine call s = behind _ (destructured_args call s) _ λ args s1.
      let wanted = get_member args "specialist_role" in
      let task = get_member args "task_for_specialist" in
      behind _ (check_arguments wanted task s1) _ λ _ s2.
        behind _ (in_registry roles_of s2) _ λ roles s3.
          behind _ (chosen_role roles wanted s3) _ λ role s4.
            behind _ (in_registry (agent_for rt role) s4) _ λ a s5.
              behind _ (in_world (rt.execute_task a task) s5) _ λ v s6.
                behind _ (response_text v s6) _
                  λ text s7. behind _ (add_to_history "model" text s7) _ λ _ s8. tt

  delegated_or_error :
      (p : Outcome Worked × State T W)
      → Only (GenuineWork c) p
      → Only (GenuineWork c) (handled p (λ e. pure (delegation_error e)))
  delegated_or_error (returned o, s) k = k
  delegated_or_error (thrown e, s) k = inl (text-signal _)

  tool_or_error :
      (name : String) (f : Value → Action W Value) (args : Value) (w : W) (t : String → String)
      (p : Outcome Value × W)
      → find_tool_function (as_agent c) name ≡ some f
      → f args w ≡ p
      → Only (Genuine c) (handled p (λ e. pure (str (t e))))
  tool_or_error name f args w t (returned v, w') found e = inr (name, f, args, w, w', found, e)
  tool_or_error name f args w t (thrown x, w') found e = inl (text-signal (t x))

  ran-Genuine :
      (call : FunctionCall) (o : Option (Value → Action W Value)) (w : W)
      → find_tool_function (as_agent c) call.name ≡ o
      → Only (Genuine c) (run_function call o w)
  ran-Genuine call none w e = inl (text-signal _)
  ran-Genuine call (some f) w e =
      tool_or_error call.name f (args_of call) w (call_error call.name) (f (args_of call) w) e refl

  result-Genuine :
      (a : ChatAgent T W) (p : Outcome Value × W)
      → Only (Genuine c) p
      → Only {S = State T W} (GenuineWork c) (continue (p.0, (a, p.1)) (λ v. pure (result v)))
  result-Genuine a (returned v, w) k = k
  result-Genuine a (thrown e, w) k = tt

  tried_tool :
      (call : FunctionCall) (s : State T W)
      → Reached c Anything s
      → Only (GenuineWork c) (
          (in_world (run_function call (find_tool_function (as_agent s.0) call.name)) >>= λ v.
          pure (result v))
            s)
  unfolding find_tool_function
  tried_tool call _ (reached task h registry w r) =
      result-Genuine _ (run_function call (find_tool_function (as_agent c) call.name) w)
        (ran-Genuine call _ w refl)

  work-Genuine :
      (call : FunctionCall) (s : State T W)
      → Reached c Anything s
      → Only (GenuineWork c) (work rt call s)
  unfolding work
  work-Genuine call s r =
      either_action (GenuineWork c)
        (call.name == delegation_name && s.0.specialist_delegation_enabled)
        (try_catch (delegate rt call) (λ e. pure (delegation_error e))) _ s
        (delegated_or_error (delegate rt call s) (delegate-Genuine call s)) (tried_tool call s r)

  abbrev IsGenuineLoop : (Option Response → Value → Action (State T W) (Option Ending)) → Type 0
  IsGenuineLoop again =
      (response : Option Response) (last : Value) (s : State T W)
      → Reached c Anything s
      → Genuine c last
      → Only (GenuineEnding c) (again response last s)

  next_round-Genuine :
      (again : Option Response → Value → Action (State T W) (Option Ending))
      → IsGenuineLoop again
      → (name : String) (o : Worked) (s : State T W) → Reached c Anything s
      → GenuineWork c o
      → Only (GenuineEnding c) (next_round again name o s)
  unfolding next_round
  next_round-Genuine again k name (delegated text) s r g = tt
  next_round-Genuine again k name (result v) s r g =
      after_step (GenuineEnding c) (continue_with name v s) _
        (continue_with-Within rt c Anything Unit Anything-Respects name v s r)
        (λ response s1 r1. k response v s1 r1 g)

  rounds-Genuine : (fuel : ℕ) → IsGenuineLoop (rounds rt fuel)
  unfolding rounds
  rounds-Genuine zero response last s r g = tt
  rounds-Genuine (suc fuel) none last s r g = g
  rounds-Genuine (suc fuel) (some a) last s r g =
      let again = rounds-Genuine fuel in
      elim (Option-cases a.function_call) [
        | inl e ↦ rw (e, rounds) g
        | inr (call, e) ↦
            rw (e, rounds)
              (after_step (GenuineEnding c) (add_to_history "model" (call_text a call) s) _
                (add_to_history-Within rt c Anything Unit Anything-Respects Unit "model" _ s r)
                λ _ s1 r1.
                  Ends-continue _ _ _ (work rt call s1) _
                    (both c (GenuineWork c) (work rt call s1)
                      (work-Within rt c Anything Unit Anything-Respects Unit call s1 r1)
                      (work-Genuine call s1 r1))
                    λ o s2 (g2, r2). next_round-Genuine (rounds rt fuel) again call.name o s2 r2 g2)
      ]

  conclude-Genuine :
      (message text : String) (last : Value) (s : State T W)
      → Genuine c last
      → Only (GenuineReply c) (conclude rt message text last s)
  unfolding conclude
  conclude-Genuine message text last s g =
      behind _ (add_to_history "model" text s) _
        λ _ s1. behind _ (evaluation rt message text s1) _ λ _ s2. signal_of-cases c last g

  finish-Genuine :
      (message : String) (o : Ending) (s : State T W)
      → GenuineEnding c (some o)
      → Only (GenuineReply c) (finish rt message o s)
  unfolding finish
  finish-Genuine message (by_specialist text) s g = inl refl
  finish-Genuine message (answered none last) s g = inl refl
  finish-Genuine message (answered (some a) last) s g =
      either_action (GenuineReply c) (has_text a.text) _ _ s
        (conclude-Genuine message (or_text a.text "") last s g) (inl refl)

  abbrev GenuineResult : Option Reply → Type 0
  GenuineResult none = Unit
  GenuineResult (some r) = GenuineReply c r

  kept_reply :
      (p : Outcome Reply × State T W)
      → Only (GenuineReply c) p
      → Only GenuineResult (continue p (λ r. pure (some r)))
  kept_reply (returned r, s) g = g
  kept_reply (thrown e, s) g = tt

  finished-Genuine :
      (message : String) (o : Option Ending) (s : State T W)
      → GenuineEnding c o
      → Only GenuineResult (finished rt message o s)
  finished-Genuine message none s g = tt
  finished-Genuine message (some o) s g =
      kept_reply (finish rt message o s) (finish-Genuine message o s g)

  process_user_message-Genuine :
      (fuel : ℕ) (message : String) (s : State T W)
      → Reached c Anything s
      → Only GenuineResult (process_user_message rt fuel message s)
  unfolding process_user_message answer_message
  process_user_message-Genuine fuel message s r =
      let s1 = (set_task message s).1 in
      let r1 = set_task-Reached rt c Anything Unit Anything-Respects message s r in
      after_step GenuineResult (add_to_history "user" message s1) _
        (add_to_history-Within rt c Anything Unit Anything-Respects Unit "user" message s1 r1)
        λ _ s2 r2.
          after_step GenuineResult (ask message s2) _
            (ask-Within rt c Anything Unit Anything-Respects message s2 r2)
            λ response s3 r3.
              Ends-continue _ _ _ (rounds rt fuel response null s3) _
                (rounds-Genuine fuel response null s3 r3 (inl refl))
                λ ending s4 g. finished-Genuine message ending s4 g

  only_returned :
      {A : Type 0} (P : Option A → Type 0) (p : Outcome (Option A) × State T W) (a : A)
      → Only P p
      → p.0 ≡ returned (some a)
      → P (some a)
  only_returned P p a k e = Only-use P p.0 p.1 a k e

  -- Whatever the model, the specialists and the memories do: if `processUserMessage` returns a
  -- reply with a signal, the signal and its `_signal_type` are truthy, and a tool of the agent
  -- returned it. So the text of the model cannot forge one, nor an error of a tool.
  pub process_user_message-signal :
      (fuel : ℕ) (message : String) (w : W) (reply : Reply)
      → (process_user_message rt fuel message (c, w)).0 ≡ returned (some reply)
      → GenuineReply c reply
  process_user_message-signal fuel message w reply e =
      only_returned GenuineResult (process_user_message rt fuel message (c, w)) reply
        (process_user_message-Genuine fuel message (c, w)
          (reached c.task c.conversation_history c.agent_registry w tt))
        e
