-- ===== src/ChatAgent/Handoff.antt =====
-- A delegated task of lib/chat-agent.js that a specialist answers.
use gemini_agent_lib.Prelude.{
  ℕ, suc, String, ◌≡◌, refl, ap, ◌∙◌, arith, Bool, true, false, ◌&&◌, if◌then◌else◌, any, none,
  some, is_empty, ◌==◌,
}
use gemini_agent_lib.Prelude.Action.{Outcome, returned, Action, pure, try_catch, handled, continue}
use gemini_agent_lib.Value.{Value, undefined, null, bool, num, str, obj, arr, truthy, get_member}
use gemini_agent_lib.AgentRegistry
use gemini_agent_lib.AgentRegistry.{AgentRegistry, AgentInstance, get_specialist_agent}
use gemini_agent_lib.Agent.{FunctionCall, Response}
use gemini_agent_lib.ChatAgent.{ChatAgent, State, add_to_history}
use gemini_agent_lib.ChatAgent.Delegation.{delegation_name}
use gemini_agent_lib.ChatAgent.Conversation.{
  destructured, Runtime, delegation_error, by_specialist, delegated, call_text, ask, set_task,
  delegate, work, next_round, rounds, finish, answer_message, process_user_message,
}

-- What the specialist of a role answers to a task, in an agent whose delegation is enabled.
pub record Answered {T W : Type 0} (rt : Runtime T W) (c : ChatAgent T W) (w : W) (role : String)
    (task : Value) (text : String) (g : AgentRegistry T) (w' : W) : Type 0 where
  pub before : AgentRegistry T
  pub specialist : AgentInstance T
  pub enabled : c.specialist_delegation_enabled ≡ true
  pub registry : c.agent_registry ≡ some before
  pub known : any (λ r. r == role) (AgentRegistry.get_available_specialist_roles before) ≡ true
  pub found :
      get_specialist_agent rt.env rt.sdk rt.construct role false before ≡ (returned specialist, g)
  pub executed : rt.execute_task specialist task w ≡ (returned (str text), w')

-- a function call that delegates this task to this role
pub record Delegates (call : FunctionCall) (role : String) (task : Value) : Type 0 where
  pub args : Value
  pub name : call.name ≡ delegation_name
  pub given : call.args ≡ some args
  pub role_given : get_member args "specialist_role" ≡ str role
  pub task_given : get_member args "task_for_specialist" ≡ task
  pub role_named : is_empty role ≡ false
  pub task_named : truthy task ≡ true

-- Arguments with a role that is a text are an object.
destructured-text :
    {S : Type 0} (v : Value) (key role : String) (s : S)
    → get_member v key ≡ str role
    → destructured (some v) s ≡ (returned v, s)
destructured-text undefined key role s e = ground (arith, e)
destructured-text null key role s e = ground (arith, e)
destructured-text (bool b) key role s e = refl
destructured-text (num n) key role s e = refl
destructured-text (str t) key role s e = refl
destructured-text (arr vs) key role s e = refl
destructured-text (obj fs) key role s e = refl

module _ {S A : Type 0} where
  chosen_true : (b : Bool) (m n : Action S A) (s : S) → b ≡ true → (if b then m else n) s ≡ m s
  chosen_true true m n s e = refl
  chosen_true false m n s e = ground (arith, e)

  handled_returned :
      (p : Outcome A × S) (h : String → Action S A) (a : A) (s : S)
      → p ≡ (returned a, s)
      → handled p h ≡ (returned a, s)
  handled_returned p h a s e = ap (λ q. handled q h) e

  continue_returned :
      {B : Type 0} (p : Outcome A × S) (m : A → Action S B) (a : A) (s : S)
      → p ≡ (returned a, s)
      → continue p m ≡ m a s
  continue_returned p m a s e = ap (λ q. continue q m) e

module _ {T W : Type 0} (rt : Runtime T W) (c : ChatAgent T W) (call : FunctionCall) (role : String)
    (task : Value) (text : String) (g : AgentRegistry T) where
  delegate-handoff :
      (w w' : W)
      → Delegates call role task
      → Answered rt c w role task text g w'
      → delegate rt call (c, w) ≡ (
        returned (delegated text),
        (add_to_history "model" text (record c { agent_registry = some g }, w')).1,
      )
  unfolding delegate add_to_history
  delegate-handoff w w' d a =
      rw
        (
          d.given,
          destructured-text {S = State T W} d.args "specialist_role" role (c, w) d.role_given,
          d.role_given,
          d.role_named,
          d.task_given,
          d.task_named,
          a.registry,
          a.known,
          a.found,
          a.executed,
        )
        refl

  work-handoff :
      (w w' : W)
      → Delegates call role task
      → Answered rt c w role task text g w'
      → work rt call (c, w) ≡ (
        returned (delegated text),
        (add_to_history "model" text (record c { agent_registry = some g }, w')).1,
      )
  unfolding work
  work-handoff w w' d a =
      chosen_true (call.name == delegation_name && c.specialist_delegation_enabled)
        (try_catch (delegate rt call) (λ e. pure (delegation_error e))) _ (c, w)
        (rw (d.name, a.enabled) refl)
      ∙ handled_returned (delegate rt call (c, w)) _ (delegated text) _ (delegate-handoff w w' d a)

module _ {T W : Type 0} (rt : Runtime T W) where
  round-handoff :
      (fuel : ℕ) (r : Response) (call : FunctionCall) (last : Value) (s : State T W)
      (c : ChatAgent T W) (w : W) (text : String) (s' : State T W)
      → r.function_call ≡ some call
      → (add_to_history "model" (call_text r call) s).1 ≡ (c, w)
      → work rt call (c, w) ≡ (returned (delegated text), s')
      → rounds rt (suc fuel) (some r) last s ≡ (returned (some (by_specialist text)), s')
  unfolding rounds add_to_history next_round
  round-handoff fuel r call last s c w text s' e added worked =
      rw (e, rounds)
        (ap (λ q. continue (work rt call q) (next_round (rounds rt fuel) call.name)) added
          ∙ continue_returned (work rt call (c, w)) (next_round (rounds rt fuel) call.name)
              (delegated text) s' worked)

  -- Where the model answers the message with a call that delegates a task to a role, and the
  -- specialist of that role in the agent's registry answers the task with a text: with fuel for
  -- one round, `processUserMessage` returns that text with no signal, and does not ask the model
  -- again; the history ends in the call and the specialist's text.
  pub process_user_message-handoff :
      (fuel : ℕ) (message : String) (s asked : State T W) (r : Response) (call : FunctionCall)
      (c : ChatAgent T W) (w : W) (role : String) (task : Value) (text : String)
      (g : AgentRegistry T) (w' : W)
      → ask message (add_to_history "user" message (set_task message s).1).1
        ≡ (returned (some r), asked)
      → r.function_call ≡ some call
      → (add_to_history "model" (call_text r call) asked).1 ≡ (c, w)
      → Delegates call role task
      → Answered rt c w role task text g w'
      → process_user_message rt (suc fuel) message s ≡ (
        returned (some (record { text = some text; internal_tool_signal = none })),
        (add_to_history "model" text (record c { agent_registry = some g }, w')).1,
      )
  unfolding process_user_message answer_message finish add_to_history
  process_user_message-handoff fuel message s asked r call c w role task text g w' e f added d a =
      let worked = work-handoff rt c call role task text g w w' d a in
      let round = round-handoff fuel r call null asked c w text _ f added worked in
      continue_returned (ask message _) _ (some r) asked e
      ∙ continue_returned (rounds rt (suc fuel) (some r) null asked) _ (some (by_specialist text)) _
          round
