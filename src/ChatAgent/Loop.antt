-- ===== src/ChatAgent/Loop.antt =====
-- The loop of `processUserMessage` of lib/chat-agent.js ends, and its call gives a reply, if the
-- model stops asking for functions.
use native.Mathlib.Nat.{le_refl}
use gemini_agent_lib.Prelude.{
  ℕ, zero, suc, ◌≤◌, ◌<◌, String, ◌≡◌, refl, Option, none, some, arith, List, Option-cases, inl,
  inr,
}
use gemini_agent_lib.Prelude.Action.{
  Outcome, returned, thrown, Action, Ends, Ends-continue, continue, pure,
}
use gemini_agent_lib.Value.{Value, null}
use gemini_agent_lib.AgentRegistry.{AgentRegistry}
use gemini_agent_lib.Agent.{FunctionCall, Response}
use gemini_agent_lib.Agent.Loop.{Enough}
use gemini_agent_lib.ChatAgents.{Reply}
use gemini_agent_lib.ChatAgent.{Message, ChatRequest, ChatAgent, State, in_world, add_to_history}
use gemini_agent_lib.ChatAgent.Context.{prepare_enriched_context}
use gemini_agent_lib.ChatAgent.Conversation.{
  Runtime, Worked, delegated, result, Ending, result_turn, result_prompt, call_text, request, ask,
  next_round, continue_with, work, rounds, finish, finished, set_task, answer_message,
  process_user_message,
}
use gemini_agent_lib.ChatAgent.Frame.{
  Relation, Respects, Reached, reached, Within, view, add_to_history-Within,
}
use gemini_agent_lib.ChatAgent.Frame.Memories.{prepare_enriched_context-Within}
use gemini_agent_lib.ChatAgent.Frame.Conversation.{work-Within}
use gemini_agent_lib.ChatAgent.Frame.Turn.{set_task-Reached, process_user_message-Within}

abbrev pub AtMost : {W : Type 0} → (W → ℕ) → ℕ → Relation W
AtMost budget n h w = budget w ≤ n

-- A bound on the functions that the model may still ask for: each asks lowers it, nothing that
-- the agent calls raises it, and the model does not throw.
pub record Stops {T W : Type 0} (rt : Runtime T W) (c : ChatAgent T W) (budget : W → ℕ)
    : Type 0 where
  pub asks :
      (q : ChatRequest) (w w' : W) (r : Response) (call : FunctionCall)
      → c.llm q w ≡ (returned (some r), w')
      → r.function_call ≡ some call
      → budget w' < budget w
  pub keeps : (n : ℕ) → Respects rt c (AtMost budget n) ⊥

-- a result other than that the fuel ran out
abbrev pub Answers : {A : Type 0} → Option A → Type 0
Answers none = ⊥
Answers (some a) = Unit

-- If it returns, after_step with a result.
abbrev Gives : {A S : Type 0} → Outcome (Option A) × S → Type 0
Gives p = Ends (λ s. Unit {0}) (λ o s. Answers o) p

-- the fuel left when a function is asked for
more :
    (fuel n : ℕ) (a : Response) (call : FunctionCall)
    → a.function_call ≡ some call
    → Enough (suc fuel) (some a) n
    → n < fuel
more fuel n a call e (k, m) = let m' = m (λ no_call. cc) in omega arith

-- A step that keeps a relation, and then one that ends in some way.
after_step :
    {T W A B : Type 0} {c : ChatAgent T W} (R : Relation W) (p : Outcome A × State T W)
    (m : A → Action (State T W) B) (Q : B → State T W → Type 0)
    → Within c R Unit p
    → ((a : A) (s : State T W) → Reached c R s → Ends (λ s. Unit {0}) Q (m a s))
    → Ends (λ s. Unit {0}) Q (continue p m)
after_step R (returned a, s) m Q r k = k a s r
after_step R (thrown e, s) m Q r k = tt

some-Gives :
    {A S : Type 0} (p : Outcome A × S) → Gives (continue p (λ (a : A). pure {S = S} (some a)))
some-Gives (returned a, s) = tt
some-Gives (thrown e, s) = tt

returned_some :
    {A T W : Type 0} (c : ChatAgent T W) (R : Relation W) (p : Outcome (Option A) × State T W)
    → Within c R ⊥ p
    → Gives p
    → (a : A) × (p.0 ≡ returned (some a))
returned_some c R (returned none, s) r g = absurd g
returned_some c R (returned (some a), s) r g = (a, refl)
returned_some c R (thrown e, s) (x, r) g = absurd x

module _ {T W : Type 0} (rt : Runtime T W) (c : ChatAgent T W) (budget : W → ℕ)
    (stops : Stops rt c budget) where
  -- the state behind a request, with the fuel that its answer needs
  abbrev Ready : ℕ → Option Response → State T W → Type 0
  Ready fuel response s = (n : ℕ) × Reached c (AtMost budget n) s × Enough fuel response n

  lower :
      (fuel n : ℕ) (q : ChatRequest) (w : W) (p : Outcome (Option Response) × W) (task : String)
      (h : List Message) (registry : Option (AgentRegistry T))
      → c.llm q w ≡ p
      → budget w ≤ n
      → n < fuel
      → budget p.1 ≤ n
      → Ends (λ s. Unit {0}) (Ready fuel) (p.0, (view c task h registry, p.1))
  lower fuel n q w (thrown e, w') task h registry eq b k b' = tt
  lower fuel n q w (returned none, w') task h registry eq b k b' =
      (n, reached task h registry w' b', omega arith)
  lower fuel n q w (returned (some r), w') task h registry eq b k b' =
      elim (Option-cases r.function_call) [
        | inl no_call ↦
            (n, reached task h registry w' b', (omega arith, λ call. absurd (call no_call)))
        | inr (call, asked) ↦ (
          budget w',
          reached task h registry w' (le_refl _),
          (omega arith, λ _. omega (arith, stops.asks q w w' r call eq asked)),
        )
      ]

  world_after :
      (n : ℕ) (h : List Message) (p : Outcome (Option Response) × W)
      → Ends (λ w'. ⊥ × AtMost budget n h w') (λ r w'. AtMost budget n h w') p
      → budget p.1 ≤ n
  world_after n h (returned r, w) k = k
  world_after n h (thrown e, w) (x, k) = absurd x

  requested :
      (fuel n : ℕ) (prompt context : String) (s : State T W)
      → Reached c (AtMost budget n) s
      → n < fuel
      → Ends (λ s. Unit {0}) (Ready fuel) (in_world (s.0.llm (request prompt context s.0)) s)
  requested fuel n prompt context _ (reached task h registry w b) k =
      let q = request prompt context (view c task h registry) in
      lower fuel n q w (c.llm q w) task h registry refl b k
        (world_after n h (c.llm q w) ((stops.keeps n).asks q h w b))

  asked :
      (fuel n : ℕ) (prompt : String) (s : State T W)
      → Reached c (AtMost budget n) s
      → n < fuel
      → Ends (λ s. Unit {0}) (Ready fuel) (ask prompt s)
  unfolding ask
  asked fuel n prompt s r k =
      after_step (AtMost budget n) (prepare_enriched_context s) _ (Ready fuel)
        (prepare_enriched_context-Within rt c (AtMost budget n) ⊥ (stops.keeps n) Unit s r)
        (λ context s1 r1. requested fuel n prompt context s1 r1 k)

  continued :
      (fuel n : ℕ) (name : String) (v : Value) (s : State T W)
      → Reached c (AtMost budget n) s
      → n < fuel
      → Ends (λ s. Unit {0}) (Ready fuel) (continue_with name v s)
  unfolding continue_with
  continued fuel n name v s r k =
      after_step (AtMost budget n) (add_to_history "user" (result_turn name v) s) _ (Ready fuel)
        (add_to_history-Within rt c (AtMost budget n) ⊥ (stops.keeps n) Unit "user" _ s r)
        (λ _ s1 r1. asked fuel n (result_prompt name v) s1 r1 k)

  next_round-Gives :
      (fuel n : ℕ) (again : Option Response → Value → Action (State T W) (Option Ending))
      → ((response : Option Response) (last : Value) (s : State T W)
          → Ready fuel response s
          → Gives (again response last s))
      → (name : String) (o : Worked) (s : State T W) → Reached c (AtMost budget n) s
      → n < fuel
      → Gives (next_round again name o s)
  unfolding next_round
  next_round-Gives fuel n again g name (delegated text) s r k = tt
  next_round-Gives fuel n again g name (result v) s r k =
      Ends-continue _ _ _ (continue_with name v s) _ (continued fuel n name v s r k)
        (λ response s1 r1. g response v s1 r1)

  rounds-Gives :
      (fuel : ℕ) (response : Option Response) (last : Value) (s : State T W)
      → Ready fuel response s
      → Gives (rounds rt fuel response last s)
  unfolding rounds
  rounds-Gives zero none last s (n, r, k) = absurd (omega arith)
  rounds-Gives zero (some a) last s (n, r, k) = absurd (omega arith)
  rounds-Gives (suc fuel) none last s (n, r, k) = tt
  rounds-Gives (suc fuel) (some a) last s (n, r, k) =
      let again = rounds-Gives fuel in
      elim (Option-cases a.function_call) [
        | inl e ↦ rw (e, rounds) tt
        | inr (call, e) ↦
            let less : n < fuel = more fuel n a call e k in
            rw (e, rounds)
              (after_step (AtMost budget n) (add_to_history "model" (call_text a call) s) _
                (λ o s. Answers o)
                (add_to_history-Within rt c (AtMost budget n) ⊥ (stops.keeps n) Unit "model" _ s r)
                λ _ s1 r1.
                  after_step (AtMost budget n) (work rt call s1) _ (λ o s. Answers o)
                    (work-Within rt c (AtMost budget n) ⊥ (stops.keeps n) Unit call s1 r1)
                    λ o s2 r2.
                      next_round-Gives fuel n (rounds rt fuel) again call.name o s2 r2 less)
      ]

  finished-Gives :
      (message : String) (o : Option Ending) (s : State T W)
      → Answers o
      → Gives (finished rt message o s)
  finished-Gives message none s a = absurd a
  finished-Gives message (some e) s a = some-Gives (finish rt message e s)

  answer_message-Gives :
      (fuel n : ℕ) (message : String) (s : State T W)
      → Reached c (AtMost budget n) s
      → n < fuel
      → Gives (answer_message rt fuel message s)
  unfolding answer_message
  answer_message-Gives fuel n message s r k =
      Ends-continue _ _ _ (ask message s) _ (asked fuel n message s r k) λ response s1 r1.
        Ends-continue _ _ _ (rounds rt fuel response null s1) _
          (rounds-Gives fuel response null s1 r1)
          λ ending s2 r2. finished-Gives message ending s2 r2

  process_user_message-Gives :
      (fuel n : ℕ) (message : String) (s : State T W)
      → Reached c (AtMost budget n) s
      → n < fuel
      → Gives (process_user_message rt fuel message s)
  unfolding process_user_message
  process_user_message-Gives fuel n message s r k =
      let s1 = (set_task message s).1 in
      let r1 = set_task-Reached rt c (AtMost budget n) ⊥ (stops.keeps n) message s r in
      after_step (AtMost budget n) (add_to_history "user" message s1) _ (λ o s. Answers o)
        (add_to_history-Within rt c (AtMost budget n) ⊥ (stops.keeps n) Unit "user" message s1 r1)
        (λ _ s2 r2. answer_message-Gives fuel n message s2 r2 k)

  -- Where the model does not throw, each function that it asks for lowers a budget that nothing
  -- the agent calls raises, and the fuel is more than the budget at first: `processUserMessage`
  -- returns a reply, whatever the tools, the specialists and the memories do and whichever of them
  -- throw.
  pub process_user_message_total :
      (fuel : ℕ) (message : String) (w : W)
      → budget w < fuel
      → (reply : Reply) × ((process_user_message rt fuel message (c, w)).0 ≡ returned (some reply))
  process_user_message_total fuel message w k =
      let first = reached c.task c.conversation_history c.agent_registry w (le_refl (budget w)) in
      returned_some c (AtMost budget (budget w)) (process_user_message rt fuel message (c, w))
        (process_user_message-Within rt c _ ⊥ (stops.keeps (budget w)) fuel message (c, w) first)
        (process_user_message-Gives fuel (budget w) message (c, w) first k)
