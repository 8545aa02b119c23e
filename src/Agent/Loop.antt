-- ===== src/Agent/Loop.antt =====
-- `executeTask` ends and answers with a text, whatever fails, if the model stops asking.
use native.Mathlib.Nat.{le_refl, le_trans}
use gemini_agent_lib.Prelude.{
  ℕ, zero, suc, ◌+◌, ◌≤◌, ◌<◌, String, ◌≡◌, ◌≢◌, refl, ap, Option, none, some, arith, ◌+++◌,
  Option-cases, inl, inr,
}
use gemini_agent_lib.Prelude.Action.{
  Outcome, returned, thrown, Action, continue-pure, handled-pure, continue, pure, handled,
}
use gemini_agent_lib.Value.{Value, undefined, null}
use gemini_agent_lib.Agent.{FunctionCall, Response, Request, Agent, find_tool_function}
use gemini_agent_lib.Agent.Task.{
  args_of, failed_call, result_text, check_search, run_tool, answer_call, request, rounds,
  first_prompt, final_text, failed_task, converse, execute_task,
}

-- a result of the loop other than that its fuel ran out
abbrev Ended {ℓ} : {A : Type ℓ} → Outcome (Option A) → Type 0
Ended (returned none) = ⊥
Ended _ = Unit

-- Fuel for the rounds at a response in a world with this budget.
abbrev pub Enough : ℕ → Option Response → ℕ → Type 0
Enough fuel none n = 0 < fuel
Enough fuel (some r) n = (0 < fuel) × (r.function_call ≢ none → n + 1 < fuel)

Ended-continue {ℓ} :
    {A B W : Type ℓ} (p : Outcome A × W) (m : A → Action W (Option B))
    → ((x : A) (w : W) → p ≡ (returned x, w) → Ended (m x w).0)
    → Ended (continue p m).0
Ended-continue (returned x, w) m h = h x w refl
Ended-continue (thrown e, w) m h = tt

module _ {W : Type 0} where
  -- A bound on the calls that the model may still ask for: each asks lowers it, and no tool
  -- raises it.
  pub record Stops (a : Agent W) (budget : W → ℕ) : Type 0 where
    pub asks :
        (q : Request) (w w' : W) (r : Response) (c : FunctionCall)
        → a.llm q w ≡ (returned (some r), w')
        → r.function_call ≡ some c
        → budget w' < budget w
    pub answers : (q : Request) (w : W) → budget (a.llm q w).1 ≤ budget w
    pub works :
        (name : String) (f : Value → Action W Value) (v : Value) (w : W)
        → find_tool_function a name ≡ some f
        → budget (f v w).1 ≤ budget w

  check_search-world : (name : String) (v : Value) (w : W) → (check_search name v w).1 ≡ w
  check_search-world name undefined w = ground arith
  check_search-world name null w = ground arith
  check_search-world name _ w = refl

  module _ (a : Agent W) (budget : W → ℕ) (stops : Stops a budget) where
    checked-budget :
        (name : String) (p : Outcome Value × W)
        → budget (continue p (check_search name)).1 ≤ budget p.1
    checked-budget name (returned v, w) = rw (check_search-world name v w) (le_refl _)
    checked-budget name (thrown e, w) = le_refl _

    run_tool-budget :
        (c : FunctionCall) (f : Value → Action W Value) (w : W)
        → find_tool_function a c.name ≡ some f
        → budget (run_tool c f w).1 ≤ budget w
    unfolding run_tool
    run_tool-budget c f w h =
        let p = continue (f (args_of c) w) (check_search c.name) in
        rw
          (
            continue-pure (handled p (λ e. pure (failed_call c.name e))) (result_text c.name),
            handled-pure p (failed_call c.name),
          )
          (le_trans (checked-budget c.name (f (args_of c) w))
            (stops.works c.name f (args_of c) w h))

    answer_call-budget :
        (c : FunctionCall) (o : Option (Value → Action W Value)) (w : W)
        → find_tool_function a c.name ≡ o
        → budget (answer_call c o w).1 ≤ budget w
    unfolding answer_call
    answer_call-budget c none w h = le_refl _
    answer_call-budget c (some f) w h = run_tool-budget c f w h

    Enough-asked :
        (fuel n : ℕ) (q : Request) (w : W) (response : Option Response) (w' : W)
        → a.llm q w ≡ (returned response, w')
        → budget w ≤ n
        → n < fuel
        → Enough fuel response (budget w')
    Enough-asked fuel n q w none w' e h k = omega arith
    Enough-asked fuel n q w (some r) w' e h k = elim (Option-cases r.function_call) [
      | inl no_call ↦ (omega arith, λ call. absurd (call no_call))
      | inr (c, call) ↦ (omega arith, λ _. omega (arith, stops.asks q w w' r c e call))
    ]

    -- What is left of the fuel after a call is answered.
    answered :
        (fuel : ℕ) (r : Response) (c : FunctionCall) (w w1 : W) (added : String)
        → Enough (suc fuel) (some r) (budget w)
        → r.function_call ≡ some c
        → answer_call c (find_tool_function a c.name) w ≡ (returned added, w1)
        → budget w1 < fuel
    answered fuel r c w w1 added (h, k) call e =
        let n = answer_call-budget c (find_tool_function a c.name) w refl in
        let same = ap (λ (p : Outcome String × W). budget p.1) e in
        let m = k (λ no_call. cc) in omega arith

    rounds-Ended :
        (fuel : ℕ) (prompt : String) (response : Option Response) (w : W)
        → Enough fuel response (budget w)
        → Ended (rounds fuel a prompt response w).0
    unfolding rounds
    rounds-Ended zero prompt none w h = omega arith
    rounds-Ended zero prompt (some r) w h = absurd (omega arith)
    rounds-Ended (suc fuel) prompt none w h = tt
    rounds-Ended (suc fuel) prompt (some r) w h = elim (Option-cases r.function_call) [
      | inl no_call ↦ rw (no_call, rounds) tt
      | inr (c, call) ↦
          rw (call, rounds)
            (Ended-continue (answer_call c (find_tool_function a c.name) w) _ λ added w1 e1.
              Ended-continue (a.llm (request a (prompt +++ added)) w1) _ λ response w2 e2.
                rounds-Ended fuel (prompt +++ added) response w2 (
                  Enough-asked fuel (budget w1) (request a (prompt +++ added)) w1 response w2 e2
                    (le_refl _) (answered fuel r c w w1 added h call e1)))
    ]

    final-Ended :
        (p : Outcome (Option (Option Response)) × W)
        → Ended p.0
        → (text : Option String) × ((handled
              (continue p (λ last. pure (final_text last)))
              (λ e. pure (failed_task e))).0
            ≡ returned (some text))
    final-Ended (returned (some none), w) h = (_, refl)
    final-Ended (returned (some (some r)), w) h = (_, refl)
    final-Ended (returned none, w) h = absurd h
    final-Ended (thrown e, w) h = (_, refl)

    -- Where each call that the model asks for lowers a budget that neither another answer nor a tool
    -- raises, and the fuel is more than the budget at first, the task ends and returns an answer:
    -- neither the model nor a tool makes it throw.
    pub execute_task_total :
        (fuel : ℕ) (w : W)
        → budget w < fuel
        → (text : Option String) × ((execute_task fuel a w).0 ≡ returned (some text))
    unfolding execute_task
    execute_task_total fuel w h = final-Ended (converse fuel a w) (
        Ended-continue (a.llm (request a (first_prompt a)) w) (rounds fuel a (first_prompt a))
          λ response w1 e. rounds-Ended fuel (first_prompt a) response w1 (
            Enough-asked fuel (budget w) (request a (first_prompt a)) w response w1 e (le_refl _)
              h))
