-- ===== src/AutoGen/Orchestration/Laws.antt =====
-- That `orchestrateTask` of lib/auto-gen-orchestrator.js answers, and which plans it never sees.
use gemini_agent_lib.Prelude.{
  ℕ, String, ◌≡◌, refl, sym, ap, ◌∙◌, subst, true, false, Bool-cases, inl, inr, Option, some, List,
  [], ◌∷◌, map,
}
use gemini_agent_lib.Prelude.Action.{
  Outcome, returned, thrown, Action, pure, handled, continue, Returns, Returns-continue, Yields,
  Yields-returned, Yields-continue, Yields-handled,
}
use gemini_agent_lib.Value.{
  Value, undefined, null, bool, num, str, obj, arr, Fields, member, truthy,
}
use gemini_agent_lib.AgentRegistry.{LlmConfig}
use gemini_agent_lib.ThinkingAgent.{
  ThinkingAgent, think, or_value, final_answer, process_thinking_response,
}
use gemini_agent_lib.AutoGen.{SubTask}
use gemini_agent_lib.AutoGen.Order.{order_sub_tasks_by_dependencies-In}
use gemini_agent_lib.AutoGen.Execution.{SpecializedAgent, Results, execute_sub_tasks}
use gemini_agent_lib.AutoGen.Execution.Total.{execute_sub_tasks_total}
use gemini_agent_lib.AutoGen.Prompts.{planning_prompt, answer_prompt}
use gemini_agent_lib.AutoGen.Orchestration.{
  Auto, with_prompt, ask, on_agents, read_plan, generate_task_plan, chosen, read_answer,
  answer_with, generate_final_response, answer_results, carry_out, orchestrate_task, value_of,
  combined_results, result_entry, after_entry, plan_json, no_plan_answer,
}

module _ {A S : Type 0} (P : A → S → Type 0) where
  Yields-of : (x : Outcome A) (a : A) (s : S) → x ≡ returned a → P a s → Yields P (x, s)
  Yields-of x a s e h = rw e h

  Yields-caught :
      (p : Outcome A × S) (m : String → Action S A) → Yields P p → Yields P (handled p m)
  Yields-caught (returned a, s) m h = h
  Yields-caught (thrown e, s) m h = absurd h

  Returns-of_Yields : (p : Outcome A × S) → Yields P p → Returns P p
  Returns-of_Yields (returned a, s) h = h
  Returns-of_Yields (thrown e, s) h = absurd h

-- The results of sub-tasks that are there can be written.
combined_total :
    (results : Results) (ts : List SubTask)
    → (text : String) × (combined_results results (map some ts) ≡ returned text)
unfolding combined_results
combined_total results [] = ("", refl)
combined_total results (t ∷ ts) =
    let (rest, e) = combined_total results ts in (_, ap (after_entry (result_entry results t)) e)

module _ {W : Type 0} (fuel : ℕ) (a : ThinkingAgent W) where
  -- The agent ends on every task, on this fuel.
  abbrev pub Thinks : Type 0
  Thinks =
      (task : String) (w : W)
      → (o : Option String) × ((think fuel (with_prompt a task) w).0 ≡ returned (some o))

  -- The orchestrator's agent is this one, on some task.
  abbrev Same : Auto W → Type 0
  Same s = (t : String) × (s.0.orchestrator_agent ≡ with_prompt a t)

  abbrev Got : {A : Type 0} → Option A → Auto W → Type 0
  Got {A = A} o s = ((x : A) × (o ≡ some x)) × Same s

  -- There is an answer: the fuel was enough.
  abbrev Some : {A : Type 0} → Option A → Auto W → Type 0
  Some {A = A} o s = (x : A) × (o ≡ some x)

  ask-Yields : (prompt : String) (s : Auto W) → Thinks → Same s → Yields Got (ask fuel prompt s)
  unfolding ask
  ask-Yields prompt s thinks (t, e) =
      let same = ap (λ (b : ThinkingAgent W). with_prompt b prompt) e in
      let (o, q) = thinks prompt s.1 in
      Yields-of Got (think fuel (with_prompt s.0.orchestrator_agent prompt) s.1).0 (some o) _
        (ap (λ (b : ThinkingAgent W). (think fuel b s.1).0) same ∙ q) ((o, refl), (prompt, same))

  read_plan-Yields :
      (parse_json : String → Outcome Value) (o : Option (Option String)) (s : Auto W)
      → Got o s
      → Yields Got (read_plan parse_json o s)
  read_plan-Yields parse_json o s ((raw, e), same) = rw e ((_, refl), same)

  generate_task_plan-Yields :
      (parse_json : String → Outcome Value) (user_task : String) (s : Auto W)
      → Thinks
      → Same s
      → Yields Got (generate_task_plan fuel parse_json user_task s)
  unfolding generate_task_plan
  generate_task_plan-Yields parse_json user_task s thinks same =
      let p = ask fuel (planning_prompt user_task) s in
      Yields-caught Got (continue p (read_plan parse_json)) (λ e. pure (some []))
        (Yields-continue Got Got p (read_plan parse_json)
          (ask-Yields (planning_prompt user_task) s thinks same) (read_plan-Yields parse_json))

  chosen-Returns : (v : Value) (raw : Option String) (s : Auto W) → Returns Some (chosen v raw s)
  chosen-Returns (str t) raw s = (_, refl)
  chosen-Returns undefined raw s = (_, refl)
  chosen-Returns null raw s = (_, refl)
  chosen-Returns (bool true) raw s = tt
  chosen-Returns (bool false) raw s = (_, refl)
  chosen-Returns (num n) raw s = elim (Bool-cases (truthy (num n))) [
    | inl e ↦ rw e tt
    | inr e ↦ rw e (_, refl)
  ]
  chosen-Returns (obj fs) raw s = tt
  chosen-Returns (arr xs) raw s = tt

  read_answer-Returns :
      (parse_json : String → Outcome Value) (o : Option (Option String)) (s : Auto W)
      → Got o s
      → Returns Some (read_answer parse_json o s)
  read_answer-Returns parse_json o s ((raw, e), same) = rw e (
      chosen-Returns
        (or_value (final_answer (process_thinking_response parse_json raw)) (value_of raw)) raw s)

  answer_with-Yields :
      (parse_json : String → Outcome Value) (user_task : String) (plan : List SubTask)
      (text : String) (s : Auto W)
      → Thinks
      → Same s
      → Yields Some (answer_with fuel parse_json user_task plan (returned text) s)
  answer_with-Yields parse_json user_task plan text s thinks same =
      let prompt = answer_prompt user_task (plan_json plan) text in
      let p = ask fuel prompt s in
      Yields-handled Some (continue p (read_answer parse_json))
        (λ e. pure (some (str "Erro ao gerar resposta final orquestrada.")))
        (Returns-continue Got Some p (read_answer parse_json)
          (Returns-of_Yields Got p (ask-Yields prompt s thinks same))
          (read_answer-Returns parse_json))
        (λ e s. (_, refl))

  final_response-Yields :
      (parse_json : String → Outcome Value) (user_task : String) (plan : List SubTask)
      (results : Results) (s : Auto W)
      → Thinks
      → Same s
      → Yields Some (generate_final_response fuel parse_json user_task plan results s)
  unfolding generate_final_response
  final_response-Yields parse_json user_task plan results s thinks same =
      let (r, e, n, k) = order_sub_tasks_by_dependencies-In plan in
      let (text, f) = combined_total results r in
      rw (e, f) (answer_with-Yields parse_json user_task plan text s thinks same)

  module _ (sdk : LlmConfig → Outcome (Unit {0}))
      (execute : SpecializedAgent → Action W (Option String)) where
    executed-Yields :
        (plan : List SubTask) (s : Auto W)
        → Same s
        → Yields Got (on_agents (execute_sub_tasks sdk s.0.config execute plan) s)
    executed-Yields plan s (t, e) =
        let (r, out, s', ordered, n, q, runs, each) =
          execute_sub_tasks_total sdk s.0.config execute plan (s.0.agents, s.1) in
        Yields-of Got (execute_sub_tasks sdk s.0.config execute plan (s.0.agents, s.1)).0 (some out)
          _ (ap (λ p. p.0) q) ((out, refl), (t, e))

    answer_results-Yields :
        (parse_json : String → Outcome Value) (user_task : String) (plan : List SubTask)
        (o : Option Results) (s : Auto W)
        → Thinks
        → Got o s
        → Yields Some (answer_results sdk execute fuel parse_json user_task plan o s)
    answer_results-Yields parse_json user_task plan o s thinks ((results, e), same) =
        rw e (final_response-Yields parse_json user_task plan results s thinks same)

    plan-Yields :
        (parse_json : String → Outcome Value) (user_task : String) (plan : List SubTask)
        (s : Auto W)
        → Thinks
        → Same s
        → Yields Some (carry_out sdk execute fuel parse_json user_task (some plan) s)
    unfolding carry_out
    plan-Yields parse_json user_task [] s thinks same = (_, refl)
    plan-Yields parse_json user_task (t ∷ ts) s thinks same =
        Yields-continue Got Some (on_agents (execute_sub_tasks sdk s.0.config execute (t ∷ ts)) s)
          (answer_results sdk execute fuel parse_json user_task (t ∷ ts))
          (executed-Yields (t ∷ ts) s same)
          (λ o s' got. answer_results-Yields parse_json user_task (t ∷ ts) o s' thinks got)

    carry_out-Yields :
        (parse_json : String → Outcome Value) (user_task : String) (o : Option (List SubTask))
        (s : Auto W)
        → Thinks
        → Got o s
        → Yields Some (carry_out sdk execute fuel parse_json user_task o s)
    carry_out-Yields parse_json user_task o s thinks ((plan, e), same) =
        rw e (plan-Yields parse_json user_task plan s thinks same)

    orchestrated :
        (parse_json : String → Outcome Value) (user_task : String) (s : Auto W)
        → Thinks
        → Same s
        → Yields Some (orchestrate_task sdk execute fuel parse_json user_task s)
    unfolding orchestrate_task
    orchestrated parse_json user_task s thinks same =
        Yields-continue Got Some (generate_task_plan fuel parse_json user_task s)
          (carry_out sdk execute fuel parse_json user_task)
          (generate_task_plan-Yields parse_json user_task s thinks same)
          (λ o s' got. carry_out-Yields parse_json user_task o s' thinks got)

module _ {W : Type 0} (fuel : ℕ) (sdk : LlmConfig → Outcome (Unit {0}))
    (execute : SpecializedAgent → Action W (Option String)) (parse_json : String → Outcome Value)
    (user_task : String) (s : Auto W) where
  -- If the orchestrator's own agent ends on every task on this fuel, `orchestrateTask` returns an
  -- answer: no text of that agent, no failure of a specialist or of making one, no dependency and
  -- no result of the JSON parser makes it throw or go on forever.
  pub orchestrate_task_total :
      Thinks fuel s.0.orchestrator_agent
      → (answer : Value) × ((orchestrate_task sdk execute fuel parse_json user_task s).0
          ≡ returned (some answer))
  orchestrate_task_total thinks =
      let a = s.0.orchestrator_agent in
      let (o, e, (answer, q)) =
        Yields-returned (Some fuel a) (orchestrate_task sdk execute fuel parse_json user_task s)
          (orchestrated fuel a sdk execute parse_json user_task s thinks (a.agent.task, refl)) in
      (answer, ap (λ p. p.0) e ∙ ap returned q)

  planned_json :
      (raw : String) (fs : Fields)
      → parse_json raw ≡ returned (obj fs)
      → truthy (member fs "final_answer") ≡ false
      → truthy (member fs "answer") ≡ false
      → final_answer (process_thinking_response parse_json (some raw)) ≡ member fs "finalAnswer"
  unfolding process_thinking_response
  planned_json raw fs e f g = rw (e, f, g)

  -- what is left to do once the agent has answered
  abbrev after_thought : Outcome (Option (Option String)) → Auto W → Outcome (Option Value) × Auto W
  after_thought x s' =
      continue (handled (continue (x, s') (read_plan parse_json)) (λ e. pure (some [])))
        (carry_out sdk execute fuel parse_json user_task)

  abbrev NoPlan : Outcome (Option Value) × Auto W → Type 0
  NoPlan p = (p.0 ≡ returned (some no_plan_answer)) × (p.1.0.agents ≡ s.0.agents)

  no_plan :
      (raw : String) (fs : Fields) (s' : Auto W)
      → parse_json raw ≡ returned (obj fs)
      → truthy (member fs "final_answer") ≡ false
      → truthy (member fs "answer") ≡ false
      → member fs "finalAnswer" ≡ undefined
      → s'.0.agents ≡ s.0.agents
      → NoPlan (after_thought (returned (some (some raw))) s')
  unfolding carry_out
  no_plan raw fs s' e f g h same = rw (planned_json raw fs e f g ∙ h) (refl, same)

  -- If the orchestrator's agent answers the planning prompt with a bare JSON object, as the prompt
  -- asks, that has no member `final_answer`, `answer` or `finalAnswer`, then, whatever plan the
  -- object holds, `orchestrateTask` runs no specialist and answers that there is no valid plan.
  pub orchestrate_task-json :
      (raw : String) (fs : Fields)
      → (think fuel (with_prompt s.0.orchestrator_agent (planning_prompt user_task)) s.1).0
        ≡ returned (some (some raw))
      → parse_json raw ≡ returned (obj fs)
      → truthy (member fs "final_answer") ≡ false
      → truthy (member fs "answer") ≡ false
      → member fs "finalAnswer" ≡ undefined
      → let p = orchestrate_task sdk execute fuel parse_json user_task s in
        (p.0 ≡ returned (some no_plan_answer)) × (p.1.0.agents ≡ s.0.agents)
  unfolding orchestrate_task generate_task_plan ask carry_out
  orchestrate_task-json raw fs thought e f g h =
      let a = with_prompt s.0.orchestrator_agent (planning_prompt user_task) in
      let w = (think fuel a s.1).1 in
      let s' : Auto W = (record s.0 { orchestrator_agent = a }, w) in
      subst (λ x. NoPlan (after_thought x s')) (sym thought) (no_plan raw fs s' e f g h refl)
