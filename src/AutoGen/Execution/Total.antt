-- ===== src/AutoGen/Execution/Total.antt =====
-- `executeSubTasks` of lib/auto-gen-orchestrator.js always returns.
use text.Mathlib.TextLemmas.{append-nil}
use gemini_agent_lib.Prelude.{
  String, ◌≡◌, refl, ap, ◌∙◌, true, Bool-cases, inl, inr, Option, none, some, List, [], ◌∷◌, ◌++◌,
  map, All, length, is_some, is_empty, join, if◌then◌else◌, ◌==◌, ◌+++◌, sym, or_else, arith,
}
use gemini_agent_lib.Prelude.Dict.{get, put, has, get-put, get-put_self}
use gemini_agent_lib.Prelude.Action.{Outcome, returned, thrown, Action, handled, continue, pure}
use gemini_agent_lib.AgentRegistry.{LlmConfig, new_llm, or_text}
use gemini_agent_lib.AutoGen.{SubTask, id_of, order_sub_tasks_by_dependencies}
use gemini_agent_lib.AutoGen.Order.{order_sub_tasks_by_dependencies-In}
use gemini_agent_lib.AutoGen.Execution.{
  SpecializedAgent, State, Results, create_specialized_agent, failed_text, prompt_for,
  dependency_text, dependency_context, made_by, run_sub_task, run_sub_tasks, run_ordered,
  execute_sub_tasks,
}

put-has :
    (d : Results) (k j : String) (v : Option String) → has d j ≡ true → has (put d k v) j ≡ true
put-has d k j v h = elim (Bool-cases (k == j)) [
  | inl e ↦ ap is_some (get-put d k j v) ∙ rw e refl
  | inr e ↦ ap is_some (get-put d k j v) ∙ rw e h
]

put-has_self : (d : Results) (k : String) (v : Option String) → has (put d k v) k ≡ true
put-has_self d k v = ap is_some (get-put_self d k v)

-- the section on the result of a dependency, if there is one that is not empty
abbrev pub result_section : String → Option (Option String) → String
result_section d none = ""
result_section d (some none) = ""
result_section d (some (some s)) =
    if is_empty s then "" else "\n--- Resultado da Tarefa " +++ d +++ " ---\n" +++ s +++ "\n"

abbrev pub result_sections : List String → Results → String
result_sections [] results = ""
result_sections (d ∷ ds) results = result_section d (get results d) +++ result_sections ds results

-- The prompt of a sub-task, with a section for the result of each of its dependencies behind it.
abbrev pub prompt_with : String → List String → Results → String
prompt_with prompt [] results = prompt
prompt_with prompt (d ∷ ds) results =
    prompt +++ ("\n\n**Resultados de Tarefas Anteriores:**\n" +++ result_sections (d ∷ ds) results)

abbrev pub prompt_of : SubTask → Results → String
prompt_of t results = prompt_with t.agent_task_prompt (or_else t.depends_on []) results

dependency_text-section :
    (d : String) (o : Option (Option String)) → dependency_text d o ≡ result_section d o
dependency_text-section d none = refl
dependency_text-section d (some none) = refl
dependency_text-section d (some (some s)) = elim (Bool-cases (is_empty s)) [
  | inl e ↦ rw e refl
  | inr e ↦ rw e refl
]

join-sections :
    (ds : List String) (results : Results)
    → join "" (map (λ d. dependency_text d (get results d)) ds) ≡ result_sections ds results
join-sections [] results = refl
join-sections (d ∷ []) results =
    dependency_text-section d (get results d) ∙ sym (append-nil (result_section d (get results d)))
join-sections (d ∷ e ∷ ds) results = λ i.
    (append-nil (dependency_text d (get results d)) ∙ dependency_text-section d (get results d)) i
    +++ join-sections (e ∷ ds) results i

prompt_for-with : (t : SubTask) (results : Results) → prompt_for t results ≡ prompt_of t results
prompt_for-with t results = with_dependencies (or_else t.depends_on [])
  where
    with_dependencies :
        (ds : List String)
        → t.agent_task_prompt +++ dependency_context ds results
          ≡ prompt_with t.agent_task_prompt ds results
    with_dependencies [] = append-nil t.agent_task_prompt
    with_dependencies (d ∷ ds) =
        ap (λ x. t.agent_task_prompt +++ ("\n\n**Resultados de Tarefas Anteriores:**\n" +++ x))
          (join-sections (d ∷ ds) results)

module _ {W : Type 0} (sdk : LlmConfig → Outcome (Unit {0})) (config : LlmConfig)
    (execute : SpecializedAgent → Action W (Option String)) where
  -- What is to come of the sub-tasks in this order, from these results and this world. The agent
  -- for a sub-task has its role, and its task is the prompt with the results there are for its
  -- dependencies. What it gives is the entry of the sub-task; where it throws, or cannot be made,
  -- the entry says so; and the next sub-task is worked on in each case.
  pub data Runs : List SubTask → Results → W → Results → W → Type 0 where
    ran_all : (results : Results) (w : W) → Runs [] results w results w
    not_made :
        (t : SubTask) (ts : List SubTask) (results out : Results) (w w' : W)
        → create_specialized_agent sdk config t ≡ none
        → Runs ts (put results (id_of t) (some "Erro ao criar agente especialista.")) w out w'
        → Runs (t ∷ ts) results w out w'
    answered :
        (t : SubTask) (ts : List SubTask) (results out : Results) (w w1 w' : W)
        (a : SpecializedAgent) (answer : Option String)
        → create_specialized_agent sdk config t ≡ some a
        → a.role ≡ t.agent_role
        → execute (record a { task = prompt_of t results }) w ≡ (returned answer, w1)
        → Runs ts (put results (id_of t) answer) w1 out w'
        → Runs (t ∷ ts) results w out w'
    failed :
        (t : SubTask) (ts : List SubTask) (results out : Results) (w w1 w' : W)
        (a : SpecializedAgent) (e : String)
        → create_specialized_agent sdk config t ≡ some a
        → a.role ≡ t.agent_role
        → execute (record a { task = prompt_of t results }) w ≡ (thrown e, w1)
        → Runs ts
            (put results (id_of t) (some ("Erro na execução da sub-tarefa: " +++ e)))
            w1
            out
            w'
        → Runs (t ∷ ts) results w out w'

  -- the agent that was made for a sub-task
  made-role :
      (t : SubTask) (a : SpecializedAgent)
      → create_specialized_agent sdk config t ≡ some a
      → a.role ≡ t.agent_role
  unfolding create_specialized_agent
  made-role t a e =
      let used : LlmConfig = record config {
        model_name = or_text (some config.model_name) "gemini-2.0-flash-001";
        mode = or_text (some config.mode) "oneshot";
      } in
      by_client (new_llm sdk used) used e
    where
      by_client :
          (o : Outcome (Unit {0})) (used : LlmConfig)
          → made_by o used t ≡ some a
          → a.role ≡ t.agent_role
      by_client (returned u) used e = ap (λ o. (or_else o a).role) (sym e)
      by_client (thrown x) used e = ground (arith, e)

  -- One turn of the loop, for the agent that was made or not.
  abbrev Turned : SubTask → List SubTask → Results → State W → Option String → State W → Type 0
  Turned t ts results s answer s' =
      (out : Results) (w' : W)
      → Runs ts (put results (id_of t) answer) s'.1 out w'
      → Runs (t ∷ ts) results s.1 out w'

  -- an action that returned
  abbrev Returned : {A : Type 0} → (A → State W → Type 0) → Outcome A × State W → Type 0
  Returned {A = A} P p = (a : A) × (s : State W) × (p ≡ (returned a, s)) × P a s

  caught_error :
      (t : SubTask) (ts : List SubTask) (results : Results) (s : State W) (a : SpecializedAgent)
      (agents : List SpecializedAgent) (p : Outcome (Option String) × W)
      → create_specialized_agent sdk config t ≡ some a
      → execute (record a { task = prompt_of t results }) s.1 ≡ p
      → Returned
          (Turned t ts results s)
          (let q = handled p (λ e. pure (failed_text e)) in (q.0, (agents, q.1)))
  caught_error t ts results s a agents (returned answer, w) made e = (
    answer,
    (agents, w),
    refl,
    λ out w' rest. answered t ts results out s.1 w w' a answer made (made-role t a made) e rest,
  )
  caught_error t ts results s a agents (thrown x, w) made e = (
    failed_text x,
    (agents, w),
    refl,
    λ out w' rest. failed t ts results out s.1 w w' a x made (made-role t a made) e rest,
  )

  ran :
      (t : SubTask) (ts : List SubTask) (results : Results) (o : Option SpecializedAgent)
      (s : State W)
      → create_specialized_agent sdk config t ≡ o
      → Returned (Turned t ts results s) (run_sub_task sdk config execute t results o s)
  ran t ts results none s made =
      (_, s, refl, λ out w' rest. not_made t ts results out s.1 w' made rest)
  ran t ts results (some a) s made =
      let b : SpecializedAgent = record a { task = prompt_for t results } in
      caught_error t ts results s a (s.0 ++ (b ∷ [])) (execute b s.1) made
        (ap (λ q. execute (record a { task = q }) s.1) (sym (prompt_for-with t results)))

  -- results that come of the sub-tasks, have what is there already, and an entry for each
  abbrev Complete : List SubTask → Results → W → Outcome Results × State W → Type 0
  Complete ts results w p =
      (out : Results) × (s : State W) × (p ≡ (returned out, s))
      × Runs ts results w out s.1
      × ((id : String) → has results id ≡ true → has out id ≡ true)
      × All (λ t. has out (id_of t) ≡ true) ts

  run_all :
      (ts : List SubTask) (results : Results) (s : State W)
      → Complete ts results s.1 (run_sub_tasks sdk config execute (map some ts) results s)
  unfolding run_sub_tasks
  run_all [] results s = (results, s, refl, ran_all results s.1, λ id h. h, tt)
  run_all (t ∷ ts) results s =
      let (answer, s', e, turned) =
        ran t ts results (create_specialized_agent sdk config t) s refl in
      let next = put results (id_of t) answer in
      let (out, s'', f, runs, keeps, rest) = run_all ts next s' in
      (
        out,
        s'',
        ap
              (λ p.
                continue p
                  (λ a. run_sub_tasks sdk config execute (map some ts) (put results (id_of t) a)))
              e
            ∙ f,
        turned out s''.1 runs,
        λ id h. keeps id (put-has results (id_of t) id answer h),
        (keeps (id_of t) (put-has_self results (id_of t) answer), rest),
      )

  -- Whatever the specialists and the constructors behind them do, `executeSubTasks` returns. It
  -- works on an order of as many sub-tasks as the plan has, one after the other: each specialist
  -- has its sub-task's role, and is given its prompt with a section for each dependency that has a
  -- result by then which is not empty; its answer is the entry of its sub-task, and where it
  -- throws, or cannot be made, the text of that error is. Each sub-task has an entry.
  pub execute_sub_tasks_total :
      (ts : List SubTask) (s : State W)
      → (r : List SubTask) × (out : Results) × (s' : State W) × (order_sub_tasks_by_dependencies ts
          ≡ some (map some r))
        × (length r ≡ length ts)
        × (execute_sub_tasks sdk config execute ts s ≡ (returned (some out), s'))
        × Runs r [] s.1 out s'.1
        × All (λ t. has out (id_of t) ≡ true) r
  unfolding execute_sub_tasks
  execute_sub_tasks_total ts s =
      let (r, e, n, k) = order_sub_tasks_by_dependencies-In ts in
      let (out, s', f, runs, keeps, rest) = run_all r [] s in
      let through =
        ap (λ o. run_ordered sdk config execute o s) e
        ∙ ap (λ p. continue p (λ a. pure {S = State W} (some a))) f in
      (r, out, s', e, n, through, runs, rest)
