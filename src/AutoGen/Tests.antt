-- ===== src/AutoGen/Tests.antt =====
-- The theorems on lib/auto-gen-orchestrator.js at a plan of two sub-tasks.
use gemini_agent_lib.Prelude.{
  ℕ, suc, String, ◌≡◌, refl, false, true, Option, none, some, List, [], ◌∷◌, map, length, All, ◌<◌,
  or_else, Bool-cases, inl, inr, subst, sym, ◌==◌, eq_iff, arith, if◌then◌else◌,
}
use gemini_agent_lib.Prelude.Dict.{has, get, put}
use gemini_agent_lib.Prelude.Action.{returned, thrown, Action}
use gemini_agent_lib.AgentRegistry.{LlmConfig}
use gemini_agent_lib.AutoGen.{SubTask, id_of, order_sub_tasks_by_dependencies}
use gemini_agent_lib.AutoGen.Order.{In, order_sub_tasks_by_dependencies-In}
use gemini_agent_lib.AutoGen.Order.Acyclic.{order_sub_tasks_by_dependencies-Follows}
use gemini_agent_lib.AutoGen.Order.Ranks.{IsRanked}
use gemini_agent_lib.AutoGen.Order.Counts.{mem}
use gemini_agent_lib.AutoGen.Order.Follows.{Follows}
use gemini_agent_lib.AutoGen.Execution.{SpecializedAgent, State, Results, execute_sub_tasks}
use gemini_agent_lib.AutoGen.Execution.Total.{Runs, execute_sub_tasks_total}

abbrev sub_task : String → List String → SubTask
sub_task id depends_on = record {
  id = some id;
  task_description = "tarefa";
  agent_role = "pesquisador";
  agent_objective = "pesquisar";
  agent_task_prompt = "pesquise";
  enable_google_search = false;
  depends_on = some depends_on;
}

abbrev plan : List SubTask
plan = sub_task "b" ("a" ∷ "x" ∷ []) ∷ sub_task "a" [] ∷ []

-- the dependency comes first
ordered_plan :
    order_sub_tasks_by_dependencies plan
    ≡ some (some (sub_task "a" []) ∷ some (sub_task "b" ("a" ∷ "x" ∷ [])) ∷ [])
unfolding order_sub_tasks_by_dependencies get put
ordered_plan = refl

order_sub_tasks_by_dependencies-In_example :
    (r : List SubTask) × (order_sub_tasks_by_dependencies plan ≡ some (map some r))
    × (length r ≡ 2)
    × All (λ t. In t plan) r
order_sub_tasks_by_dependencies-In_example = order_sub_tasks_by_dependencies-In plan

-- "a" below "b"
abbrev rank : String → ℕ
rank id = if id == "a" then 0 else 1

only_x : (d : String) → mem ("x" ∷ []) d ≡ true → mem (map id_of plan) d ≡ true → ⊥
only_x d m k = elim (Bool-cases ("x" == d)) [
  | inl q ↦
      let same = subst (λ x. mem (map id_of plan) x ≡ true) (sym ((eq_iff "x" d).0 q)) k in cc same
  | inr q ↦ ground (arith, m, q)
]

a_below : (d : String) → mem ("a" ∷ "x" ∷ []) d ≡ true → mem (map id_of plan) d ≡ true → rank d < 1
a_below d m k = elim (Bool-cases ("a" == d)) [
  | inl q ↦ subst (λ x. rank x < 1) ((eq_iff "a" d).0 q) (omega arith)
  | inr q ↦ absurd (only_x d (ground (arith, m, q)) k)
]

plan-IsRanked : IsRanked plan rank
plan-IsRanked t d (inl e) m k =
    subst (λ (x : SubTask). mem (or_else x.depends_on []) d ≡ true → rank d < rank (id_of x))
      (sym e) (λ n. a_below d n k) m
plan-IsRanked t d (inr (inl e)) m k =
    subst (λ (x : SubTask). mem (or_else x.depends_on []) d ≡ true → rank d < rank (id_of x))
      (sym e) (λ n. cc n) m
plan-IsRanked t d (inr (inr i)) m k = absurd i

order_sub_tasks_by_dependencies-Follows_example :
    (r : List SubTask) × (order_sub_tasks_by_dependencies plan ≡ some (map some r))
    × (length r ≡ 2)
    × All (λ t. In t plan) r
    × Follows plan [] r
order_sub_tasks_by_dependencies-Follows_example =
    order_sub_tasks_by_dependencies-Follows plan rank (refl, (refl, tt)) plan-IsRanked

abbrev config : LlmConfig
config = record {
  project_id = some "projeto";
  credentials_path = some "chave.json";
  api_key = none;
  location = "us-central1";
  model_name = "gemini-2.0-flash-001";
  mode = "oneshot";
  generation_config = none;
}

abbrev failing : SpecializedAgent → Action ℕ (Option String)
failing a w = (thrown "sem rede", suc w)

execute_sub_tasks_total_example :
    (r : List SubTask) × (out : Results) × (s : State ℕ) × (order_sub_tasks_by_dependencies plan
      ≡ some (map some r))
    × (length r ≡ 2)
    × (execute_sub_tasks (λ c. returned tt) config failing plan ([], 0) ≡ (returned (some out), s))
    × Runs (λ c. returned tt) config failing r [] 0 out s.1
    × All (λ t. has out (id_of t) ≡ true) r
execute_sub_tasks_total_example =
    execute_sub_tasks_total (λ c. returned tt) config failing plan ([], 0)
