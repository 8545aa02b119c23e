-- ===== src/AutoGen.antt =====
-- lib/auto-gen-orchestrator.js: the order in which the sub-tasks of a plan are worked on, after
-- their dependencies. The counter `inDegree[id]` is kept as the edges that were added and those
-- that were removed; it is 0 where they are as many.
pub mod Order
pub mod Planning
pub mod Prompts
pub mod Execution
pub mod Orchestration
mod Tests
use gemini_agent_lib.Prelude.{
  ℕ, zero, suc, ◌+◌, String, Bool, true, false, Option, none, some, List, [], ◌∷◌, ◌++◌, length,
  map, nat_eq, is_some, or_else, if◌then◌else◌,
}
use gemini_agent_lib.Prelude.Dict.{Dict, get, put, has}
use gemini_agent_lib.AgentRegistry.{or_text}

-- a sub-task of a plan; `depends_on` is `none` where it is no array
pub record SubTask : Type 0 where
  pub id : Option String
  pub task_description : String
  pub agent_role : String
  pub agent_objective : String
  pub agent_task_prompt : String
  pub enable_google_search : Bool
  pub depends_on : Option (List String)

-- `task.id || task.taskDescription`
abbrev pub id_of : SubTask → String
id_of t = or_text t.id t.task_description

pub record Degree : Type 0 where
  pub added : ℕ
  pub removed : ℕ

pub record Plan : Type 0 where
  pub graph : Dict (List String)
  pub in_degree : Dict Degree

abbrev pub no_degree : Degree
no_degree = record { added = 0; removed = 0 }

-- the first loop: a node for each sub-task
unfoldable pub add_nodes : List SubTask → Plan → Plan
add_nodes [] p = p
add_nodes (t ∷ ts) p =
    add_nodes ts
      (record { graph = put p.graph (id_of t) []; in_degree = put p.in_degree (id_of t) no_degree })

abbrev pub raised : Degree → Degree
raised d = record d { added = suc d.added }

abbrev pub lowered : Degree → Degree
lowered d = record d { removed = suc d.removed }

abbrev pub is_zero : Degree → Bool
is_zero d = nat_eq d.added d.removed

-- an edge from a dependency, if the plan has it
abbrev pub add_edge : String → String → Option (List String) → Plan → Plan
add_edge id dependency none p = p
add_edge id dependency (some out) p = record {
  graph = put p.graph dependency (out ++ (id ∷ []));
  in_degree = put p.in_degree id (raised (or_else (get p.in_degree id) no_degree));
}

unfoldable pub add_edges : String → List String → Plan → Plan
add_edges id [] p = p
add_edges id (d ∷ ds) p = add_edges id ds (add_edge id d (get p.graph d) p)

-- the second loop
unfoldable pub add_dependencies : List SubTask → Plan → Plan
unfolding add_edges
add_dependencies [] p = p
add_dependencies (t ∷ ts) p = add_dependencies ts (add_edges (id_of t) (or_else t.depends_on []) p)

abbrev pub has_none : Option Degree → Bool
has_none none = false
has_none (some d) = is_zero d

-- the third loop: the queue at first
unfoldable pub first_queue : Dict Degree → List SubTask → List String
first_queue degrees [] = []
first_queue degrees (t ∷ ts) =
    let rest = first_queue degrees ts in
    if has_none (get degrees (id_of t)) then id_of t ∷ rest else rest

pub record Search : Type 0 where
  pub queue : List String
  pub in_degree : Dict Degree

-- one edge is removed; a node without edges is pushed
unfoldable pub remove_edge : String → Option Degree → Search → Search
remove_edge id none s = s
remove_edge id (some d) s =
    let degrees = put s.in_degree id (lowered d) in
    if is_zero (lowered d)
    then record { queue = s.queue ++ (id ∷ []); in_degree = degrees }
    else record { queue = s.queue; in_degree = degrees }

unfoldable pub remove_edges : List String → Search → Search
unfolding remove_edge
remove_edges [] s = s
remove_edges (n ∷ ns) s = remove_edges ns (remove_edge n (get s.in_degree n) s)

abbrev pub prepend : String → Option (List String) → Option (List String)
prepend id none = none
prepend id (some ids) = some (id ∷ ids)

-- the `while` loop, on fuel: the identifiers in the order in which they leave the queue
unfoldable pub visit : ℕ → Dict (List String) → List String → Dict Degree → Option (List String)
unfolding remove_edges
visit zero graph queue degrees = none
visit (suc fuel) graph [] degrees = some []
visit (suc fuel) graph (id ∷ queue) degrees =
    let s =
      remove_edges (or_else (get graph id) []) (record { queue = queue; in_degree = degrees }) in
    prepend id (visit fuel graph s.queue s.in_degree)

unfoldable pub task_map : List SubTask → Dict SubTask → Dict SubTask
task_map [] d = d
task_map (t ∷ ts) d = task_map ts (put d (id_of t) t)

unfoldable pub plan_of : List SubTask → Plan
unfolding add_nodes add_dependencies
plan_of ts = add_dependencies ts (add_nodes ts (record { graph = []; in_degree = [] }))

-- The fuel: the queue at first, and one for each node.
unfoldable pub order_ids : List SubTask → Option (List String)
unfolding visit plan_of first_queue
order_ids ts =
    let p = plan_of ts in
    let queue = first_queue p.in_degree ts in
    visit (suc (length queue + length p.in_degree)) p.graph queue p.in_degree

-- the identifiers as sub-tasks; on a cycle the original order
unfoldable pub ordered : List SubTask → List String → List (Option SubTask)
unfolding task_map
ordered ts ids =
    if nat_eq (length ids) (length ts) then map (λ id. get (task_map ts []) id) ids else map some ts

abbrev pub placed : List SubTask → Option (List String) → Option (List (Option SubTask))
placed ts none = none
placed ts (some ids) = some (ordered ts ids)

-- `orderSubTasksByDependencies`; `none` in the result is `undefined`
unfoldable pub order_sub_tasks_by_dependencies : List SubTask → Option (List (Option SubTask))
unfolding order_ids ordered
order_sub_tasks_by_dependencies ts = placed ts (order_ids ts)
