-- ===== src/Orchestrator/Worker.antt =====
-- An agent as an orchestrator uses it: any object with these members. A formatter may throw.
-- `worker` makes one of an `Agent` of lib/agent.js.
use gemini_agent_lib.Prelude.{ℕ, String, Bool, true, false, Option, none, some, or_else, ◌+++◌}
use gemini_agent_lib.Prelude.Action.{Outcome, returned, thrown, Action, pure, ◌>>=◌}
use gemini_agent_lib.Agent.{Agent}
use gemini_agent_lib.Agent.Task.{execute_task}

pub record Worker (W : Type 0) : Type 0 where
  pub role : String
  pub objective : String
  pub enable_google_search : Bool
  pub task_formatter : Option (String → Outcome String)
  pub execute_task : String → Action W String

abbrev quoted : Bool → String → String → String
quoted true task by_default = "\"" +++ task +++ "\""
quoted false task by_default = by_default

-- The task for an agent: by its formatter, in quotes for a search agent, or as given last.
abbrev pub assign : {W : Type 0} → Worker W → String → String → Outcome String
assign a task by_default = elim a.task_formatter [
  | some format ↦ format task
  | none ↦ returned (quoted a.enable_google_search task by_default)
]

-- what runs on the task; an error of the formatter is not caught
abbrev pub with_task : {W A : Type 0} → Outcome String → (String → Action W A) → Action W A
with_task (returned task) run w = run task w
with_task (thrown e) run w = (thrown e, w)

abbrev answer_text : Option (Option String) → String
answer_text o = or_else (or_else o none) "undefined"

-- `executeTask` after `agent.task = task`, on enough fuel
abbrev pub worker : {W : Type 0} → ℕ → Agent W → Worker W
worker fuel a = record {
  role = a.role;
  objective = a.objective;
  enable_google_search = a.enable_google_search;
  task_formatter = a.task_formatter;
  execute_task = λ task. execute_task fuel (record a { task = task }) >>= λ o. pure (answer_text o);
}
