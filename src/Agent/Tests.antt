-- ===== src/Agent/Tests.antt =====
-- The theorems on lib/agent.js at small agents. The world counts down the calls that the model
-- still asks for.
use native.Mathlib.Nat.{le_refl}
use gemini_agent_lib.Prelude.{
  ℕ, zero, suc, ◌<◌, ◌≤◌, String, ◌≡◌, ◌≢◌, ◌⊎◌, true, Option, none, some, [], ◌∷◌, arith, ◌==◌,
  Bool-cases, inl, inr, subst,
}
use gemini_agent_lib.Prelude.Action.{returned, thrown, Action, throw}
use gemini_agent_lib.Value.{Value}
use gemini_agent_lib.SchemaType
use gemini_agent_lib.SchemaType.{SchemaType, to_upper_case}
use gemini_agent_lib.ToolBuilder
use gemini_agent_lib.Agent.{
  Schema, schema, no_properties, end, property, no_items, items, Tool, FunctionCall, Response,
  Request, Agent, convert_type, convert_parameters, find_tool_function,
}
use gemini_agent_lib.Agent.Task.{execute_task}
use gemini_agent_lib.Agent.Loop.{Stops, execute_task_total}
use gemini_agent_lib.Agent.Declarations.{convert_parameters_idem, convert_type_agree}

abbrev final : Response
final = record { text = some "pronto"; function_call = none }

abbrev asking : Response
asking = record { text = none; function_call = some (record { name = "eco"; args = none }) }

abbrev countdown : Request → Action ℕ (Option Response)
countdown q zero = (returned (some final), zero)
countdown q (suc n) = (returned (some asking), n)

-- a tool that always throws
abbrev broken : Tool ℕ
broken = record {
  name = "eco";
  description = "repete";
  parameters = none;
  function = some (λ v. throw "sem rede");
}

abbrev clerk : Agent ℕ
clerk = record {
  role = "balconista";
  objective = "atender";
  context = "loja";
  task = "vender";
  llm = countdown;
  tools = broken ∷ [];
  enable_google_search = true;
  task_formatter = none;
}

asks :
    (q : Request) (w w' : ℕ) (r : Response) (c : FunctionCall)
    → countdown q w ≡ (returned (some r), w')
    → r.function_call ≡ some c
    → w' < w
asks q zero w' r c e call = ground arith
asks q (suc n) w' r c e call = ground arith

answers : (q : Request) (w : ℕ) → (countdown q w).1 ≤ w
answers q zero = le_refl 0
answers q (suc n) = omega arith

-- what a tool that is found does to the world
abbrev Lowers : Option (Value → Action ℕ Value) → Type 0
Lowers none = Unit
Lowers (some f) = (v : Value) (w : ℕ) → (f v w).1 ≤ w

found-Lowers : (name : String) → Lowers (find_tool_function clerk name)
unfolding find_tool_function
found-Lowers name = elim (Bool-cases ("eco" == name)) [
  | inl e ↦ rw (e, Lowers) (λ v w. le_refl w)
  | inr e ↦ rw (e, Lowers) tt
]

works :
    (name : String) (f : Value → Action ℕ Value) (v : Value) (w : ℕ)
    → find_tool_function clerk name ≡ some f
    → (f v w).1 ≤ w
works name f v w e = subst Lowers e (found-Lowers name) v w

abbrev clerk-Stops : Stops clerk (λ w. w)
clerk-Stops = record { asks = asks; answers = answers; works = works }

execute_task_total_example :
    (text : Option String) × ((execute_task 3 clerk 2).0 ≡ returned (some text))
execute_task_total_example = execute_task_total clerk (λ w. w) clerk-Stops 3 2 (omega arith)

abbrev lamp : Schema
lamp =
    schema "uma lâmpada" (some "object")
      (property "cores"
        (schema "as cores" (some "array") no_properties
          (items (schema "" (some "string") no_properties no_items)))
        end)
      no_items

convert_parameters_idem_example :
    convert_parameters (convert_parameters lamp) ≡ convert_parameters lamp
convert_parameters_idem_example = convert_parameters_idem lamp

convert_type_agree_example :
    ((t : SchemaType) × (ToolBuilder.convert_type "any" ≡ returned t)
      × (convert_type "any" ≡ t)
      × (t ≢ SchemaType.any)
      × (SchemaType.text t ≡ to_upper_case "any"))
    ⊎ ((e : String) × (ToolBuilder.convert_type "any" ≡ thrown e)
        × (convert_type "any" ≡ SchemaType.any)
        × ((t : SchemaType) → t ≢ SchemaType.any → SchemaType.text t ≢ to_upper_case "any"))
convert_type_agree_example = convert_type_agree "any"
