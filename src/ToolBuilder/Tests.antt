-- ===== src/ToolBuilder/Tests.antt =====
-- The theorems on lib/tool-builder.js at a tool for the weather.
use gemini_agent_lib.Prelude.{String, ◌≡◌, refl, true, none, some, List, [], ◌∷◌}
use gemini_agent_lib.Prelude.Dict.{Dict, get, first_of_two}
use gemini_agent_lib.Prelude.Action.{returned}
use gemini_agent_lib.Value.{Value, bool, str}
use gemini_agent_lib.SchemaType.{object}
use gemini_agent_lib.ToolBuilder.{
  ToolDefinition, new, create_factory, Call, add_parameter_call, set_required_call,
  set_function_call, call_all,
}
use gemini_agent_lib.ToolBuilder.WellFormed.{IsWellFormed, built-IsWellFormed}
use gemini_agent_lib.ToolBuilder.Factory.{create_factory-merge}

abbrev fresh : ToolDefinition (Dict Value)
fresh = record {
  name = "clima";
  description = "o tempo";
  parameters_type = object;
  properties = [];
  required = [];
  function = none;
}

-- the last call names no parameter and throws
abbrev chain : List (Call (Dict Value))
chain =
    add_parameter_call "cidade" "string" "a cidade" (("required", bool true) ∷ [])
    ∷ set_required_call "cidade"
    ∷ set_function_call (some (λ args. args))
    ∷ set_required_call "dia"
    ∷ []

built-IsWellFormed_example : IsWellFormed (call_all chain fresh).1
built-IsWellFormed_example = built-IsWellFormed "clima" "o tempo" fresh chain (unfold new in refl)

abbrev ready : ToolDefinition (Dict Value)
ready = record fresh { function = some (λ args. args) }

abbrev defaults : Dict Value
defaults = ("unidade", str "C") ∷ []

abbrev config : Dict Value
config = ("unidade", str "F") ∷ []

abbrev args : Dict Value
args = ("cidade", str "Natal") ∷ []

create_factory-merge_example :
    (factory : Dict Value → ToolDefinition (Dict Value)) × (tool : Dict Value → Dict Value)
    × (merged : Dict Value) × (create_factory ready defaults ≡ returned factory)
    × ((factory config).function ≡ some tool)
    × (tool args ≡ merged)
    × ((k : String)
        → get merged k ≡ first_of_two (get args k) (first_of_two (get config k) (get defaults k)))
create_factory-merge_example =
    create_factory-merge ready (λ args. args) defaults config args refl (unfold get in (refl, tt))
      (unfold get in (refl, tt))
