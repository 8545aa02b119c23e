-- ===== src/Agent.antt =====
-- lib/agent.js: an agent with its tools, and the declarations of the tools that it sends to the
-- language model. `W` is the state of the world that the model and the tools act on. The
-- properties that the source converts in place are converted copies here.
pub mod Task
pub mod Declarations
pub mod Loop
mod Tests
use gemini_agent_lib.Prelude.{
  String, Bool, true, false, not, ◌&&◌, ◌||◌, Option, none, some, List, [], ◌∷◌, map, find,
  is_empty, ◌==◌, if◌then◌else◌,
}
use gemini_agent_lib.Prelude.Action.{Outcome, Action}
use gemini_agent_lib.Value.{Value}
use gemini_agent_lib.SchemaType
use gemini_agent_lib.SchemaType.{SchemaType, to_upper_case}
use mathlib.Core.Option

-- A declaration of parameters: its `type`, its `properties`, its `items`, each if it has one, and
-- its description. Other members are carried along by the source and left out.
mutual
  pub data Schema : Type 0 where
    schema : (description : String) (type : Option String) → Properties → Items → Schema

  pub data Properties : Type 0 where
    no_properties end : Properties
    property : String → Schema → Properties → Properties

  pub data Items : Type 0 where
    no_items : Items
    items : Schema → Items

pub record Tool (W : Type 0) : Type 0 where
  pub name : String
  pub description : String
  pub parameters : Option Schema
  pub function : Option (Value → Action W Value)

pub record FunctionCall : Type 0 where
  pub name : String
  pub args : Option Value

-- what the language model answers
pub record Response : Type 0 where
  pub text : Option String
  pub function_call : Option FunctionCall

pub record Declaration : Type 0 where
  pub name : String
  pub description : String
  pub parameters : Option Schema

-- `google_search` is there or not; its value is the empty object
pub record ToolsConfig : Type 0 where
  pub function_declarations : Option (List Declaration)
  pub google_search : Bool

pub record Request : Type 0 where
  pub prompt : String
  pub tools : Option (List ToolsConfig)
  pub context : String

abbrev pub Llm : Type 0 → Type 0
Llm W = Request → Action W (Option Response)

pub record Agent (W : Type 0) : Type 0 where
  pub role : String
  pub objective : String
  pub context : String
  pub task : String
  pub llm : Llm W
  pub tools : List (Tool W)
  pub enable_google_search : Bool
  pub task_formatter : Option (String → Outcome String)

-- `convertTypeToSchemaType`. The lower-case labels of its `switch` are never met, since the text
-- is in upper case.
unfoldable pub convert_type : String → SchemaType
unfolding to_upper_case
convert_type type =
    let t = to_upper_case type in
    if t == "STRING"
    then SchemaType.string
    else if t == "NUMBER"
    then SchemaType.number
    else if t == "BOOLEAN"
    then SchemaType.boolean
    else if t == "OBJECT"
    then SchemaType.object
    else if t == "ARRAY"
    then SchemaType.array
    else if t == "NULL"
    then SchemaType.null
    else SchemaType.any

-- `if (prop.type) prop.type = …`
unfoldable pub convert_present : Option String → Option String
unfolding convert_type
convert_present none = none
convert_present (some type) =
    some (if is_empty type then type else SchemaType.text (convert_type type))

-- only the type of an array's items is converted
unfoldable pub convert_items : Items → Items
unfolding convert_present
convert_items no_items = no_items
convert_items (items (schema d type ps is)) = items (schema d (convert_present type) ps is)

-- the loops over the properties, of the parameters and of `convertNestedProperties`
unfoldable mutual
  unfolding convert_present convert_items

  pub convert_property : Schema → Schema
  convert_property (schema d type ps is) =
      schema d (convert_present type) (convert_properties ps) (convert_items is)

  pub convert_properties : Properties → Properties
  convert_properties no_properties = no_properties
  convert_properties end = end
  convert_properties (property name s ps) =
      property name (convert_property s) (convert_properties ps)

-- `convertParametersToGeminiFormat`
unfoldable pub convert_parameters : Schema → Schema
unfolding convert_present convert_properties
convert_parameters (schema d type ps is) =
    schema d (convert_present type) (convert_properties ps) is

abbrev pub is_nil {ℓ} : {A : Type ℓ} → List A → Bool
is_nil [] = true
is_nil (x ∷ xs) = false

module _ {W : Type 0} where
  abbrev declaration : Tool W → Declaration
  declaration t = record {
    name = t.name;
    description = t.description;
    parameters = Option.map convert_parameters t.parameters;
  }

  -- `prepareToolsForLLM`
  unfoldable pub prepare_tools : Agent W → Option (List ToolsConfig)
  prepare_tools a =
      if is_nil a.tools && not a.enable_google_search
      then none
      else if not (is_nil a.tools) && a.enable_google_search
      then some (
          record { function_declarations = some (map declaration a.tools); google_search = false }
          ∷ [])
      else some (
          record {
            function_declarations = if is_nil a.tools then none else some (map declaration a.tools);
            google_search = a.enable_google_search;
          }
          ∷ [])

  -- `findToolFunction`
  unfoldable pub find_tool_function : Agent W → String → Option (Value → Action W Value)
  find_tool_function a name = elim (find (λ t. t.name == name) a.tools) [
    | none ↦ none
    | some t ↦ t.function
  ]
