-- ===== src/ToolBuilder.antt =====
-- lib/tool-builder.js. A builder is its `toolDefinition`; a method that throws leaves what it
-- has written. An absent argument is the empty text, which is falsy as `undefined` is. Types are
-- texts. What `build` returns is the value of the definition at that time: the object that it
-- shares with the builder is not modelled.
pub mod WellFormed
pub mod Factory
mod Tests
use gemini_agent_lib.Prelude.{
  String, Bool, true, false, not, Option, none, some, List, [], ◌∷◌, ◌++◌, ◌==◌, ◌+++◌, is_empty,
  any, if◌then◌else◌,
}
use gemini_agent_lib.Prelude.Dict.{Dict, get, put, remove, has, spread}
use gemini_agent_lib.Prelude.Action.{
  Outcome, returned, thrown, Action, pure, throw, try_catch, ◌>>=◌, ◌>>◌,
}
use gemini_agent_lib.Value.{Value, Items, bool, str, arr}
use gemini_agent_lib.SchemaType
use gemini_agent_lib.SchemaType.{SchemaType, to_upper_case}

-- a parameter's declaration: `type`, `description` and the options
abbrev pub Property : Type 0
Property = Dict Value

-- `R` is what a call of the tool's function gives.
pub record ToolDefinition (R : Type 0) : Type 0 where
  pub name : String
  pub description : String
  pub parameters_type : SchemaType
  pub properties : Dict Property
  pub required : List String
  pub function : Option (Dict Value → R)

-- `xs.includes(x)`
abbrev pub includes : List String → String → Bool
includes xs x = any (λ y. y == x) xs

-- `convertTypeToSchemaType`. The lower-case labels of its `switch` are never met, since the text
-- is in upper case.
unfoldable pub convert_type : String → Outcome SchemaType
unfolding to_upper_case
convert_type type =
    let t = to_upper_case type in
    if t == "STRING"
    then returned SchemaType.string
    else if t == "NUMBER"
    then returned SchemaType.number
    else if t == "BOOLEAN"
    then returned SchemaType.boolean
    else if t == "OBJECT"
    then returned SchemaType.object
    else if t == "ARRAY"
    then returned SchemaType.array
    else if t == "NULL"
    then returned SchemaType.null
    else thrown ("Unsupported parameter type: '" +++ type +++ "'.")

abbrev invalid_type : String → String → String
invalid_type type message = "Invalid parameter type '" +++ type +++ "': " +++ message

abbrev is_true : Option Value → Bool
is_true (some (bool b)) = b
is_true v = false

abbrev pub not_found : String → String
not_found name = "Parameter '" +++ name +++ "' not found in tool definition."

abbrev pub no_function : String
no_function =
    "Tool function is not defined. Call setFunction() to provide the function implementation."

module _ {R : Type 0} where
  -- the constructor, and `createTool`
  unfoldable pub new : String → String → Outcome (ToolDefinition R)
  new name description =
      if is_empty name
      then thrown "Tool name is required."
      else if is_empty description
      then thrown "Tool description is required."
      else returned (record {
        name = name;
        description = description;
        parameters_type = SchemaType.object;
        properties = [];
        required = [];
        function = none;
      })

  unfoldable pub set_parameter_required : String → Action (ToolDefinition R) Unit
  set_parameter_required name b =
      if not (has b.properties name)
      then throw (not_found name) b
      else if includes b.required name
      then pure tt b
      else pure tt (record b { required = b.required ++ name ∷ [] })

  abbrev declare : String → SchemaType → String → Dict Value → ToolDefinition R → ToolDefinition R
  declare name type description options b =
      let base : Property =
        ("type", str (SchemaType.text type)) ∷ ("description", str description) ∷ [] in
      record b { properties = put b.properties name (spread base (remove options "required")) }

  -- the body of `addParameter` behind the type check
  abbrev add_declared : String → String → Dict Value → SchemaType → Action (ToolDefinition R) Unit
  add_declared name description options type b =
      let b' = declare name type description options b in
      if is_true (get options "required") then set_parameter_required name b' else pure tt b'

  abbrev add_typed :
      String → String → String → Dict Value → Outcome SchemaType → Action (ToolDefinition R) Unit
  add_typed name description type options (returned t) b = add_declared name description options t b
  add_typed name description type options (thrown e) b = throw (invalid_type type e) b

  unfoldable pub add_parameter :
      String → String → String → Dict Value → Action (ToolDefinition R) Unit
  unfolding set_parameter_required convert_type
  add_parameter name type description options b =
      if is_empty name
      then throw "Parameter name is required." b
      else if is_empty type
      then throw "Parameter type is required." b
      else if is_empty description
      then throw "Parameter description is required." b
      else add_typed name description type options (convert_type type) b

  abbrev with_property : String → Value → Option Property → Action (ToolDefinition R) Unit
  with_property name values none b = throw (not_found name) b
  with_property name (arr xs) (some p) b =
      pure tt (record b { properties = put b.properties name (put p "enum" (arr xs)) })
  with_property name values (some p) b = throw "Enum values must be an array." b

  unfoldable pub add_enum_to_parameter : String → Value → Action (ToolDefinition R) Unit
  add_enum_to_parameter name values b = with_property name values (get b.properties name) b

  -- `none` is an argument that is no function
  unfoldable pub set_function : Option (Dict Value → R) → Action (ToolDefinition R) Unit
  set_function none b = throw "Function reference must be a JavaScript function." b
  set_function (some f) b = pure tt (record b { function = some f })

  unfoldable pub build : ToolDefinition R → Outcome (ToolDefinition R)
  build b = elim b.function [ none ↦ thrown no_function | some f ↦ returned b ]

  abbrev configured :
      ToolDefinition R → (Dict Value → R) → Dict Value → Dict Value → ToolDefinition R
  configured b original defaults config = record b {
    function = some (λ args. original (spread (spread defaults config) args));
  }

  -- The factory: from a configuration to a tool whose function reads defaults, configuration and
  -- arguments, the later over the earlier.
  unfoldable pub create_factory :
      ToolDefinition R → Dict Value → Outcome (Dict Value → ToolDefinition R)
  create_factory b defaults = elim b.function [
    | none ↦ thrown no_function
    | some f ↦ returned (configured b f defaults)
  ]

-- One call of a chain of calls on a builder.
pub data Call (R : Type 0) : Type 0 where
  add_parameter_call : String → String → String → Dict Value → Call R
  set_required_call : String → Call R
  add_enum_call : String → Value → Call R
  set_function_call : Option (Dict Value → R) → Call R

module _ {R : Type 0} where
  unfoldable pub call : Call R → Action (ToolDefinition R) Unit
  call (add_parameter_call n t d o) = add_parameter n t d o
  call (set_required_call n) = set_parameter_required n
  call (add_enum_call n v) = add_enum_to_parameter n v
  call (set_function_call f) = set_function f

  -- `b.m(…).n(…) …`: the first call that throws ends the chain
  unfoldable pub call_all : List (Call R) → Action (ToolDefinition R) Unit
  call_all [] = pure tt
  call_all (c ∷ cs) = call c >> call_all cs
