-- ===== src/Agent/Declarations.antt =====
-- What an agent sends to the model about its tools.
use mathlib.Core.List.{map-map, cons≢nil}
use gemini_agent_lib.Prelude.{
  String, ◌≡◌, ◌≢◌, refl, Option-cases, List-cases, ap, true, false, Option, none, some, List, [],
  ◌∷◌, map, arith, ◌⊎◌, Bool-cases, inl, inr, is_empty, ◌+++◌, ◌==◌, ◌∙◌, sym, eq_iff, or_else,
  if◌then◌else◌,
}
use gemini_agent_lib.Prelude.Action.{Outcome, returned, thrown}
use gemini_agent_lib.SchemaType
use gemini_agent_lib.SchemaType.{SchemaType, to_upper_case}
use gemini_agent_lib.ToolBuilder
use gemini_agent_lib.Agent.{
  Schema, schema, Properties, no_properties, end, property, Items, no_items, items, Declaration,
  Agent, convert_type, convert_present, convert_items, convert_property, convert_properties,
  convert_parameters, declaration, prepare_tools,
}

-- Converting the name of a schema type again gives that type.
convert_type-text : (t : SchemaType) → convert_type (SchemaType.text t) ≡ t
unfolding convert_type to_upper_case
convert_type-text SchemaType.string = refl
convert_type-text SchemaType.number = refl
convert_type-text SchemaType.boolean = refl
convert_type-text SchemaType.object = refl
convert_type-text SchemaType.array = refl
convert_type-text SchemaType.null = refl
convert_type-text SchemaType.any = refl

none-ne-some : {A : Type 0} {a : A} → Option.none ≡ some a → ⊥
none-ne-some e = cc

text-nonempty : (t : SchemaType) → is_empty (SchemaType.text t) ≡ false
text-nonempty SchemaType.string = refl
text-nonempty _ = refl

convert_present_idem : (o : Option String) → convert_present (convert_present o) ≡ convert_present o
unfolding convert_present
convert_present_idem none = refl
convert_present_idem (some s) = elim (Bool-cases (is_empty s)) [
  | inl e ↦ rw (e, e) refl
  | inr e ↦ rw (e, text-nonempty (convert_type s), convert_type-text (convert_type s)) refl
]

convert_items_idem : (is : Items) → convert_items (convert_items is) ≡ convert_items is
unfolding convert_items
convert_items_idem no_items = refl
convert_items_idem (items (schema d t ps is)) =
    ap (λ o. items (schema d o ps is)) (convert_present_idem t)

mutual
  unfolding convert_property convert_properties

  convert_property_idem : (s : Schema) → convert_property (convert_property s) ≡ convert_property s
  convert_property_idem (schema d t ps is) =
      rw (convert_present_idem t, convert_properties_idem ps, convert_items_idem is) refl

  convert_properties_idem :
      (ps : Properties) → convert_properties (convert_properties ps) ≡ convert_properties ps
  convert_properties_idem no_properties = refl
  convert_properties_idem end = refl
  convert_properties_idem (property name s ps) =
      rw (convert_property_idem s, convert_properties_idem ps) refl

-- Converting parameters that are converted already changes nothing, at any depth: so that the
-- source converts them in place, on every request, does no harm.
pub convert_parameters_idem :
    (s : Schema) → convert_parameters (convert_parameters s) ≡ convert_parameters s
unfolding convert_parameters
convert_parameters_idem (schema d t ps is) =
    rw (convert_present_idem t, convert_properties_idem ps) refl

-- the types that a schema can name, by their names in upper case
abbrev named_type : String → Option SchemaType
named_type t =
    if t == "STRING"
    then some SchemaType.string
    else if t == "NUMBER"
    then some SchemaType.number
    else if t == "BOOLEAN"
    then some SchemaType.boolean
    else if t == "OBJECT"
    then some SchemaType.object
    else if t == "ARRAY"
    then some SchemaType.array
    else if t == "NULL"
    then some SchemaType.null
    else none

convert_type-named :
    (name : String) → convert_type name ≡ or_else (named_type (to_upper_case name)) SchemaType.any
unfolding convert_type
convert_type-named name = ground arith

-- a type that was found, or the builder's error
abbrev found_type : String → Option SchemaType → Outcome SchemaType
found_type name none = thrown ("Unsupported parameter type: '" +++ name +++ "'.")
found_type name (some t) = returned t

builder-named :
    (name : String)
    → ToolBuilder.convert_type name ≡ found_type name (named_type (to_upper_case name))
unfolding ToolBuilder.convert_type
builder-named name = ground arith

-- A type that is found has the name that was looked for, and a type that has that name is found.
named_type-text : (u : String) (t : SchemaType) → named_type u ≡ some t → SchemaType.text t ≡ u
named_type-text u t e = ground (
  arith,
  e,
  eq_iff u "STRING",
  eq_iff u "NUMBER",
  eq_iff u "BOOLEAN",
  eq_iff u "OBJECT",
  eq_iff u "ARRAY",
  eq_iff u "NULL",
)

text-named_type : (t : SchemaType) → t ≢ SchemaType.any → named_type (SchemaType.text t) ≡ some t
text-named_type SchemaType.string h = refl
text-named_type SchemaType.number h = refl
text-named_type SchemaType.boolean h = refl
text-named_type SchemaType.object h = refl
text-named_type SchemaType.array h = refl
text-named_type SchemaType.null h = refl
text-named_type SchemaType.any h = absurd (h refl)

unnamed :
    (u : String) (t : SchemaType) → named_type u ≡ none → t ≢ SchemaType.any → SchemaType.text t ≢ u
unnamed u t e h q = none-ne-some (sym e ∙ ap named_type (sym q) ∙ text-named_type t h)

named_type-ne-any : (t : String) → named_type t ≢ some SchemaType.any
named_type-ne-any t = ground arith

-- A builder and an agent read a type's name alike: where the name in upper case is that of a type
-- other than ANY both give that type, and else the builder throws and the agent gives ANY.
pub convert_type_agree :
    (name : String)
    → ((t : SchemaType) × (ToolBuilder.convert_type name ≡ returned t)
        × (convert_type name ≡ t)
        × (t ≢ SchemaType.any)
        × (SchemaType.text t ≡ to_upper_case name))
      ⊎ ((e : String) × (ToolBuilder.convert_type name ≡ thrown e)
          × (convert_type name ≡ SchemaType.any)
          × ((t : SchemaType) → t ≢ SchemaType.any → SchemaType.text t ≢ to_upper_case name))
convert_type_agree name = elim (Option-cases (named_type (to_upper_case name))) [
  | inl e ↦ inr (
    "Unsupported parameter type: '" +++ name +++ "'.",
    builder-named name ∙ ap (found_type name) e,
    convert_type-named name ∙ ap (λ o. or_else o SchemaType.any) e,
    λ t h. unnamed (to_upper_case name) t e h,
  )
  | inr (t, e) ↦ inl (
    t,
    builder-named name ∙ ap (found_type name) e,
    convert_type-named name ∙ ap (λ o. or_else o SchemaType.any) e,
    λ q. named_type-ne-any (to_upper_case name) (e ∙ ap some q),
    named_type-text (to_upper_case name) t e,
  )
]

module _ {W : Type 0} where
  -- Nothing is sent exactly when there is no tool and no search. Else one object is sent: with
  -- tools it declares each of them, in order, and has no search, also where search is enabled;
  -- with none it asks for search alone.
  pub prepare_tools_cases :
      (a : Agent W)
      → ((a.tools ≡ []) × (a.enable_google_search ≡ false) × (prepare_tools a ≡ none))
        ⊎ ((a.tools ≡ [])
            × (a.enable_google_search ≡ true)
            × (prepare_tools a
                ≡ some (record { function_declarations = none; google_search = true } ∷ [])))
        ⊎ ((ds : List Declaration) × (a.tools ≢ [])
            × (prepare_tools a
                ≡ some (record { function_declarations = some ds; google_search = false } ∷ []))
            × (map (λ d. d.name) ds ≡ map (λ t. t.name) a.tools))
  unfolding prepare_tools
  prepare_tools_cases a = elim (List-cases a.tools) [
    | inl e ↦ elim (Bool-cases a.enable_google_search) [
      | inl s ↦ inr (inl (e, s, rw (e, s) refl))
      | inr s ↦ inl (e, s, rw (e, s) refl)
    ]
    | inr (t, ts, e) ↦ elim (Bool-cases a.enable_google_search) [
      | inl s ↦
          inr (inr (map declaration a.tools, rw e cons≢nil, rw (e, s) refl, map-map _ _ a.tools))
      | inr s ↦
          inr (inr (map declaration a.tools, rw e cons≢nil, rw (e, s) refl, map-map _ _ a.tools))
    ]
  ]
