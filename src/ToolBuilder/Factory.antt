-- ===== src/ToolBuilder/Factory.antt =====
-- The tools of a factory read the call's arguments, the configuration and the defaults.
use gemini_agent_lib.Prelude.{String, ◌≡◌, refl, some, ◌∙◌, ap}
use gemini_agent_lib.Prelude.Dict.{Dict, get, spread, IsObject, first_of_two, get-spread}
use gemini_agent_lib.Prelude.Action.{returned}
use gemini_agent_lib.Value.{Value}
use gemini_agent_lib.ToolBuilder.{ToolDefinition, configured, create_factory}

module _ {R : Type 0} where
  -- A tool made by a factory calls the function of the builder's definition on merged arguments:
  -- a key has its value in the call's arguments, else in the configuration, else in the defaults.
  pub create_factory-merge :
      (b : ToolDefinition R) (original : Dict Value → R) (defaults config args : Dict Value)
      → b.function ≡ some original
      → IsObject config
      → IsObject args
      → (factory : Dict Value → ToolDefinition R) × (tool : Dict Value → R) × (merged : Dict Value)
        × (create_factory b defaults ≡ returned factory)
        × ((factory config).function ≡ some tool)
        × (tool args ≡ original merged)
        × ((k : String)
            → get merged k
              ≡ first_of_two (get args k) (first_of_two (get config k) (get defaults k)))
  unfolding create_factory
  create_factory-merge b original defaults config args h c a = (
    configured b original defaults,
    λ call. original (spread (spread defaults config) call),
    spread (spread defaults config) args,
    rw h refl,
    refl,
    refl,
    λ k.
        get-spread (spread defaults config) args k a
        ∙ ap (first_of_two (get args k)) (get-spread defaults config k c),
  )
