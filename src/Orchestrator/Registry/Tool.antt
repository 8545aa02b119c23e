-- ===== src/Orchestrator/Registry/Tool.antt =====
-- What a call of the tool of lib/orchestrator-tool-factory.js gives on each of its paths.
use gemini_agent_lib.Prelude.{
  String, ◌≡◌, refl, ap, false, Option, none, some, List, ◌⊎◌, inl, inr, ◌+++◌,
}
use gemini_agent_lib.Prelude.Dict.{get}
use gemini_agent_lib.Prelude.Action.{Outcome, returned, thrown, handled, pure}
use gemini_agent_lib.Value.{
  Value, undefined, null, bool, num, str, obj, arr, Fields, member, to_text, is_undefined,
}
use gemini_agent_lib.Orchestrator.Registry.{
  Orchestrator, OrchestratorConfig, OrchestratorRegistry, Classes, run_orchestrator, run_input,
  run_found, configured, cached, instantiate, get_orchestrator, tool_function, input_key,
}

module _ {T G W : Type 0} (classes : Classes T G W) where
  -- The orchestrator that is registered for a name: one that is kept, or one made now from the
  -- configuration.
  pub data Gets (r : OrchestratorRegistry T G W) (name : String) (o : Orchestrator G W)
      : Type 0 where
    kept : get r.instances name ≡ some o → Gets r name o
    made :
        (c : OrchestratorConfig T W)
        → get r.instances name ≡ none
        → get r.configs name ≡ some c
        → instantiate classes name c ≡ returned o
        → Gets r name o

  -- Why a call of the tool fails, the error of it, and the world behind it.
  pub data Fails (r : OrchestratorRegistry T G W) (name : String) (properties : List String)
      (args : Fields) (w : W) : String → W → Type 0 where
    unknown :
        get r.instances name ≡ none
        → get r.configs name ≡ none
        → (e : String)
        → e ≡ "[OrchestratorRegistry] Orquestrador com nome '" +++ name +++ "' não encontrado."
        → Fails r name properties args w e w
    not_made :
        (c : OrchestratorConfig T W) (e : String)
        → get r.instances name ≡ none
        → get r.configs name ≡ some c
        → instantiate classes name c ≡ thrown e
        → Fails r name properties args w e w
    no_argument :
        (o : Orchestrator G W)
        → Gets r name o
        → member args (input_key properties) ≡ undefined
        → (e : String)
        → e
          ≡ "Argumento esperado '"
            +++ input_key properties
            +++ "' não fornecido para o orquestrador '"
            +++ name
            +++ "'."
        → Fails r name properties args w e w
    threw :
        (o : Orchestrator G W) (e : String) (w' : W)
        → Gets r name o
        → is_undefined (member args (input_key properties)) ≡ false
        → run_orchestrator classes o (to_text (member args (input_key properties))) w
          ≡ (thrown e, w')
        → Fails r name properties args w e w'

  -- A call of the tool that has the orchestrator's own answer.
  pub data Answers (r : OrchestratorRegistry T G W) (name : String) (properties : List String)
      (args : Fields) (w : W) : Option String → W → Type 0 where
    ran :
        (o : Orchestrator G W) (answer : Option String) (w' : W)
        → Gets r name o
        → is_undefined (member args (input_key properties)) ≡ false
        → run_orchestrator classes o (to_text (member args (input_key properties))) w
          ≡ (returned answer, w')
        → Answers r name properties args w answer w'

  -- Either the orchestrator's answer, or the text with the name and the error.
  abbrev pub Told :
      OrchestratorRegistry T G W
      → String
      → List String
      → Fields
      → W
      → Outcome (Option String) × W
      → Type 0
  Told r name properties args w p =
      ((answer : Option String) × (w' : W) × (p ≡ (returned answer, w'))
        × Answers r name properties args w answer w')
      ⊎ ((e : String) × (w' : W) × (p
            ≡ (returned (some ("Erro ao executar orquestrador " +++ name +++ ": " +++ e)), w'))
          × Fails r name properties args w e w')

  module _ (r : OrchestratorRegistry T G W) (name : String) (properties : List String)
      (args : Fields) (w : W) where
    abbrev explained : Outcome (Option String) × W → Outcome (Option String) × W
    explained p =
        handled p (λ e. pure (some ("Erro ao executar orquestrador " +++ name +++ ": " +++ e)))

    run-Told :
        (o : Orchestrator G W) (p : Outcome (Option String) × W)
        → Gets r name o
        → is_undefined (member args (input_key properties)) ≡ false
        → run_orchestrator classes o (to_text (member args (input_key properties))) w ≡ p
        → Told r name properties args w (explained p)
    run-Told o (returned answer, w') g given e = inl (answer, w', refl, ran o answer w' g given e)
    run-Told o (thrown x, w') g given e = inr (x, w', refl, threw o x w' g given e)

    input-Told :
        (o : Orchestrator G W) (v : Value)
        → Gets r name o
        → member args (input_key properties) ≡ v
        → Told r name properties args w
            (explained (run_input classes name (input_key properties) o v w))
    input-Told o undefined g e = inr (_, w, refl, no_argument o g e _ refl)
    input-Told o null g e =
        run-Told o _ g (ap is_undefined e) (ap (λ x. run_orchestrator classes o (to_text x) w) e)
    input-Told o (bool b) g e =
        run-Told o _ g (ap is_undefined e) (ap (λ x. run_orchestrator classes o (to_text x) w) e)
    input-Told o (num n) g e =
        run-Told o _ g (ap is_undefined e) (ap (λ x. run_orchestrator classes o (to_text x) w) e)
    input-Told o (str t) g e =
        run-Told o _ g (ap is_undefined e) (ap (λ x. run_orchestrator classes o (to_text x) w) e)
    input-Told o (arr vs) g e =
        run-Told o _ g (ap is_undefined e) (ap (λ x. run_orchestrator classes o (to_text x) w) e)
    input-Told o (obj fs) g e =
        run-Told o _ g (ap is_undefined e) (ap (λ x. run_orchestrator classes o (to_text x) w) e)

    found-Told :
        (o : Orchestrator G W)
        → Gets r name o
        → Told r name properties args w
            (explained (run_found classes name properties args (returned o) w))
    found-Told o g = input-Told o (member args (input_key properties)) g refl

    instantiated-Told :
        (c : OrchestratorConfig T W) (p : Outcome (Orchestrator G W))
        → get r.instances name ≡ none
        → get r.configs name ≡ some c
        → instantiate classes name c ≡ p
        → Told r name properties args w (explained (run_found classes name properties args p w))
    instantiated-Told c (returned o) new found e = found-Told o (made c new found e)
    instantiated-Told c (thrown x) new found e = inr (x, w, refl, not_made c x new found e)

    configured-Told :
        (o : Option (OrchestratorConfig T W))
        → get r.instances name ≡ none
        → get r.configs name ≡ o
        → Told r name properties args w
            (explained (run_found classes name properties args (configured classes name o) w))
    configured-Told none new found = inr (_, w, refl, unknown new found _ refl)
    configured-Told (some c) new found =
        instantiated-Told c (instantiate classes name c) new found refl

    cached-Told :
        (o : Option (Orchestrator G W))
        → get r.instances name ≡ o
        → Told r name properties args w
            (explained (run_found classes name properties args (cached classes r name o) w))
    cached-Told (some o) found = found-Told o (kept found)
    cached-Told none new = configured-Told (get r.configs name) new refl

    -- A call of an orchestrator's tool never throws. It gives the orchestrator's own answer, where
    -- there is one of that name, or a configuration that makes one, and the call has the first
    -- property of the schema, whose text is its input. In each other case it gives the text
    -- `Erro ao executar orquestrador`, with the name and the error: that no orchestrator has the
    -- name, that of its construction, that the argument is missing, or what the orchestrator
    -- threw. The world is left as the orchestrator left it.
    pub tool_function-Told :
        Told r name properties args w (tool_function classes r name properties args w)
    unfolding tool_function get_orchestrator
    tool_function-Told = cached-Told (get r.instances name) refl
