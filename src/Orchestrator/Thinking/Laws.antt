-- ===== src/Orchestrator/Thinking/Laws.antt =====
-- That the thinking orchestrator answers, and that no answer is lost.
use gemini_agent_lib.Prelude.{
  String, ◌≡◌, refl, ap, not, ◌&&◌, Bool-cases, inl, inr, Option, none, some, List, [], ◌∷◌, All,
  is_empty, includes_text, to_lower_case,
}
use gemini_agent_lib.Prelude.Dict.{Dict}
use gemini_agent_lib.Prelude.Action.{
  continue, Outcome, returned, thrown, pure, Returns, Returns-continue, Yields, Yields-returned,
  Yields-continue, Yields-handled,
}
use gemini_agent_lib.Value.{Value, str}
use gemini_agent_lib.ThinkingAgent.Answers.{HasText}
use gemini_agent_lib.Agent
use gemini_agent_lib.Orchestrator.Worker.{Worker}
use gemini_agent_lib.Orchestrator.Hierarchical.{
  HierarchicalAgentOrchestrator, engage, responses_text, answer_text,
}
use gemini_agent_lib.Orchestrator.Hierarchical.Laws.{All-keep, Formats, anything, engage-Yields}
use gemini_agent_lib.Orchestrator.Hierarchical.Prompts.{no_agent_phrase}
use gemini_agent_lib.Orchestrator.Thinking.{
  HierarchicalAgentThinkingOrchestrator, select, select_by, selected, determine_agents_for_task,
  generate_final_response, shown, orchestrate_with, orchestrate,
}
use gemini_agent_lib.Orchestrator.Thinking.Prompts.{thinking_synthesis_prompt}
use gemini_agent_lib.Orchestrator.Thinking.Response.{
  Parts, parts_of, checked, cut_at, answer_start, final_answer_markers, clean, read_marked,
  process_thinking_response,
}

-- The answer is a text that is not empty.
abbrev Answers : String → Parts → Type 0
Answers raw p = (t steps : String) × (p ≡ parts_of raw (str t) steps) × HasText t

checked-Answers : (raw answer steps : String) → HasText raw → Answers raw (checked raw answer steps)
checked-Answers raw answer steps h = elim (Bool-cases (is_empty answer && not (is_empty steps))) [
  | inl e ↦ rw e (raw, "", refl, h)
  | inr e ↦ rw e (elim (Bool-cases (is_empty answer)) [
    | inl f ↦ rw f (raw, steps, refl, h)
    | inr f ↦ rw f (answer, steps, refl, f)
  ])
]

read_marked-Answers : (raw : String) → HasText raw → Answers raw (read_marked raw)
unfolding read_marked
read_marked-Answers raw h =
    let c = cut_at (answer_start final_answer_markers raw none) raw in
    checked-Answers raw (clean c.0) c.1 h

-- Of a response that is not empty and no JSON the final answer is a text that is not empty, the
-- response is kept, and no error is reported.
pub process_thinking_response-Answers :
    (parse_json : String → Outcome Value) (raw e : String)
    → parse_json raw ≡ thrown e
    → HasText raw
    → (t steps : String) × (process_thinking_response parse_json (some raw)
        ≡ parts_of raw (str t) steps)
      × HasText t
unfolding process_thinking_response
process_thinking_response-Answers parse_json raw e no_json h =
    rw no_json (read_marked-Answers raw h)

module _ {W : Type 0} where
  select-All :
      (P : Worker W → Type 0) (agents : List (Worker W)) (answer : String)
      → All P agents
      → All P (select agents answer)
  unfolding select
  select-All P agents answer h =
      elim (Bool-cases (includes_text (to_lower_case answer) no_agent_phrase)) [
        | inl e ↦ rw e tt
        | inr e ↦ rw e (All-keep _ P agents h)
      ]

  select_by-Returns :
      (P : Worker W → Type 0) (agents : List (Worker W)) (answer : Option String) (w : W)
      → All P agents
      → Returns (λ chosen w. All P chosen) (select_by agents answer w)
  select_by-Returns P agents none w h = tt
  select_by-Returns P agents (some answer) w h = select-All P agents answer h

  selected-Returns :
      (P : Worker W → Type 0) (agents : List (Worker W)) (r : Option Agent.Response) (w : W)
      → All P agents
      → Returns (λ chosen w. All P chosen) (selected agents r w)
  selected-Returns P agents none w h = tt
  selected-Returns P agents (some r) w h = select_by-Returns P agents r.text w h

  determine_agents-Yields :
      (P : Worker W → Type 0) (o : HierarchicalAgentOrchestrator W) (task : String) (w : W)
      → All P o.agents
      → Yields (λ agents w. All P agents) (determine_agents_for_task o task w)
  unfolding determine_agents_for_task
  determine_agents-Yields P o task w h =
      Yields-handled (λ agents w. All P agents) _ (λ e. pure [])
        (Returns-continue (λ r w. Unit) (λ agents w. All P agents) (o.ask _ w) (selected o.agents)
          (anything _) (λ r w u. selected-Returns P o.agents r w h))
        (λ e w. tt)

  final_response-Yields :
      (o : HierarchicalAgentOrchestrator W) (task : String) (d : Dict String) (w : W)
      → Yields (λ answer w. Unit) (generate_final_response o task d w)
  unfolding generate_final_response
  final_response-Yields o task d w =
      let p = o.ask (thinking_synthesis_prompt task (responses_text d)) w in
      Yields-handled (λ answer w. Unit) (continue p answer_text)
        (λ e. pure (some "Erro ao gerar resposta final orquestrada."))
        (anything (continue p answer_text)) (λ e w. tt)

  orchestrate_with-Yields :
      (parse_json : String → Outcome Value) (o : HierarchicalAgentThinkingOrchestrator W)
      (task : String) (agents : List (Worker W)) (w : W)
      → All (Formats task) agents
      → Yields (λ answer w. Unit) (orchestrate_with parse_json o task agents w)
  unfolding orchestrate_with
  orchestrate_with-Yields parse_json o task [] w h = tt
  orchestrate_with-Yields parse_json o task (a ∷ rest) w h =
      Yields-continue (λ d w. Unit) (λ answer w. Unit) (engage task (a ∷ rest) [] w) _
        (engage-Yields task (a ∷ rest) [] w h)
        (λ d w u.
          Yields-continue (λ r w. Unit) (λ answer w. Unit) (generate_final_response o.base task d w)
            (λ r. pure (shown parse_json o.include_thinking_steps r))
            (final_response-Yields o.base task d w) (λ r w u. tt))

  -- If the task of each agent can be written, `orchestrate` returns whatever the model, the experts
  -- and the JSON parser do.
  pub orchestrate_total :
      (parse_json : String → Outcome Value) (o : HierarchicalAgentThinkingOrchestrator W)
      (task : String) (w : W)
      → All (Formats task) o.base.agents
      → (answer : Value) × ((orchestrate parse_json o task w).0 ≡ returned answer)
  unfolding orchestrate
  orchestrate_total parse_json o task w h =
      let (answer, e, _) =
        Yields-returned (λ answer w. Unit) (orchestrate parse_json o task w)
          (Yields-continue (λ agents w. All (Formats task) agents) (λ answer w. Unit) _
            (orchestrate_with parse_json o task)
            (determine_agents-Yields (Formats task) o.base task w h)
            (orchestrate_with-Yields parse_json o task)) in
      (answer, ap (λ p. p.0) e)
