-- ===== src/Orchestrator/Hierarchical/Laws.antt =====
-- Which experts run, and that one which fails stops nothing.
use gemini_agent_lib.Prelude.{
  String, ◌≡◌, refl, ap, Bool, true, Option, none, some, List, [], ◌∷◌, keep, All, Bool-cases, inl,
  inr, includes_text, to_lower_case, eq_iff, arith,
}
use gemini_agent_lib.Prelude.Dict.{Dict, put, has, get-put}
use gemini_agent_lib.Prelude.Action.{
  continue, Outcome, returned, thrown, pure, Returns, Returns-continue, Yields, Yields-returned,
  Yields-continue, Yields-handled,
}
use gemini_agent_lib.Agent.{Response}
use gemini_agent_lib.Orchestrator.Worker.{Worker, assign, with_task}
use gemini_agent_lib.Orchestrator.Hierarchical.{
  answer_text, responses_text, select_by, HierarchicalAgentOrchestrator, select, selected,
  determine_agents_for_task, expert_text, engage, generate_final_response, orchestrate_with,
  orchestrate,
}
use gemini_agent_lib.Orchestrator.Hierarchical.Prompts.{
  default_task, synthesis_prompt, no_agent_phrase,
}

module _ {ℓ} {A : Type ℓ} (p : A → Bool) where
  pub All-keep {κ} : (P : A → Type κ) (xs : List A) → All P xs → All P (keep p xs)
  All-keep P [] h = tt
  All-keep P (x ∷ xs) (h, hs) = elim (Bool-cases (p x)) [
    | inl e ↦ rw e (h, All-keep P xs hs)
    | inr e ↦ rw e (All-keep P xs hs)
  ]

  All-keep_self : (xs : List A) → All (λ x. p x ≡ true) (keep p xs)
  All-keep_self [] = tt
  All-keep_self (x ∷ xs) = elim (Bool-cases (p x)) [
    | inl e ↦ rw e (e, All-keep_self xs)
    | inr e ↦ rw e (All-keep_self xs)
  ]

has-put : (d : Dict String) (k j v : String) → has d j ≡ true → has (put d k v) j ≡ true
has-put d k j v h = ground (arith, get-put d k j v)

has-put_self : (d : Dict String) (k v : String) → has (put d k v) k ≡ true
has-put_self d k v = ground (arith, get-put d k k v, eq_iff k k)

pub anything : {A S : Type 0} → (p : Outcome A × S) → Returns (λ a s. Unit {0}) p
anything (returned a, s) = tt
anything (thrown e, s) = tt

module _ {W : Type 0} where
  -- The task for an expert can be written: it has no formatter, or one that returns.
  abbrev pub Formats : String → Worker W → Type 0
  Formats task a =
      (t : String) × (assign a task (default_task a.role a.objective task) ≡ returned t)

  -- what the loop over the experts leaves
  engaged :
      (task : String) (agents : List (Worker W)) (d : Dict String) (w : W)
      → All (Formats task) agents
      → (d' : Dict String) × ((engage task agents d w).0 ≡ returned d')
        × All (λ a. has d' a.role ≡ true) agents
        × ((k : String) → has d k ≡ true → has d' k ≡ true)
  unfolding engage
  engaged task [] d w h = (d, refl, tt, λ k e. e)
  engaged task (a ∷ rest) d w ((t, e), h) =
      let p = a.execute_task t w in
      let (d', r, each, kept) = engaged task rest (put d a.role (expert_text p.0)) p.1 h in
      (
        d',
        rw (e, with_task) r,
        (kept a.role (has-put_self d a.role _), each),
        λ k old. kept k (has-put d a.role k _ old),
      )

  -- If the task of each expert of a list can be written, the loop over them returns, whatever they
  -- do, and every one of them has an entry under its role, also where its execution throws.
  pub engage_total :
      (task : String) (agents : List (Worker W)) (d : Dict String) (w : W)
      → All (Formats task) agents
      → (d' : Dict String) × ((engage task agents d w).0 ≡ returned d')
        × All (λ a. has d' a.role ≡ true) agents
  engage_total task agents d w h =
      let (d', e, each, kept) = engaged task agents d w h in (d', e, each)

  -- The selected experts are agents of the orchestrator whose role is a line of the answer.
  select-All :
      (P : Worker W → Type 0) (agents : List (Worker W)) (answer : String)
      → All P agents
      → All P (select agents answer)
  unfolding select
  select-All P agents answer h =
      elim (Bool-cases (includes_text (to_lower_case answer) no_agent_phrase)) [
        | inl e ↦ rw e tt
        | inr e ↦ rw e (All-keep _ P agents h)
      ]

  select_by-Returns :
      (P : Worker W → Type 0) (agents : List (Worker W)) (answer : Option String) (w : W)
      → All P agents
      → Returns (λ chosen w. All P chosen) (select_by agents answer w)
  select_by-Returns P agents none w h = tt
  select_by-Returns P agents (some answer) w h = select-All P agents answer h

  selected-Returns :
      (P : Worker W → Type 0) (agents : List (Worker W)) (r : Option Response) (w : W)
      → All P agents
      → Returns (λ chosen w. All P chosen) (selected agents r w)
  selected-Returns P agents none w h = tt
  selected-Returns P agents (some r) w h = select_by-Returns P agents r.text w h

  -- What holds of each agent holds of each expert that the model's answer names, and reading that
  -- answer never throws.
  determine_agents-Yields :
      (P : Worker W → Type 0) (o : HierarchicalAgentOrchestrator W) (task : String) (w : W)
      → All P o.agents
      → Yields (λ agents w. All P agents) (determine_agents_for_task o task w)
  unfolding determine_agents_for_task
  determine_agents-Yields P o task w h =
      Yields-handled (λ agents w. All P agents) _ (λ e. pure [])
        (Returns-continue (λ r w. Unit) (λ agents w. All P agents) (o.ask _ w) (selected o.agents)
          (anything _) (λ r w u. selected-Returns P o.agents r w h))
        (λ e w. tt)

  final_response-Yields :
      (o : HierarchicalAgentOrchestrator W) (task : String) (d : Dict String) (w : W)
      → Yields (λ answer w. Unit) (generate_final_response o task d w)
  unfolding generate_final_response
  final_response-Yields o task d w =
      let p = o.ask (synthesis_prompt task (responses_text d)) w in
      Yields-handled (λ answer w. Unit) (continue p answer_text)
        (λ e. pure (some "Erro ao gerar resposta final orquestrada."))
        (anything (continue p answer_text)) (λ e w. tt)

  pub engage-Yields :
      (task : String) (agents : List (Worker W)) (d : Dict String) (w : W)
      → All (Formats task) agents
      → Yields (λ d' w. Unit) (engage task agents d w)
  unfolding engage
  engage-Yields task [] d w h = tt
  engage-Yields task (a ∷ rest) d w ((t, e), h) =
      let p = a.execute_task t w in
      let rest_Yields = engage-Yields task rest (put d a.role (expert_text p.0)) p.1 h in
      rw (e, with_task) rest_Yields

  orchestrate_with-Yields :
      (o : HierarchicalAgentOrchestrator W) (task : String) (agents : List (Worker W)) (w : W)
      → All (Formats task) agents
      → Yields (λ answer w. Unit) (orchestrate_with o task agents w)
  orchestrate_with-Yields o task [] w h = tt
  orchestrate_with-Yields o task (a ∷ rest) w h =
      Yields-continue (λ d w. Unit) (λ answer w. Unit) (engage task (a ∷ rest) [] w)
        (generate_final_response o task) (engage-Yields task (a ∷ rest) [] w h)
        (λ d w u. final_response-Yields o task d w)

  -- If the task of each agent can be written, `orchestrate` returns whatever the model and the
  -- experts do: neither an answer without a text, nor an error of the model or of an expert, makes
  -- it throw.
  pub orchestrate_total :
      (o : HierarchicalAgentOrchestrator W) (task : String) (w : W)
      → All (Formats task) o.agents
      → (answer : Option String) × ((orchestrate o task w).0 ≡ returned answer)
  unfolding orchestrate
  orchestrate_total o task w h =
      let (answer, e, _) =
        Yields-returned (λ answer w. Unit) (orchestrate o task w)
          (Yields-continue (λ agents w. All (Formats task) agents) (λ answer w. Unit) _
            (orchestrate_with o task) (determine_agents-Yields (Formats task) o task w h)
            (orchestrate_with-Yields o task)) in
      (answer, ap (λ p. p.0) e)
