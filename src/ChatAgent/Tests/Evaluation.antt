-- ===== src/ChatAgent/Tests/Evaluation.antt =====
-- The theorems on the evaluation of an answer for the memories, at a small agent.
use gemini_agent_lib.Prelude.{
  ℕ, Option, ap, subst, or_else, true, String, ◌≡◌, refl, none, some, List, [], ◌∷◌, ◌++◌,
}
use gemini_agent_lib.Prelude.Action.{returned, thrown}
use gemini_agent_lib.Value.{Value, null, str, obj, arr, field, end, cons, nil}
use gemini_agent_lib.Agent.{Response}
use gemini_agent_lib.ChatAgent.{FactMemory, SummaryMemory, ChatAgent, attached}
use gemini_agent_lib.ChatAgent.Evaluation.{match_braces, evaluate_and_manage_memories}
use gemini_agent_lib.ChatAgent.Evaluation.Braces.{Cut, match_braces-cut}
use gemini_agent_lib.ChatAgent.Evaluation.Harvest.{evaluate_and_manage_memories-stores}
use gemini_agent_lib.ChatAgent.Samples.{agent}

match_braces-cut_example : Cut "sim {a} {b} fim" (match_braces "sim {a} {b} fim")
match_braces-cut_example = match_braces-cut "sim {a} {b} fim"

-- facts kept in the order in which they are stored
abbrev drawer : FactMemory (List (Value × Value))
drawer = record {
  set_fact = λ id k v w. (returned tt, w ++ ((k, v) ∷ []));
  get_fact = λ id k w. (returned null, w);
  get_all_facts = λ id w. (returned [], w);
}

-- a memory of summaries that fails
abbrev torn : SummaryMemory (List (Value × Value))
torn = record {
  add_summary = λ id v t w. (thrown "sem espaço", w);
  get_latest_summary = λ id w. (returned null, w);
  get_all_summaries = λ id limit w. (returned [], w);
}

abbrev entry : Value
entry = obj (field "chave" (str "nome") (field "valor" (str "Ana") end))

abbrev findings : Value
findings = obj (
    field "fatos" (arr (cons entry (cons (obj end) (cons null (cons entry nil)))))
      (field "resumo" (str "Ana chegou") end))

abbrev evaluated : Response
evaluated = record { text = some "Aqui: {...}."; function_call = none }

abbrev clerk_with_drawer : ChatAgent String (List (Value × Value))
clerk_with_drawer = record (agent (λ q w. (returned (some evaluated), w)) [] none) {
  fact_memory = some drawer;
  auto_manage_fact_memory = true;
  summary_memory = some torn;
  auto_manage_summary_memory = true;
}

torn-Apart :
    (n : SummaryMemory (List (Value × Value))) (chat : String)
    → attached (some torn) (some "c1") ≡ some (n, chat)
    → (v : Value) (t : ℕ) (w : List (Value × Value)) → (n.add_summary chat v t w).1 ≡ w
torn-Apart n chat e v t w =
    let same : torn ≡ n =
      ap (λ (o : Option (SummaryMemory (List (Value × Value)) × String)). (or_else o (torn, "")).0)
        e in
    subst (λ x. (x.add_summary chat v t w).1 ≡ w) same refl

evaluate_and_manage_memories-stores_example :
    (evaluate_and_manage_memories
      (λ s. returned findings)
      (λ w. 0)
      "sou Ana"
      "olá"
      (clerk_with_drawer, [])).1.1
    ≡ (str "nome", str "Ana") ∷ []
evaluate_and_manage_memories-stores_example =
    evaluate_and_manage_memories-stores clerk_with_drawer drawer "c1" (λ w. w)
      (λ w k v. w ++ ((k, v) ∷ [])) refl (λ k v w. refl) (λ s. returned findings) (λ w. 0) "sou Ana"
      "olá" "{...}" (some evaluated) findings
      (cons entry (cons (obj end) (cons null (cons entry nil)))) [] [] refl (λ on. torn-Apart) refl
      refl refl refl
