-- ===== src/ChatAgent/Frame/Memories.antt =====
-- The relation of a chat agent's history and the world, through its memories and the preparation
-- of a request's context.
use gemini_agent_lib.Prelude.{
  ℕ, String, ◌≡◌, refl, ◌∙◌, Bool, true, false, Bool-cases, inl, inr, Option, none, some, List,
  is_empty, ◌+++◌, or_else,
}
use gemini_agent_lib.Prelude.Action.{
  Outcome, returned, thrown, Action, Ends, Ends-continue, pure, continue-pure, continue, ◌>>◌,
}
use gemini_agent_lib.Value.{Value, undefined, null, str, truthy}
use gemini_agent_lib.ChatAgent.{Message, SemanticMemory, ChatAgent, State}
use gemini_agent_lib.ChatAgent.Memories.{
  as_text, no_substring, log_summary, set_fact, get_all_facts, add_summary, get_latest_summary,
}
use gemini_agent_lib.ChatAgent.Context.{
  search_task, search_in, search_context, prepare_enriched_context,
}
use gemini_agent_lib.ChatAgent.Conversation.{Runtime}
use gemini_agent_lib.ChatAgent.Frame.{
  Relation, Respects, Reached, reached, Within, recovered-Ends, lifted, defaulted,
}

pub as_text-keeps : {S : Type 0} (name : String) (v : Value) (s : S) → (as_text name v s).1 ≡ s
as_text-keeps name undefined s = refl
as_text-keeps name null s = refl
as_text-keeps name (str t) s = refl
as_text-keeps name _ s = refl

log_summary-keeps : {S : Type 0} (v : Value) (s : S) → (log_summary v s).1 ≡ s
log_summary-keeps v s = elim (Bool-cases (truthy v)) [
  | inl e ↦
      rw e (continue-pure (as_text ("summary" +++ no_substring) v s) (λ _. v) ∙ as_text-keeps _ v s)
  | inr e ↦ rw e refl
]

-- A log line behind an answer keeps what the answer left.
logged :
    {A B W : Type 0} (P : W → Type 0) (p : Outcome A × W) (m : A → Action W B)
    → ((a : A) (w : W) → (m a w).1 ≡ w)
    → P p.1
    → P (continue p m).1
logged P (returned a, w) m k h = rw (k a w) h
logged P (thrown e, w) m k h = h

abbrev log_content : {S A : Type 0} → Value → A → Action S Bool
log_content v a = as_text ("summaryContent" +++ no_substring) v >> pure true

log_content-keeps : {S A : Type 0} (v : Value) (a : A) (s : S) → (log_content v a s).1 ≡ s
log_content-keeps v a s =
    continue-pure (as_text ("summaryContent" +++ no_substring) v s) (λ _. true)
    ∙ as_text-keeps _ v s

module _ {T W : Type 0} (rt : Runtime T W) (c : ChatAgent T W) (R : Relation W) (MayThrow : Type 0)
    (respects : Respects rt c R MayThrow) (X : Type 0) where
  pub set_fact-Within :
      (k v : Value) (s : State T W) → Reached c R s → Within c R X (set_fact k v s)
  unfolding set_fact
  set_fact-Within k v _ (reached task h registry w r) = lifted c R X task h registry _ (
      recovered-Ends R X false _ c.fact_memory c.chat_id h w
        (λ m i e.
          rw (continue-pure (m.set_fact i k v w) (λ _. true)) (respects.sets_fact m i k v h w e r))
        r)

  pub get_all_facts-Within : (s : State T W) → Reached c R s → Within c R X (get_all_facts s)
  unfolding get_all_facts
  get_all_facts-Within _ (reached task h registry w r) = lifted c R X task h registry _ (
      recovered-Ends R X _ _ c.fact_memory c.chat_id h w (λ m i e. respects.all_facts m i h w e r)
        r)

  pub add_summary-Within :
      (clock : W → ℕ) (v : Value) (t : Option ℕ) (s : State T W)
      → Reached c R s
      → Within c R X (add_summary clock v t s)
  unfolding add_summary
  add_summary-Within clock v t _ (reached task h registry w r) = lifted c R X task h registry _ (
      recovered-Ends R X _ _ c.summary_memory c.chat_id h w
        (λ m i e.
          logged (R h) (m.add_summary i v (or_else t (clock w)) w) (log_content v)
            (log_content-keeps v) (respects.adds_summary m i v _ h w e r))
        r)

  pub get_latest_summary-Within :
      (s : State T W) → Reached c R s → Within c R X (get_latest_summary s)
  unfolding get_latest_summary
  get_latest_summary-Within _ (reached task h registry w r) = lifted c R X task h registry _ (
      recovered-Ends R X _ _ c.summary_memory c.chat_id h w
        (λ m i e.
          logged (R h) (m.get_latest_summary i w) log_summary log_summary-keeps
            (respects.latest_summary m i h w e r))
        r)

  search_task-Ends :
      (m : SemanticMemory W) (task : String) (n : ℕ) (filter : Value) (h : List Message) (w : W)
      → c.semantic_memory ≡ some m
      → R h w
      → Ends (λ w'. X × R h w') (λ a w'. R h w') (search_task task n filter m w)
  search_task-Ends m task n filter h w e r = elim (Bool-cases (is_empty task)) [
    | inl q ↦ rw q r
    | inr q ↦
        rw q
          (defaulted R X _ h (m.search task n filter w) (respects.searches m task n filter h w e r))
  ]

  searched-Within :
      (o : Option (SemanticMemory W)) (s : State T W)
      → c.semantic_memory ≡ o
      → Reached c R s
      → Within c R X (search_in o s)
  searched-Within none _ e (reached task h registry w r) = reached task h registry w r
  searched-Within (some m) _ e (reached task h registry w r) =
      lifted c R X task h registry _ (search_task-Ends m task c.rag_top_k c.rag_filter h w e r)

  search_context-Within : (s : State T W) → Reached c R s → Within c R X (search_context s)
  unfolding search_context
  search_context-Within _ (reached task h registry w r) =
      searched-Within c.semantic_memory _ refl (reached task h registry w r)

  pub prepare_enriched_context-Within :
      (s : State T W) → Reached c R s → Within c R X (prepare_enriched_context s)
  unfolding prepare_enriched_context
  prepare_enriched_context-Within s r =
      Ends-continue _ _ _ (get_all_facts s) _ (get_all_facts-Within s r) λ facts s1 r1.
        Ends-continue _ _ _ (search_context s1) _ (search_context-Within s1 r1) λ found s2 r2.
          Ends-continue _ _ _ (get_latest_summary s2) _ (get_latest_summary-Within s2 r2)
            λ summary s3 r3. r3
