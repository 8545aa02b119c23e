-- ===== src/ChatAgent/Evaluation/Harvest.antt =====
-- The facts that `_evaluateAndManageMemories` of lib/chat-agent.js stores.
use gemini_agent_lib.Prelude.{
  ℕ, String, ◌≡◌, refl, ap, ◌∙◌, Bool, true, false, not, ◌&&◌, Bool-cases, Option-cases, inl, inr,
  Option, none, some, ◌+++◌, List, [], ◌∷◌, if◌then◌else◌,
}
use gemini_agent_lib.Prelude.Action.{
  Outcome, returned, thrown, continue, handled, handled-pure, pure, ◌>>=◌, ◌>>◌,
}
use gemini_agent_lib.Value.{
  Value, undefined, null, bool, num, str, obj, arr, Items, nil, cons, truthy, get_member,
  is_undefined,
}
use gemini_agent_lib.Agent.{Response}
use gemini_agent_lib.ChatAgent.{FactMemory, SummaryMemory, ChatAgent, State, attached}
use gemini_agent_lib.ChatAgent.Memories.{as_text, no_substring, set_fact, add_summary}
use gemini_agent_lib.ChatAgent.Evaluation.{
  match_braces, evaluation_request, evaluation_text, manages_facts, manages_summary, keep_members,
  keep_facts, read_evaluation, evaluate, store_facts, store_summary, evaluate_and_manage_memories,
}
use gemini_agent_lib.ChatAgent.Evaluation.Prompt.{evaluation_prompt}

abbrev is_fact : Value → Bool
is_fact v = truthy (get_member v "chave") && not (is_undefined (get_member v "valor"))

-- one more fact, if the entry has a key and a value
abbrev with_fact : Value → List (Value × Value) → List (Value × Value)
with_fact v facts =
    if is_fact v then (get_member v "chave", get_member v "valor") ∷ facts else facts

-- The facts of a list: its entries that have a key and a value, up to one that is `null` or
-- `undefined`.
abbrev pub harvest : Items → List (Value × Value)
harvest nil = []
harvest (cons undefined vs) = []
harvest (cons null vs) = []
harvest (cons v vs) = with_fact v (harvest vs)

-- the facts stored one after the other
abbrev pub store_all : {F : Type 0} → (F → Value → Value → F) → F → List (Value × Value) → F
store_all store f [] = f
store_all store f ((k, v) ∷ facts) = store_all store (store f k v) facts

answered :
    {T W : Type 0} (parse_json : String → Outcome Value) (clock : W → ℕ) (c : ChatAgent T W)
    (prompt : String) (w w' : W) (r : Option Response)
    → c.llm (evaluation_request prompt) w ≡ (returned r, w')
    → evaluate parse_json clock prompt (c, w)
      ≡ read_evaluation parse_json clock (match_braces (evaluation_text r)) (c, w')
answered parse_json clock c prompt w w' r e = rw e refl

-- Adding a summary leaves the facts of the world as they are, where the agent manages a summary
-- and has a memory for it.
abbrev pub Apart : {T W F : Type 0} → (W → F) → ChatAgent T W → Type 0
Apart {W = W} facts c =
    manages_summary c ≡ true
    → (n : SummaryMemory W) (chat : String) → attached c.summary_memory c.chat_id ≡ some (n, chat)
    → (v : Value) (t : ℕ) (w : W) → facts (n.add_summary chat v t w).1 ≡ facts w

and_left : (a b : Bool) → (a && b) ≡ true → a ≡ true
and_left true b e = refl
and_left false b e = e

module _ {T W F : Type 0} (c : ChatAgent T W) (m : FactMemory W) (id : String) (facts : W → F)
    (store : F → Value → Value → F) (own : attached c.fact_memory c.chat_id ≡ some (m, id))
    (stores : (k v : Value) (w : W) → facts (m.set_fact id k v w).1 ≡ store (facts w) k v) where
  -- the agent `c`, in a world with these facts
  data Has (f : F) : State T W → Type 0 where
    has : (w : W) → facts w ≡ f → Has f (c, w)

  -- an action that returned, and left these facts
  data Left (f : F) : Outcome (Unit {0}) × State T W → Type 0 where
    left : (s : State T W) → Has f s → Left f (returned tt, s)

  remembered :
      (f : F) (k v : Value) (p : Outcome (Unit {0}) × W)
      → facts p.1 ≡ store f k v
      → Left (store f k v) (
          continue
            (let q = handled (continue p (λ u. pure true)) (λ e. pure false) in (q.0, (c, q.1)))
            (λ u. pure tt))
  remembered f k v (returned u, w) e = left (c, w) (has w e)
  remembered f k v (thrown x, w) e = left (c, w) (has w e)

  set_fact-Left :
      (f : F) (k v : Value) (s : State T W)
      → Has f s
      → Left (store f k v) ((set_fact k v >>= λ u. pure tt) s)
  unfolding set_fact
  set_fact-Left f k v _ (has w e) =
      rw own (remembered f k v (m.set_fact id k v w) (stores k v w ∙ ap (λ x. store x k v) e))

  has_after : (f : F) (p : Outcome (Unit {0}) × State T W) → Left f p → Has f p.1
  has_after f _ (left s h) = h

  -- the rest of the loop, behind an entry that did not throw
  resumed :
      (f : F) (vs : Items) (p : Outcome (Unit {0}) × State T W)
      → ((f : F) (s : State T W)
          → Has f s
          → Has (store_all store f (harvest vs)) (keep_facts vs s).1)
      → Left f p
      → Has (store_all store f (harvest vs)) (continue p (λ u. keep_facts vs)).1
  resumed f vs _ rest (left s h) = rest f s h

  entry-Has :
      (f : F) (v : Value) (vs : Items) (s : State T W)
      → ((f : F) (s : State T W)
          → Has f s
          → Has (store_all store f (harvest vs)) (keep_facts vs s).1)
      → Has f s
      → Has
          (store_all store f (with_fact v (harvest vs)))
          (continue (keep_members v s) (λ u. keep_facts vs)).1
  entry-Has f v vs s rest h = elim (Bool-cases (is_fact v)) [
    | inl e ↦ rw e (
        resumed (store f (get_member v "chave") (get_member v "valor")) vs _ rest
          (set_fact-Left f (get_member v "chave") (get_member v "valor") s h))
    | inr e ↦ rw e (rest f s h)
  ]

  keep_facts-Has :
      (vs : Items) (f : F) (s : State T W)
      → Has f s
      → Has (store_all store f (harvest vs)) (keep_facts vs s).1
  unfolding keep_facts
  keep_facts-Has nil f s h = h
  keep_facts-Has (cons undefined vs) f s h = h
  keep_facts-Has (cons null vs) f s h = h
  keep_facts-Has (cons (bool b) vs) f s h =
      let rest = keep_facts-Has vs in entry-Has f (bool b) vs s rest h
  keep_facts-Has (cons (num n) vs) f s h =
      let rest = keep_facts-Has vs in entry-Has f (num n) vs s rest h
  keep_facts-Has (cons (str t) vs) f s h =
      let rest = keep_facts-Has vs in entry-Has f (str t) vs s rest h
  keep_facts-Has (cons (arr xs) vs) f s h =
      let rest = keep_facts-Has vs in entry-Has f (arr xs) vs s rest h
  keep_facts-Has (cons (obj fs) vs) f s h =
      let rest = keep_facts-Has vs in entry-Has f (obj fs) vs s rest h

  facts_of : (f : F) (s : State T W) → Has f s → facts s.1 ≡ f
  facts_of f _ (has w e) = e

  log_line-facts :
      (name : String) (v : Value) (w : W)
      → facts (continue (as_text name v w) (λ _. pure true)).1 ≡ facts w
  log_line-facts name undefined w = refl
  log_line-facts name null w = refl
  log_line-facts name (bool b) w = refl
  log_line-facts name (num n) w = refl
  log_line-facts name (str t) w = refl
  log_line-facts name (arr vs) w = refl
  log_line-facts name (obj fs) w = refl

  logged-facts :
      (v : Value) (p : Outcome (Unit {0}) × W)
      → facts (continue p (λ _. as_text ("summaryContent" +++ no_substring) v >> pure true)).1
        ≡ facts p.1
  logged-facts v (returned u, w) = log_line-facts ("summaryContent" +++ no_substring) v w
  logged-facts v (thrown x, w) = refl

  unlooked :
      (f : F) (p : Outcome Bool × W)
      → facts p.1 ≡ f
      → Has f (continue {S = State T W} (p.0, (c, p.1)) (λ _. pure tt)).1
  unlooked f (returned b, w) e = has w e
  unlooked f (thrown x, w) e = has w e

  -- A summary that is kept in another memory than the facts, whether that memory and the log line
  -- return or throw.
  added-Has :
      (f : F) (clock : W → ℕ) (v : Value) (w : W)
      → Apart facts c
      → manages_summary c ≡ true
      → facts w ≡ f
      → Has f ((add_summary clock v none >>= λ _. pure tt) (c, w)).1
  unfolding add_summary
  added-Has f clock v w apart on e = elim (Option-cases (attached c.summary_memory c.chat_id)) [
    | inl q ↦ rw q (unlooked f (returned false, w) e)
    | inr ((n, chat), q) ↦
        let p = n.add_summary chat v (clock w) w in
        let noted = continue p (λ _. as_text ("summaryContent" +++ no_substring) v >> pure true) in
        rw q (
          unlooked f (handled noted (λ x. pure false)) (
            ap facts (handled-pure noted (λ x. false))
            ∙ logged-facts v p
            ∙ apart on n chat q v (clock w) w
            ∙ e))
  ]

  summary-Has :
      (f : F) (clock : W → ℕ) (v : Value) (w : W)
      → Apart facts c
      → facts w ≡ f
      → Has f (store_summary clock v (c, w)).1
  unfolding store_summary
  summary-Has f clock v w apart e =
      elim (Bool-cases (manages_summary c && truthy (get_member v "resumo"))) [
        | inr q ↦ rw q (has w e)
        | inl q ↦ rw q (
            added-Has f clock (get_member v "resumo") w apart
              (and_left (manages_summary c) (truthy (get_member v "resumo")) q) e)
      ]

  summary_behind :
      (f : F) (clock : W → ℕ) (v : Value) (p : Outcome (Unit {0}) × State T W)
      → Apart facts c
      → Has f p.1
      → Has f (continue p (λ u. store_summary clock v)).1
  summary_behind f clock v (returned u, _) apart (has w e) = summary-Has f clock v w apart e
  summary_behind f clock v (thrown x, _) apart (has w e) = has w e

  stored_facts :
      (v : Value) (vs : Items) (w : W)
      → manages_facts c ≡ true
      → get_member v "fatos" ≡ arr vs
      → Has (store_all store (facts w) (harvest vs)) (store_facts v (c, w)).1
  unfolding store_facts
  stored_facts v vs w on e = rw (on, e) (keep_facts-Has vs (facts w) (c, w) (has w refl))

  read-Has :
      (parse_json : String → Outcome Value) (clock : W → ℕ) (o : Option String) (json : String)
      (v : Value) (vs : Items) (w : W)
      → manages_facts c ≡ true
      → Apart facts c
      → o ≡ some json
      → parse_json json ≡ returned v
      → get_member v "fatos" ≡ arr vs
      → Has (store_all store (facts w) (harvest vs)) (read_evaluation parse_json clock o (c, w)).1
  read-Has parse_json clock o json v vs w on apart found parsed e =
      rw (found, parsed)
        (summary_behind (store_all store (facts w) (harvest vs)) clock v (store_facts v (c, w))
          apart (stored_facts v vs w on e))

  -- Where the agent manages facts, alone or with a summary that another memory keeps, and the
  -- model answers the evaluation with a text whose part in braces is JSON with a list of facts:
  -- the facts of the memory afterwards are the facts before, with each entry that has a key and a
  -- value stored in order, up to an entry that is `null`, whatever the calls of the two memories
  -- return or throw.
  pub evaluate_and_manage_memories-stores :
      (parse_json : String → Outcome Value) (clock : W → ℕ) (message answer json : String)
      (r : Option Response) (v : Value) (vs : Items) (w w' : W)
      → manages_facts c ≡ true
      → Apart facts c
      → c.llm (evaluation_request (evaluation_prompt true (manages_summary c) message answer)) w
        ≡ (returned r, w')
      → match_braces (evaluation_text r) ≡ some json
      → parse_json json ≡ returned v
      → get_member v "fatos" ≡ arr vs
      → facts (evaluate_and_manage_memories parse_json clock message answer (c, w)).1.1
        ≡ store_all store (facts w') (harvest vs)
  unfolding evaluate_and_manage_memories
  evaluate_and_manage_memories-stores parse_json clock message answer json r v vs w w' on apart
        asked found parsed e =
      let prompt = evaluation_prompt (manages_facts c) (manages_summary c) message answer in
      let same : prompt ≡ evaluation_prompt true (manages_summary c) message answer = rw on refl in
      let ask : c.llm (evaluation_request prompt) w ≡ (returned r, w') =
        ap (λ q. c.llm (evaluation_request q) w) same ∙ asked in
      let body = evaluate parse_json clock prompt (c, w) in
      let reads : body
          ≡ read_evaluation parse_json clock (match_braces (evaluation_text r)) (c, w') =
        answered parse_json clock c prompt w w' r ask in
      let end_state = read-Has parse_json clock _ json v vs w' on apart found parsed e in
      ap (λ s. facts s.1) (handled-pure body (λ x. tt) ∙ ap (λ p. p.1) reads)
      ∙ facts_of _ _ end_state
