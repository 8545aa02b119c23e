-- ===== src/ChatAgent/Frame.antt =====
-- What holds of a chat agent's history and of the world through the methods of lib/chat-agent.js:
-- a relation between them that each thing an agent calls keeps.
pub mod Memories
pub mod Evaluation
pub mod Conversation
pub mod Turn
use gemini_agent_lib.Prelude.{
  ℕ, arith, Bool, true, false, if◌then◌else◌, String, ◌≡◌, refl, Option, none, some, List, [], ◌∷◌,
  ◌++◌,
}
use gemini_agent_lib.Prelude.Dict.{Dict}
use gemini_agent_lib.Prelude.Action.{Outcome, returned, thrown, Action, Ends, pure, handled}
use gemini_agent_lib.Value.{Value}
use gemini_agent_lib.AgentRegistry.{AgentRegistry, AgentInstance}
use gemini_agent_lib.Agent.{find_tool_function}
use gemini_agent_lib.ChatAgent.{
  Message, FactMemory, SummaryMemory, SemanticMemory, ConversationMemory, ChatRequest, ChatAgent,
  State, attached, ignoring_errors, in_world, as_agent, add_to_history,
}
use gemini_agent_lib.ChatAgent.Memories.{recovered}
use gemini_agent_lib.ChatAgent.Conversation.{Runtime}

-- the agent, but for the members that a message changes
abbrev pub view :
    {T W : Type 0}
    → ChatAgent T W
    → String
    → List Message
    → Option (AgentRegistry T)
    → ChatAgent T W
view c task history registry = record c {
  task = task;
  conversation_history = history;
  agent_registry = registry;
}

-- what an agent's history and the world have in common
abbrev pub Relation : Type 0 → Type 1
Relation W = List Message → W → Type 0

abbrev pub appended : {W : Type 0} → Option (ConversationMemory W) → Option String → Message → W → W
appended memory id message =
    ignoring_errors (λ m i. m.append_message i message) (attached memory id)

-- Each thing that the agent calls keeps the relation. `MayThrow` is empty where the model does
-- not throw.
pub record Respects {T W : Type 0} (rt : Runtime T W) (c : ChatAgent T W) (R : Relation W)
    (MayThrow : Type 0) : Type 0 where
  pub push :
      (m : Message) (h : List Message) (w : W)
      → R h w
      → R (h ++ (m ∷ [])) (appended c.conversation_memory c.chat_id m w)
  pub asks :
      (q : ChatRequest) (h : List Message) (w : W)
      → R h w
      → Ends (λ w'. MayThrow × R h w') (λ r w'. R h w') (c.llm q w)
  pub works :
      (name : String) (f : Value → Action W Value) (v : Value) (h : List Message) (w : W)
      → find_tool_function (as_agent c) name ≡ some f
      → R h w
      → R h (f v w).1
  pub specialists :
      (a : AgentInstance T) (v : Value) (h : List Message) (w : W)
      → R h w
      → R h (rt.execute_task a v w).1
  pub sets_fact :
      (m : FactMemory W) (id : String) (k v : Value) (h : List Message) (w : W)
      → c.fact_memory ≡ some m
      → R h w
      → R h (m.set_fact id k v w).1
  pub all_facts :
      (m : FactMemory W) (id : String) (h : List Message) (w : W)
      → c.fact_memory ≡ some m
      → R h w
      → R h (m.get_all_facts id w).1
  pub adds_summary :
      (m : SummaryMemory W) (id : String) (v : Value) (t : ℕ) (h : List Message) (w : W)
      → c.summary_memory ≡ some m
      → R h w
      → R h (m.add_summary id v t w).1
  pub latest_summary :
      (m : SummaryMemory W) (id : String) (h : List Message) (w : W)
      → c.summary_memory ≡ some m
      → R h w
      → R h (m.get_latest_summary id w).1
  pub searches :
      (m : SemanticMemory W) (task : String) (n : ℕ) (filter : Value) (h : List Message) (w : W)
      → c.semantic_memory ≡ some m
      → R h w
      → R h (m.search task n filter w).1

-- a state of the agent `c` where the relation holds
pub data Reached {T W : Type 0} (c : ChatAgent T W) (R : Relation W) : State T W → Type 0 where
  reached :
      (task : String) (h : List Message) (registry : Option (AgentRegistry T)) (w : W)
      → R h w
      → Reached c R (view c task h registry, w)

-- the end of an action in such a state, where it may throw only if `X`
abbrev pub Within :
    {A T W : Type 0} → ChatAgent T W → Relation W → Type 0 → Outcome A × State T W → Type 0
Within c R X p = Ends (λ s. X × Reached c R s) (λ a s. Reached c R s) p

module _ {T W A : Type 0} (c : ChatAgent T W) (R : Relation W) (X : Type 0) where
  pub lifted :
      (task : String) (h : List Message) (registry : Option (AgentRegistry T)) (p : Outcome A × W)
      → Ends (λ w. X × R h w) (λ a w. R h w) p
      → Within c R X (p.0, (view c task h registry, p.1))
  lifted task h registry (returned a, w) k = reached task h registry w k
  lifted task h registry (thrown e, w) (x, k) = (x, reached task h registry w k)

  pub in_world-Within :
      (m : ChatAgent T W → Action W A)
      → ((task : String) (h : List Message) (registry : Option (AgentRegistry T)) (w : W)
          → R h w
          → Ends (λ w'. X × R h w') (λ a w'. R h w') (m (view c task h registry) w))
      → (s : State T W) → Reached c R s
      → Within c R X (in_world (m s.0) s)
  in_world-Within m k _ (reached task h registry w r) =
      lifted task h registry (m (view c task h registry) w) (k task h registry w r)

-- a memory that the agent has
pub attached-eq-some :
    {M : Type 0} (o : Option M) (id : Option String) (m : M) (i : String)
    → attached o id ≡ some (m, i)
    → o ≡ some m
attached-eq-some none id m i e = ground (arith, e)
attached-eq-some (some n) none m i e = ground (arith, e)
attached-eq-some (some n) (some j) m i e = ground (arith, e)

module _ {T W A : Type 0} (c : ChatAgent T W) (R : Relation W) where
  -- A throw that may be any is one that is caught.
  pub caught :
      (X : Type 0) (p : Outcome A × State T W) (m : String → Action (State T W) A)
      → Within c R Unit p
      → ((e : String) (s : State T W) → Reached c R s → Within c R X (m e s))
      → Within c R X (handled p m)
  caught X (returned a, s) m r k = r
  caught X (thrown e, s) m (u, r) k = k e s r

  -- A test between two actions.
  pub choose-Within :
      (X : Type 0) (b : Bool) (m n : Action (State T W) A) (s : State T W)
      → Within c R X (m s)
      → Within c R X (n s)
      → Within c R X ((if b then m else n) s)
  choose-Within X true m n s h k = h
  choose-Within X false m n s h k = k

pub widened :
    {W A : Type 0} (X : Type 0) (P : W → Type 0) (p : Outcome A × W)
    → Ends (λ w. X × P w) (λ a w. P w) p
    → Ends (λ w. Unit {0} × P w) (λ a w. P w) p
widened X P (returned a, w) r = r
widened X P (thrown e, w) (x, r) = (tt, r)

module _ {W : Type 0} (R : Relation W) where
  pub defaulted :
      {A : Type 0} (X : Type 0) (d : A) (h : List Message) (p : Outcome A × W)
      → R h p.1
      → Ends (λ w'. X × R h w') (λ a w'. R h w') (handled p (λ e. pure d))
  defaulted X d h (returned a, w') r = r
  defaulted X d h (thrown e, w') r = r

  kept_by :
      {M A : Type 0} (X : Type 0) (d : A) (f : M → String → Action W A) (o : Option (M × String))
      (h : List Message) (w : W)
      → ((m : M) (i : String) → o ≡ some (m, i) → R h (f m i w).1)
      → R h w
      → Ends (λ w'. X × R h w') (λ a w'. R h w') (recovered d f o w)
  kept_by X d f none h w k r = r
  kept_by X d f (some (m, i)) h w k r = defaulted X d h (f m i w) (k m i refl)

  -- an answer of a memory, or the default
  pub recovered-Ends :
      {M A : Type 0} (X : Type 0) (d : A) (f : M → String → Action W A) (o : Option M)
      (id : Option String) (h : List Message) (w : W)
      → ((m : M) (i : String) → o ≡ some m → R h (f m i w).1)
      → R h w
      → Ends (λ w'. X × R h w') (λ a w'. R h w') (recovered d f (attached o id) w)
  recovered-Ends X d f o id h w k =
      kept_by X d f (attached o id) h w (λ m i e. k m i (attached-eq-some o id m i e))

module _ {T W : Type 0} (rt : Runtime T W) (c : ChatAgent T W) (R : Relation W) (MayThrow : Type 0)
    (respects : Respects rt c R MayThrow) where
  pub add_to_history-Within :
      (X : Type 0) (role content : String) (s : State T W)
      → Reached c R s
      → Within c R X (add_to_history role content s)
  unfolding add_to_history
  add_to_history-Within X role content _ (reached task h registry w r) =
      reached task _ registry _ (respects.push _ h w r)
