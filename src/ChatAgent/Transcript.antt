-- ===== src/ChatAgent/Transcript.antt =====
-- The conversation that lib/chat-agent.js keeps: what a call adds to it, and that the memory has
-- the same conversation as the agent.
use mathlib.Core.List.{append_assoc}
use gemini_agent_lib.Prelude.{
  ℕ, String, ◌≡◌, refl, sym, ap, ◌∙◌, false, Option, some, List, [], ◌∷◌, ◌++◌, is_empty,
}
use gemini_agent_lib.Prelude.Action.{Outcome, returned, thrown, Action, Ends}
use gemini_agent_lib.Value.{Value}
use gemini_agent_lib.AgentRegistry.{AgentRegistry, AgentInstance}
use gemini_agent_lib.Agent.{find_tool_function}
use gemini_agent_lib.ChatAgent.{
  Message, ConversationMemory, FactMemory, SummaryMemory, SemanticMemory, ChatRequest, ChatAgent,
  State, loaded, attached, as_agent, add_to_history, clear_history, load_conversation_history,
}
use gemini_agent_lib.ChatAgent.Conversation.{
  Runtime, answer_message, process_user_message, process_function_result,
}
use gemini_agent_lib.ChatAgent.Frame.{Relation, Respects, Reached, reached, Within, view}
use gemini_agent_lib.ChatAgent.Frame.Turn.{
  answer_message-Within, process_user_message-Within, process_function_result-Within,
}

abbrev pub said : String → Message
said message = record { role = "user"; content = message }

-- One call of a method, by its name; a message has the fuel of its loop.
pub data Call : Type 0 where
  say : ℕ → String → Call
  give : String → Value → Call
  clear : Call

-- The state after a call, whether it returns or throws.
unfoldable pub after : {T W : Type 0} → Runtime T W → Call → State T W → State T W
after rt (say fuel message) s = (process_user_message rt fuel message s).1
after rt (give name v) s = (process_function_result name v s).1
after rt clear s = (clear_history s).1

unfoldable pub after_all : {T W : Type 0} → Runtime T W → List Call → State T W → State T W
unfolding after
after_all rt [] s = s
after_all rt (k ∷ ks) s = after_all rt ks (after rt k s)

-- A memory whose conversation of this chat is `log`: a message is added at its end.
pub record Recorded {W : Type 0} (m : ConversationMemory W) (id : String) (log : W → List Message)
    : Type 0 where
  pub appends : (x : Message) (w : W) → log (m.append_message id x w).1 ≡ log w ++ (x ∷ [])
  pub clears : (w : W) → log (m.clear_history id w).1 ≡ []
  pub loads : (w : W) → (m.load_history id w).0 ≡ returned (log w)

-- Nothing else that the agent calls writes to the conversation.
pub record Unwritten {T W : Type 0} (rt : Runtime T W) (c : ChatAgent T W) (log : W → List Message)
    : Type 0 where
  pub asks : (q : ChatRequest) (w : W) → log (c.llm q w).1 ≡ log w
  pub works :
      (name : String) (f : Value → Action W Value) (v : Value) (w : W)
      → find_tool_function (as_agent c) name ≡ some f
      → log (f v w).1 ≡ log w
  pub specialists :
      (a : AgentInstance T) (v : Value) (w : W) → log (rt.execute_task a v w).1 ≡ log w
  pub facts :
      (m : FactMemory W) (id : String) (k v : Value) (w : W)
      → c.fact_memory ≡ some m
      → (log (m.set_fact id k v w).1 ≡ log w) × (log (m.get_all_facts id w).1 ≡ log w)
  pub summaries :
      (m : SummaryMemory W) (id : String) (v : Value) (t : ℕ) (w : W)
      → c.summary_memory ≡ some m
      → (log (m.add_summary id v t w).1 ≡ log w) × (log (m.get_latest_summary id w).1 ≡ log w)
  pub searches :
      (m : SemanticMemory W) (task : String) (n : ℕ) (filter : Value) (w : W)
      → c.semantic_memory ≡ some m
      → log (m.search task n filter w).1 ≡ log w

abbrev Agrees : {W : Type 0} → (W → List Message) → Relation W
Agrees log h w = h ≡ log w

either_way :
    {A W : Type 0} (P : W → Type 0) (p : Outcome A × W)
    → P p.1
    → Ends (λ w. Unit {0} × P w) (λ a w. P w) p
either_way P (returned a, w) r = r
either_way P (thrown e, w) r = (tt, r)

attached_chat :
    {M : Type 0} (o : Option M) (i : Option String) (m : M) (id : String)
    → o ≡ some m
    → i ≡ some id
    → is_empty id ≡ false
    → attached o i ≡ some (m, id)
attached_chat o i m id e f g = rw (e, f, g) refl

left_by :
    {A T W : Type 0} (c : ChatAgent T W) (R : Relation W) (p : Outcome A × State T W)
    → Within c R Unit p
    → Reached c R p.1
left_by c R (returned a, s) r = r
left_by c R (thrown e, s) (u, r) = r

module _ {T W : Type 0} (rt : Runtime T W) (c : ChatAgent T W) (m : ConversationMemory W)
    (id : String) (log : W → List Message) where
  Agrees-Respects :
      attached c.conversation_memory c.chat_id ≡ some (m, id)
      → Recorded m id log
      → Unwritten rt c log
      → Respects rt c (Agrees log) (Unit {0})
  Agrees-Respects e memory others = record {
    push = λ x h w r. rw e (ap (λ xs. xs ++ (x ∷ [])) r ∙ sym (memory.appends x w));
    asks = λ q h w r. either_way (Agrees log h) (c.llm q w) (r ∙ sym (others.asks q w));
    works = λ name f v h w found r. r ∙ sym (others.works name f v w found);
    specialists = λ a v h w r. r ∙ sym (others.specialists a v w);
    sets_fact = λ f i k v h w q r. r ∙ sym (others.facts f i k v w q).0;
    all_facts = λ f i h w q r. r ∙ sym (others.facts f i Value.null Value.null w q).1;
    adds_summary = λ f i v t h w q r. r ∙ sym (others.summaries f i v t w q).0;
    latest_summary = λ f i h w q r. r ∙ sym (others.summaries f i Value.null 0 w q).1;
    searches = λ f t n v h w q r. r ∙ sym (others.searches f t n v w q);
  }

  cleared_Agrees :
      attached c.conversation_memory c.chat_id ≡ some (m, id)
      → Recorded m id log
      → (s : State T W) → Reached c (Agrees log) s
      → Reached c (Agrees log) (clear_history s).1
  unfolding clear_history
  cleared_Agrees e memory _ (reached task h registry w r) =
      reached task [] registry _ (rw e (sym (memory.clears w)))

  after_Agrees :
      attached c.conversation_memory c.chat_id ≡ some (m, id)
      → Recorded m id log
      → Unwritten rt c log
      → (k : Call) (s : State T W) → Reached c (Agrees log) s
      → Reached c (Agrees log) (after rt k s)
  unfolding after
  after_Agrees e memory others (say fuel message) s r =
      left_by c (Agrees log) (process_user_message rt fuel message s)
        (process_user_message-Within rt c _ _ (Agrees-Respects e memory others) fuel message s r)
  after_Agrees e memory others (give name v) s r =
      left_by c (Agrees log) (process_function_result name v s)
        (process_function_result-Within rt c _ _ (Agrees-Respects e memory others) name v s r)
  after_Agrees e memory others clear s r = cleared_Agrees e memory s r

  after_all_Agrees :
      attached c.conversation_memory c.chat_id ≡ some (m, id)
      → Recorded m id log
      → Unwritten rt c log
      → (ks : List Call) (s : State T W) → Reached c (Agrees log) s
      → Reached c (Agrees log) (after_all rt ks s)
  unfolding after_all
  after_all_Agrees e memory others [] s r = r
  after_all_Agrees e memory others (k ∷ ks) s r =
      after_all_Agrees e memory others ks (after rt k s) (after_Agrees e memory others k s r)

  reached-agrees : (s : State T W) → Reached c (Agrees log) s → s.0.conversation_history ≡ log s.1
  reached-agrees _ (reached task h registry w r) = r

  loaded_log :
      (d : ChatAgent T W) (w : W)
      → attached d.conversation_memory d.chat_id ≡ some (m, id)
      → Recorded m id log
      → (load_conversation_history (d, w)).1.0.conversation_history ≡ log w
  unfolding load_conversation_history
  loaded_log d w e memory = rw e (ap loaded (memory.loads w))

  -- Where the memory adds each message at the end of the chat's conversation and nothing else that
  -- the agent calls writes to it, and the agent starts with the conversation of the memory: after
  -- any calls, whatever the model, the tools, the specialists and the other memories do, an agent
  -- with the same memory and chat that loads its history gets the history that this agent has.
  pub after_all-load :
      (ks : List Call) (w : W) (d : ChatAgent T W)
      → c.conversation_memory ≡ some m
      → c.chat_id ≡ some id
      → is_empty id ≡ false
      → d.conversation_memory ≡ some m
      → d.chat_id ≡ some id
      → Recorded m id log
      → Unwritten rt c log
      → c.conversation_history ≡ log w
      → (load_conversation_history (d, (after_all rt ks (c, w)).1)).1.0.conversation_history
        ≡ (after_all rt ks (c, w)).0.conversation_history
  after_all-load ks w d own chat named other same memory others start =
      let e = attached_chat c.conversation_memory c.chat_id m id own chat named in
      let first = reached c.task c.conversation_history c.agent_registry w start in
      let last = after_all_Agrees e memory others ks (c, w) first in
      loaded_log d _ (attached_chat d.conversation_memory d.chat_id m id other same named) memory
      ∙ sym (reached-agrees _ last)

module _ {T W : Type 0} (rt : Runtime T W) (c : ChatAgent T W) (message : String) where
  -- the conversation so far, the user's message, and whatever comes after it
  abbrev Continues : Relation W
  Continues h w = (rest : List Message) × (h ≡ c.conversation_history ++ (said message ∷ rest))

  Continues-Respects : Respects rt c Continues (Unit {0})
  Continues-Respects = record {
    push = λ x h w (rest, e). (
      rest ++ (x ∷ []),
      ap (λ xs. xs ++ (x ∷ [])) e
          ∙ append_assoc c.conversation_history (said message ∷ rest) (x ∷ []),
    );
    asks = λ q h w r. either_way (Continues h) (c.llm q w) r;
    works = λ name f v h w found r. r;
    specialists = λ a v h w r. r;
    sets_fact = λ f i k v h w q r. r;
    all_facts = λ f i h w q r. r;
    adds_summary = λ f i v t h w q r. r;
    latest_summary = λ f i h w q r. r;
    searches = λ f t n v h w q r. r;
  }

  continued :
      (s : State T W)
      → Reached c Continues s
      → (task : String) × (rest : List Message) × (registry : Option (AgentRegistry T)) × (s.0
          ≡ view c task (c.conversation_history ++ (said message ∷ rest)) registry)
  continued _ (reached task h registry w (rest, e)) =
      (task, rest, registry, ap (λ xs. view c task xs registry) e)

  -- Whatever the model, the tools, the specialists and the memories do, throwing or not:
  -- `processUserMessage` keeps the messages before it, with the user's message next, and every
  -- other member of the agent but its task and its registry of specialists.
  pub process_user_message-continues :
      (fuel : ℕ) (w : W)
      → (task : String) × (rest : List Message) × (registry : Option (AgentRegistry T))
        × ((process_user_message rt fuel message (c, w)).1.0
            ≡ view c task (c.conversation_history ++ (said message ∷ rest)) registry)
  unfolding process_user_message add_to_history
  process_user_message-continues fuel w =
      let first =
        reached message (c.conversation_history ++ (said message ∷ [])) c.agent_registry _
          ([], refl) in
      continued _ (
        left_by c Continues (answer_message rt fuel message _)
          (answer_message-Within rt c Continues Unit Continues-Respects fuel message _ first))
