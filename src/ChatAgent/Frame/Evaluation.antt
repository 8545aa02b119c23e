-- ===== src/ChatAgent/Frame/Evaluation.antt =====
-- The relation of a chat agent's history and the world, through the evaluation of an answer for
-- its memories.
use gemini_agent_lib.Prelude.{
  String, Bool, true, false, not, ◌&&◌, Option, none, some, if◌then◌else◌,
}
use gemini_agent_lib.Prelude.Action.{Outcome, returned, thrown, Ends-continue, Ends-if, pure, ◌>>=◌}
use gemini_agent_lib.Value.{
  Value, undefined, null, bool, num, str, obj, arr, Items, nil, cons, truthy, get_member,
  is_undefined,
}
use gemini_agent_lib.ChatAgent.{ChatAgent, State, in_world}
use gemini_agent_lib.ChatAgent.Memories.{set_fact, add_summary}
use gemini_agent_lib.ChatAgent.Evaluation.{
  manages_facts, manages_summary, keep_members, keep_fact, keep_facts, iterate_facts, store_facts,
  store_summary, store_memories, read_evaluation, evaluation_request, evaluate,
  evaluate_and_manage_memories,
}
use gemini_agent_lib.ChatAgent.Conversation.{Runtime}
use gemini_agent_lib.ChatAgent.Frame.{
  Relation, Respects, Reached, reached, Within, lifted, caught, widened,
}
use gemini_agent_lib.ChatAgent.Frame.Memories.{set_fact-Within, add_summary-Within}

module _ {T W : Type 0} (rt : Runtime T W) (c : ChatAgent T W) (R : Relation W) (MayThrow : Type 0)
    (respects : Respects rt c R MayThrow) where
  keep-Within :
      (b : Bool) (k v : Value) (s : State T W)
      → Reached c R s
      → Within c R Unit ((if b then (set_fact k v >>= λ _. pure tt) else pure tt) s)
  keep-Within true k v s r =
      Ends-continue _ _ _ (set_fact k v s) _ (set_fact-Within rt c R MayThrow respects Unit k v s r)
        (λ _ s1 r1. r1)
  keep-Within false k v s r = r

  keep_members-Within :
      (v : Value) (s : State T W) → Reached c R s → Within c R Unit (keep_members v s)
  keep_members-Within v s r =
      keep-Within (truthy (get_member v "chave") && not (is_undefined (get_member v "valor")))
        (get_member v "chave") (get_member v "valor") s r

  keep_fact-Within : (v : Value) (s : State T W) → Reached c R s → Within c R Unit (keep_fact v s)
  keep_fact-Within undefined s r = (tt, r)
  keep_fact-Within null s r = (tt, r)
  keep_fact-Within (bool b) s r = keep_members-Within (bool b) s r
  keep_fact-Within (num n) s r = keep_members-Within (num n) s r
  keep_fact-Within (str t) s r = keep_members-Within (str t) s r
  keep_fact-Within (arr vs) s r = keep_members-Within (arr vs) s r
  keep_fact-Within (obj fs) s r = keep_members-Within (obj fs) s r

  keep_facts-Within :
      (vs : Items) (s : State T W) → Reached c R s → Within c R Unit (keep_facts vs s)
  unfolding keep_facts
  keep_facts-Within nil s r = r
  keep_facts-Within (cons v vs) s r =
      Ends-continue _ _ _ (keep_fact v s) _ (keep_fact-Within v s r)
        (λ _ s1 r1. keep_facts-Within vs s1 r1)

  iterate_facts-Within :
      (v : Value) (s : State T W) → Reached c R s → Within c R Unit (iterate_facts v s)
  iterate_facts-Within (arr vs) s r = keep_facts-Within vs s r
  iterate_facts-Within (str t) s r = r
  iterate_facts-Within undefined s r = (tt, r)
  iterate_facts-Within null s r = (tt, r)
  iterate_facts-Within (bool b) s r = (tt, r)
  iterate_facts-Within (num n) s r = (tt, r)
  iterate_facts-Within (obj fs) s r = (tt, r)

  store_facts-Within :
      (v : Value) (s : State T W) → Reached c R s → Within c R Unit (store_facts v s)
  unfolding store_facts
  store_facts-Within v s r =
      Ends-if _ _ (manages_facts s.0 && truthy (get_member v "fatos")) _ _
        (iterate_facts-Within (get_member v "fatos") s r) r

  store_summary-Within :
      (v : Value) (s : State T W) → Reached c R s → Within c R Unit (store_summary rt.clock v s)
  unfolding store_summary
  store_summary-Within v s r =
      Ends-if _ _ (manages_summary s.0 && truthy (get_member v "resumo")) _ _
        (Ends-continue _ _ _ (add_summary rt.clock (get_member v "resumo") none s) _
          (add_summary-Within rt c R MayThrow respects Unit rt.clock (get_member v "resumo") none s
            r)
          (λ _ s1 r1. r1))
        r

  store_memories-Within :
      (o : Outcome Value) (s : State T W)
      → Reached c R s
      → Within c R Unit (store_memories rt.clock o s)
  store_memories-Within (thrown e) s r = r
  store_memories-Within (returned v) s r =
      Ends-continue _ _ _ (store_facts v s) _ (store_facts-Within v s r)
        (λ _ s1 r1. store_summary-Within v s1 r1)

  read_evaluation-Within :
      (o : Option String) (s : State T W)
      → Reached c R s
      → Within c R Unit (read_evaluation rt.parse_json rt.clock o s)
  read_evaluation-Within none s r = r
  read_evaluation-Within (some json) s r = store_memories-Within (rt.parse_json json) s r

  -- A throw of the model, which this method catches, is a throw like any other.
  asked_once :
      (prompt : String) (s : State T W)
      → Reached c R s
      → Within c R Unit (in_world (s.0.llm (evaluation_request prompt)) s)
  asked_once prompt _ (reached task h registry w r) =
      lifted c R Unit task h registry (c.llm (evaluation_request prompt) w) (
        widened MayThrow (R h) (c.llm (evaluation_request prompt) w)
          (respects.asks (evaluation_request prompt) h w r))

  evaluate-Within :
      (prompt : String) (s : State T W)
      → Reached c R s
      → Within c R Unit (evaluate rt.parse_json rt.clock prompt s)
  evaluate-Within prompt s r =
      Ends-continue _ _ _ (in_world (s.0.llm (evaluation_request prompt)) s) _
        (asked_once prompt s r) (λ o s1 r1. read_evaluation-Within _ s1 r1)

  -- Whatever fails in the evaluation, it does not throw.
  pub evaluate_and_manage_memories-Within :
      (X : Type 0) (message answer : String) (s : State T W)
      → Reached c R s
      → Within c R X (evaluate_and_manage_memories rt.parse_json rt.clock message answer s)
  unfolding evaluate_and_manage_memories
  evaluate_and_manage_memories-Within X message answer s r =
      caught c R X _ _ (evaluate-Within _ s r) (λ e s1 r1. r1)
