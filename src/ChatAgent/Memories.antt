-- ===== src/ChatAgent/Memories.antt =====
-- The methods of lib/chat-agent.js on its memories of facts and summaries. Each answers with a
-- default where there is no memory, and where the memory throws.
use gemini_agent_lib.Prelude.{
  ℕ, String, Bool, true, false, Option, none, some, List, [], or_else, if◌then◌else◌, ◌+++◌,
}
use gemini_agent_lib.Prelude.Dict.{Dict}
use gemini_agent_lib.Prelude.Action.{Action, pure, throw, try_catch, ◌>>=◌, ◌>>◌}
use gemini_agent_lib.Value.{Value, undefined, null, str, truthy}
use gemini_agent_lib.ChatAgent.{Summary, FactMemory, SummaryMemory, State, attached, in_world}

-- `v.substring(…)`, in a log line, which throws if `v` is no text
abbrev pub as_text : {S : Type 0} → String → Value → Action S String
as_text name undefined = throw "Cannot read properties of undefined (reading 'substring')"
as_text name null = throw "Cannot read properties of null (reading 'substring')"
as_text name (str s) = pure s
as_text name v = throw name

abbrev pub no_substring : String
no_substring = ".substring is not a function"

-- the log line on a summary that is found
abbrev pub log_summary : {S : Type 0} → Value → Action S Value
log_summary summary =
    if truthy summary
    then as_text ("summary" +++ no_substring) summary >> pure summary
    else pure summary

-- the answer of a memory, or a default
abbrev pub recovered :
    {M A W : Type 0} → A → (M → String → Action W A) → Option (M × String) → Action W A
recovered d f none = pure d
recovered d f (some (m, id)) = try_catch (f m id) (λ e. pure d)

module _ {T W : Type 0} where
  abbrev with_facts : {A : Type 0} → A → (FactMemory W → String → Action W A) → Action (State T W) A
  with_facts d f s = in_world (recovered d f (attached s.0.fact_memory s.0.chat_id)) s

  abbrev with_summaries :
      {A : Type 0} → A → (SummaryMemory W → String → Action W A) → Action (State T W) A
  with_summaries d f s = in_world (recovered d f (attached s.0.summary_memory s.0.chat_id)) s

  -- `setFact`
  unfoldable pub set_fact : Value → Value → Action (State T W) Bool
  set_fact key value = with_facts false (λ m id. m.set_fact id key value >> pure true)

  -- `getFact`
  unfoldable pub get_fact : Value → Action (State T W) Value
  get_fact key = with_facts null (λ m id. m.get_fact id key)

  -- `getAllFacts`
  unfoldable pub get_all_facts : Action (State T W) (Dict Value)
  get_all_facts = with_facts [] (λ m id. m.get_all_facts id)

  -- `addSummary`; `clock` reads the time. A content that is no text is stored, and then its log
  -- line throws.
  unfoldable pub add_summary : (W → ℕ) → Value → Option ℕ → Action (State T W) Bool
  add_summary clock content timestamp = with_summaries false λ m id w.
      (do
        m.add_summary id content (or_else timestamp (clock w))
        as_text ("summaryContent" +++ no_substring) content
        pure true)
        w

  -- `getLatestSummary`
  unfoldable pub get_latest_summary : Action (State T W) Value
  get_latest_summary = with_summaries null (λ m id. m.get_latest_summary id >>= log_summary)

  -- `getAllSummaries`
  unfoldable pub get_all_summaries : Option ℕ → Action (State T W) (List Summary)
  get_all_summaries limit = with_summaries [] (λ m id. m.get_all_summaries id limit)
