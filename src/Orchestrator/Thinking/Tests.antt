-- ===== src/Orchestrator/Thinking/Tests.antt =====
-- A response of a thinking model with markers, and the theorems at it.
use gemini_agent_lib.Prelude.{ℕ, ◌≤◌, ◌<◌, String, ◌≡◌, refl, some, none, trim, is_space}
use gemini_agent_lib.Prelude.Action.{Outcome, thrown}
use gemini_agent_lib.Prelude.Pattern.{text_length}
use gemini_agent_lib.Value.{Value, str}
use gemini_agent_lib.Orchestrator.Thinking.Cut.{answer_start-separator_start}
use gemini_agent_lib.Orchestrator.Thinking.Response.{
  parts_of, final_answer_markers, answer_start, separator_start, read_marked, clean,
}

abbrev explained : String
explained = "Penso.\n---\nPenso mais.\n\n**Resposta Final**\nDois."

abbrev no_json : String → Outcome Value
no_json s = thrown "Unexpected token"

-- the last marker counts
explained_parts :
    read_marked explained ≡ parts_of explained (str "Dois.") "Penso.\n---\nPenso mais."
unfolding read_marked trim
explained_parts = refl

-- A title left at the beginning of an answer is removed.
explained_clean : clean "## Conclusão\nDois." ≡ "Dois."
unfolding clean trim
explained_clean = refl

explained_start : answer_start final_answer_markers explained none ≡ some 43
unfolding answer_start is_space
explained_start = refl

answer_start-separator_start_example :
    (j : ℕ) × (separator_start final_answer_markers explained 43 ≡ some j)
    × (j < 43)
    × (43 ≤ text_length explained)
answer_start-separator_start_example = answer_start-separator_start explained 43 explained_start
