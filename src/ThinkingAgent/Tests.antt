-- ===== src/ThinkingAgent/Tests.antt =====
-- Responses that are read, and the theorems at them.
use gemini_agent_lib.Prelude.{
  ℕ, String, ◌≡◌, refl, some, [], ◌∷◌, take, join, trim, split_blank_lines,
}
use gemini_agent_lib.Prelude.Action.{Outcome, thrown}
use gemini_agent_lib.Value.{Value}
use gemini_agent_lib.ThinkingAgent.{answered, process_thinking_response, read_text}
use gemini_agent_lib.ThinkingAgent.Answers.{HasText, process_thinking_response-Kept}
use gemini_agent_lib.ThinkingAgent.Patterns.{
  has_answer_title, is_conclusion_title, is_final_heading, is_final_opening, indicates_conclusion,
  is_answer, has_step_title,
}
use gemini_agent_lib.ThinkingAgent.Sections.{paragraphs_of, places, colon_text, until_title}
use gemini_agent_lib.ThinkingAgent.Titles.{process_thinking_response-titled}

abbrev no_json : String → Outcome Value
no_json s = thrown "Unexpected token"

abbrev explained : String
explained = "Vou pensar.\n\nSão dois.\n\n**Resposta Final**: dois\n\nE só.\n\n## Fim\n\nnada"

explained_paragraphs :
    paragraphs_of explained
    ≡ "Vou pensar." ∷ "São dois." ∷ "**Resposta Final**: dois" ∷ "E só." ∷ "## Fim" ∷ "nada" ∷ []
unfolding paragraphs_of trim split_blank_lines
explained_paragraphs = refl

-- The mark in `**Resposta Final:**` stays in the answer.
mark_stays :
    read_text "Penso.\n\n**Resposta Final:** dois"
    ≡ answered "Penso.\n\n**Resposta Final:** dois" "** dois" "Penso."
unfolding read_text places split_blank_lines trim has_answer_title is_conclusion_title
    is_final_heading is_final_opening indicates_conclusion is_answer has_step_title colon_text
    until_title
mark_stays = refl

-- Without a title the last of some steps is the answer.
last_step :
    read_text "## Raciocínio\n\nPasso um.\n\ndois"
    ≡ answered "## Raciocínio\n\nPasso um.\n\ndois" "dois" "## Raciocínio\n\nPasso um."
unfolding read_text places split_blank_lines trim has_answer_title is_conclusion_title
    is_final_heading is_final_opening indicates_conclusion is_answer has_step_title colon_text
    until_title
last_step = refl

process_thinking_response-Kept_example :
    (n : ℕ) × (t : String) × (process_thinking_response no_json (some explained)
      ≡ answered explained t (join "\n\n" (take n (paragraphs_of explained))))
    × HasText t
process_thinking_response-Kept_example =
    process_thinking_response-Kept no_json explained "Unexpected token" refl refl

process_thinking_response-titled_example :
    process_thinking_response no_json (some explained)
    ≡ answered explained
        (join "\n\n" ("dois" ∷ until_title ("E só." ∷ "## Fim" ∷ "nada" ∷ [])))
        "Vou pensar.\n\nSão dois."
unfolding has_answer_title colon_text trim
process_thinking_response-titled_example =
    process_thinking_response-titled no_json explained "Unexpected token" "Vou pensar."
      "**Resposta Final**: dois" "dois" ("São dois." ∷ []) ("E só." ∷ "## Fim" ∷ "nada" ∷ []) refl
      explained_paragraphs (refl, (refl, tt)) refl refl
