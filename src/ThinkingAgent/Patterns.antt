-- ===== src/ThinkingAgent/Patterns.antt =====
-- The regular expressions by which lib/thinking-agent.js reads a response.
use gemini_agent_lib.Prelude.{String, Bool, ◌||◌, List, [], ◌∷◌, any, is_space}
use gemini_agent_lib.Prelude.Pattern.{
  Pattern, start, boundary, literal, word, one, many, many1, both, either, optional, words, is_dot,
  is_digit, among, but, test,
}

abbrev step_titles : List String
step_titles =
    "Raciocínio" ∷ "Passo a Passo" ∷ "Explicação" ∷ "Thinking" ∷ "Reasoning" ∷ "Steps" ∷ []

-- `hasStepByStepTitle`
unfoldable pub has_step_title : String → Bool
unfolding test
has_step_title s =
    test (both (literal "##") (both (many is_dot) (words step_titles))) s
    || test (both (literal "**") (words step_titles)) s

-- two words apart
abbrev spaced : String → String → Pattern
spaced a b = both (word a) (both (many1 is_space) (word b))

abbrev conclusion_indicators : List Pattern
conclusion_indicators =
    word "portanto"
    ∷ spaced "em" "conclusão"
    ∷ word "concluindo"
    ∷ spaced "resposta" "final"
    ∷ spaced "resultado" "final"
    ∷ word "assim"
    ∷ word "logo"
    ∷ word "finalmente"
    ∷ word "conclusão"
    ∷ word "resumindo"
    ∷ spaced "para" "concluir"
    ∷ spaced "em" "suma"
    ∷ spaced "em" "síntese"
    ∷ []

-- `conclusionIndicators.some(indicator => indicator.test(paragraph))`
unfoldable pub indicates_conclusion : String → Bool
unfolding test is_space
indicates_conclusion paragraph = any (λ p. test p paragraph) conclusion_indicators

abbrev answer_titles : Pattern
answer_titles =
    words
      ("Resposta Final" ∷ "Conclusão" ∷ "Resultado" ∷ "Answer" ∷ "Final Answer" ∷ "Response" ∷ [])

abbrev final_answer_title_patterns : List Pattern
final_answer_title_patterns =
    both (literal "**") (both answer_titles (both (literal "**") (optional (literal ":"))))
    ∷ both (literal "##") (both (many is_space) answer_titles)
    ∷ both answer_titles (literal ":")
    ∷ []

-- `finalAnswerTitlePatterns.some(pattern => pattern.test(paragraph))`
unfoldable pub has_answer_title : String → Bool
unfolding test is_space
has_answer_title paragraph = any (λ p. test p paragraph) final_answer_title_patterns

abbrev heading : Pattern → Pattern
heading p = both start (both (many1 (among "#")) (both (many1 is_space) p))

-- `/^#+\s|\*\*[^*]+\*\*:/`, the title of another section
unfoldable pub is_section_title : String → Bool
unfolding test is_space
is_section_title = test (
    either (both start (both (many1 (among "#")) (one is_space)))
      (both (literal "**") (both (many1 (but "*")) (literal "**:"))))

-- `/^#+\s+Conclusão|\*\*Conclusão\*\*:?/i`
unfoldable pub is_conclusion_title : String → Bool
unfolding test is_space
is_conclusion_title = test (
    either (heading (word "Conclusão")) (
      both (literal "**") (both (word "Conclusão") (both (literal "**") (optional (literal ":"))))))

abbrev final_heading : Pattern
final_heading = either (heading (spaced "Resposta" "Final")) (
    both start (
      both (literal "**")
        (both (spaced "Resposta" "Final") (both (literal "**") (optional (literal ":"))))))

-- `/^#+\s+Resposta\s+Final|^\*\*Resposta\s+Final\*\*:?/i`
unfoldable pub is_final_heading : String → Bool
unfolding test is_space
is_final_heading = test final_heading

-- `/^#+\s+Resposta\s+Final|^\*\*Resposta\s+Final\*\*:?|^Resposta\s+Final:?/i`
unfoldable pub is_final_opening : String → Bool
unfolding test is_space
is_final_opening =
    test (
      either final_heading (both start (both (spaced "Resposta" "Final") (optional (literal ":")))))

-- `/\*\*Resposta:?\*\*|\bResposta:?\b|^Resposta:?\s/i`
unfoldable pub is_answer : String → Bool
unfolding test is_space
is_answer =
    let answer = both (word "Resposta") (optional (literal ":")) in
    test (
      either (both (literal "**") (both answer (literal "**")))
        (either (both boundary (both answer boundary)) (both start (both answer (one is_space)))))

-- `hasNumberedSteps || hasBulletPoints`
unfoldable pub has_list : String → Bool
unfolding test is_space
has_list s =
    test
      (both (literal "\n")
        (both (many is_space) (both (many1 is_digit) (both (literal ".") (many1 is_space)))))
      s
    || test (both (literal "\n") (both (many is_space) (both (one (among "*-")) (many1 is_space))))
        s
