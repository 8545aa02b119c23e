-- ===== src/ChatAgent/Evaluation/Prompt.antt =====
-- The prompt of `_evaluateAndManageMemories` of lib/chat-agent.js.
use gemini_agent_lib.Prelude.{String, Bool, [], ◌∷◌, join, if◌then◌else◌}

abbrev pub evaluation_prompt : Bool → Bool → String → String → String
evaluation_prompt facts summary user_message agent_response = join "" (
    "Analise a seguinte interação entre um usuário e um assistente:\n"
    ∷ "\n"
    ∷ "Usuário: \""
    ∷ user_message
    ∷ "\"\n"
    ∷ "\n"
    ∷ "Assistente: \""
    ∷ agent_response
    ∷ "\"\n"
    ∷ "\n"
    ∷ (if facts
        then join "" (
            "\n" ∷ "EXTRAÇÃO DE FATOS:\n"
            ∷ "Identifique fatos importantes mencionados nesta interação. Um fato é uma "
            ∷ "informação discreta e específica que pode ser útil para referência futura.\n"
            ∷ "Para cada fato identificado, forneça:\n"
            ∷ "1. Uma chave única e descritiva (sem espaços, use_underscores)\n"
            ∷ "2. O valor do fato (pode ser string, número, booleano ou objeto JSON simples)\n"
            ∷ "\n" ∷ "Formato de resposta para fatos:\n" ∷ "{\n" ∷ "  \"fatos\": [\n"
            ∷ "    {\"chave\": \"nome_do_usuario\", \"valor\": \"João Silva\"},\n"
            ∷ "    {\"chave\": \"preferencia_cor\", \"valor\": \"azul\"},\n" ∷ "    ...\n" ∷ "  ]\n"
            ∷ "}\n" ∷ "\n" ∷ "Se não houver fatos relevantes para extrair, retorne um array vazio: "
            ∷ "{\"fatos\": []}.\n" ∷ [])
        else "")
    ∷ (if summary
        then join "" (
            "\n" ∷ "GERAÇÃO DE RESUMO:\n"
            ∷ "Com base nesta interação, decida se é necessário gerar ou atualizar um resumo "
            ∷ "da conversa.\n"
            ∷ "Um resumo deve capturar os pontos principais da conversa de forma concisa.\n" ∷ "\n"
            ∷ "Formato de resposta para resumo:\n" ∷ "{\n"
            ∷ "  \"resumo\": \"Texto do resumo aqui, ou null se não for necessário atualizar\"\n"
            ∷ "}\n" ∷ [])
        else "")
    ∷ "\n"
    ∷ "Responda APENAS com um objeto JSON contendo os campos solicitados, sem texto "
    ∷ "adicional."
    ∷ [])
