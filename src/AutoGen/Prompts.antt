-- ===== src/AutoGen/Prompts.antt =====
-- The prompts of lib/auto-gen-orchestrator.js.
use gemini_agent_lib.Prelude.{String, [], ◌∷◌, join}

unfoldable pub planning_prompt : String → String
planning_prompt user_task = join "" (
    "\n" ∷ "            **Tarefa Principal do Usuário:**\n" ∷ "            " ∷ user_task ∷ "\n"
    ∷ "\n" ∷ "            **Instruções:**\n"
    ∷ "            1. Analise a tarefa principal e crie um plano detalhado e passo a "
    ∷ "passo para alcançar o objetivo.\n"
    ∷ "            2. Divida a tarefa em sub-tarefas **claras, específicas e "
    ∷ "acionáveis**. Cada sub-tarefa deve ser pequena e bem definida, representando um "
    ∷ "passo lógico no caminho para completar a tarefa principal.\n"
    ∷ "            3. Para cada sub-tarefa, determine qual **tipo de agente** é mais "
    ∷ "adequado para executá-la de forma eficiente (ex: \"Agente de Pesquisa\", "
    ∷ "\"Agente de Análise\", \"Agente de Escrita\", etc.). Seja específico sobre o "
    ∷ "papel do agente.\n"
    ∷ "            4. **IMPORTANTE**: Identifique as dependências entre sub-tarefas. "
    ∷ "Se uma sub-tarefa precisa do resultado de outra para ser executada, especifique "
    ∷ "essa dependência.\n"
    ∷ "            5. Para cada sub-tarefa e agente, defina um **objetivo conciso e um "
    ∷ "prompt (tarefa)** muito **específico** que guie o agente na execução da "
    ∷ "sub-tarefa. O prompt deve ser *direto e objetivo*, indicando exatamente o que o "
    ∷ "agente deve fazer e qual resultado entregar.\n"
    ∷ "            6. Se alguma sub-tarefa se beneficiar da **pesquisa Google "
    ∷ "Search**, indique explicitamente qual agente deve ter a pesquisa Google habilitada.\n"
    ∷ "            7. Retorne o plano em formato JSON. O JSON deve ser um array de "
    ∷ "objetos, onde cada objeto representa uma sub-tarefa e tem as seguintes "
    ∷ "propriedades: \"id\" (identificador único da sub-tarefa), \"taskDescription\" "
    ∷ "(descrição da sub-tarefa), \"agentRole\" (papel do agente), \"agentObjective\" "
    ∷ "(objetivo do agente), \"agentTaskPrompt\" (prompt/tarefa para o agente), "
    ∷ "\"enableGoogleSearch\" (booleano, se o agente deve usar Google Search), "
    ∷ "\"dependsOn\" (array de IDs de sub-tarefas das quais esta depende).\n" ∷ "\n"
    ∷ "            **Formato de Resposta JSON Esperado:**\n" ∷ "            {\n"
    ∷ "              \"subTasks\": [\n" ∷ "                {\n"
    ∷ "                  \"id\": \"task1\",\n"
    ∷ "                  \"taskDescription\": \"Descrição da primeira sub-tarefa\",\n"
    ∷ "                  \"agentRole\": \"Papel do agente para a primeira sub-tarefa\",\n"
    ∷ "                  \"agentObjective\": \"Objetivo do agente para a primeira "
    ∷ "sub-tarefa\",\n" ∷ "                  \"agentTaskPrompt\": \"Prompt detalhado para o agente "
    ∷ "executar a primeira sub-tarefa\",\n" ∷ "                  \"enableGoogleSearch\": false,\n"
    ∷ "                  \"dependsOn\": [] // Array vazio indica que não depende de "
    ∷ "nenhuma outra tarefa\n" ∷ "                },\n" ∷ "                {\n"
    ∷ "                  \"id\": \"task2\",\n"
    ∷ "                  \"taskDescription\": \"Descrição da segunda sub-tarefa\",\n"
    ∷ "                  \"agentRole\": \"Papel do agente para a segunda sub-tarefa\",\n"
    ∷ "                  \"agentObjective\": \"Objetivo do agente para a segunda "
    ∷ "sub-tarefa\",\n" ∷ "                  \"agentTaskPrompt\": \"Prompt detalhado para o agente "
    ∷ "executar a segunda sub-tarefa\",\n" ∷ "                  \"enableGoogleSearch\": true,\n"
    ∷ "                  \"dependsOn\": [\"task1\"] // Esta sub-tarefa depende da task1\n"
    ∷ "                },\n" ∷ "                // ... mais sub-tarefas ...\n" ∷ "              ]\n"
    ∷ "            }\n" ∷ "        " ∷ [])

-- `plan_json` is the plan by `JSON.stringify(plan, null, 2)`
unfoldable pub answer_prompt : String → String → String → String
answer_prompt user_task plan_json combined_results_text = join "" (
    "\n" ∷ "            **Tarefa Principal do Usuário:**\n" ∷ "            " ∷ user_task ∷ "\n"
    ∷ "\n" ∷ "            **Plano de Tarefas Gerado:**\n" ∷ "            " ∷ plan_json ∷ "\n" ∷ "\n"
    ∷ "            **Resultados das Sub-Tarefas Executadas:**\n" ∷ "            "
    ∷ combined_results_text ∷ "\n" ∷ "\n" ∷ "            **Instruções:**\n"
    ∷ "            Com base no plano de tarefas e nos resultados das sub-tarefas, gere "
    ∷ "uma **resposta final clara, concisa e completa** para a tarefa principal do " ∷ "usuário.\n"
    ∷ "            Integre os resultados das sub-tarefas de forma lógica e organizada "
    ∷ "para fornecer a melhor resposta possível.\n" ∷ "            \n"
    ∷ "            Sua resposta deve ser abrangente, bem estruturada e diretamente "
    ∷ "relacionada à tarefa original do usuário.\n"
    ∷ "            Não inclua informações sobre o processo de orquestração ou os "
    ∷ "agentes utilizados, foque apenas no conteúdo da resposta.\n" ∷ "        " ∷ [])
