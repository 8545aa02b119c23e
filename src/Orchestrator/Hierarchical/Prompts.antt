-- ===== src/Orchestrator/Hierarchical/Prompts.antt =====
-- The texts of lib/hierarchical-agent-orchestrator.js: the default task for an expert, and the two
-- prompts for the model.
use gemini_agent_lib.Prelude.{String, [], ◌∷◌, join, ◌+++◌}

unfoldable pub default_task : String → String → String → String
default_task role objective task = join "" (
    "\n" ∷ "Como especialista no papel de " ∷ role ∷ " com o objetivo de \"" ∷ objective
    ∷ "\", sua missão é contribuir para a seguinte tarefa principal:\n" ∷ "\n" ∷ "\"" ∷ task
    ∷ "\"\n" ∷ "\n" ∷ "Instruções específicas:\n"
    ∷ "1. Analise a tarefa principal sob a perspectiva específica da sua expertise\n"
    ∷ "2. Concentre-se nos aspectos da tarefa que mais se relacionam com seu papel e "
    ∷ "objetivo\n" ∷ "3. Forneça insights, análises ou soluções que apenas um especialista em "
    ∷ role ∷ " poderia oferecer\n"
    ∷ "4. Evite abordar aspectos que estejam fora do escopo da sua especialidade\n" ∷ "\n"
    ∷ "Formato da resposta:\n"
    ∷ "- Inicie com uma breve análise da tarefa sob sua perspectiva especializada\n"
    ∷ "- Apresente sua contribuição principal de forma estruturada e objetiva\n"
    ∷ "- Se aplicável, inclua recomendações específicas ou próximos passos\n"
    ∷ "- Mantenha sua resposta concisa, direta e focada na sua área de expertise\n" ∷ "\n"
    ∷ "Lembre-se: Sua resposta será integrada com as de outros especialistas para "
    ∷ "formar uma solução completa.\n" ∷ [])

unfoldable pub selection_prompt : String → String → String
selection_prompt task agent_descriptions = join "" (
    "\n" ∷ "            Você é um agente orquestrador hierárquico avançado, responsável por "
    ∷ "planejar e coordenar a execução de tarefas complexas através da seleção "
    ∷ "estratégica de agentes especialistas.\n" ∷ "\n" ∷ "            Tarefa Principal: \"" ∷ task
    ∷ "\"\n" ∷ "\n" ∷ "            Agentes Especialistas Disponíveis:\n" ∷ "            "
    ∷ agent_descriptions ∷ "\n" ∷ "\n" ∷ "            Instruções para Análise da Tarefa:\n"
    ∷ "            1. Decomponha a tarefa principal em subtarefas ou componentes " ∷ "essenciais\n"
    ∷ "            2. Identifique quais habilidades e conhecimentos são necessários "
    ∷ "para cada componente\n" ∷ "            3. Avalie cada agente especialista considerando:\n"
    ∷ "               - Relevância direta para componentes específicos da tarefa\n"
    ∷ "               - Capacidade de fornecer informações ou perspectivas únicas\n"
    ∷ "               - Complementaridade com outros agentes (evitando redundâncias)\n"
    ∷ "               - Potencial para resolver aspectos críticos da tarefa\n" ∷ "\n"
    ∷ "            Critérios de Seleção:\n"
    ∷ "            - Selecione APENAS agentes que contribuirão significativamente para "
    ∷ "o resultado\n" ∷ "            - Evite selecionar agentes com funções redundantes\n"
    ∷ "            - Considere a eficiência do conjunto (máximo valor com mínimo de " ∷ "agentes)\n"
    ∷ "            - Priorize agentes com expertise diretamente relacionada aos "
    ∷ "aspectos centrais da tarefa\n" ∷ "\n" ∷ "            Formato de Resposta:\n"
    ∷ "            Liste os roles dos agentes selecionados, um por linha.\n"
    ∷ "            Se nenhum agente for relevante, responda apenas: Nenhum agente "
    ∷ "relevante encontrado\n" ∷ "        " ∷ [])

unfoldable pub synthesis_prompt : String → String → String
synthesis_prompt task responses_text = join "" (
    "\n" ∷ "            Você é um agente orquestrador hierárquico avançado, responsável por "
    ∷ "sintetizar informações de múltiplas fontes especializadas em uma resposta "
    ∷ "coesa, precisa e abrangente.\n" ∷ "\n" ∷ "            Tarefa Principal: \"" ∷ task ∷ "\"\n"
    ∷ "\n" ∷ "            Respostas dos Agentes Especialistas:\n" ∷ "            " ∷ responses_text
    ∷ "\n" ∷ "\n" ∷ "            Instruções para Síntese:\n"
    ∷ "            1. Identifique os principais componentes/aspectos da tarefa que "
    ∷ "precisam ser abordados\n"
    ∷ "            2. Mapeie as contribuições de cada agente para esses componentes\n"
    ∷ "            3. Avalie a qualidade, relevância e confiabilidade de cada contribuição\n"
    ∷ "            4. Identifique padrões, conexões e insights que emergem do conjunto "
    ∷ "de respostas\n"
    ∷ "            5. Resolva contradições e preencha lacunas de informação quando " ∷ "possível\n"
    ∷ "\n" ∷ "            Princípios para Estruturação da Resposta:\n"
    ∷ "            - Priorize informações por relevância e confiabilidade\n"
    ∷ "            - Organize o conteúdo de forma lógica e progressiva\n"
    ∷ "            - Elimine redundâncias e informações tangenciais\n"
    ∷ "            - Mantenha um tom consistente e apropriado ao contexto da tarefa\n"
    ∷ "            - Apresente perspectivas alternativas quando relevante, com "
    ∷ "indicação clara das diferenças\n" ∷ "\n" ∷ "            Formato da Resposta Final:\n"
    ∷ "            - Introdução: Contextualize brevemente o problema/tarefa\n"
    ∷ "            - Corpo: Apresente as informações organizadas por tópicos ou "
    ∷ "aspectos relevantes\n"
    ∷ "            - Conclusão: Sintetize os principais pontos e forneça uma resposta "
    ∷ "direta à tarefa original\n"
    ∷ "            - (Quando aplicável) Recomendações ou próximos passos\n" ∷ "\n"
    ∷ "            A resposta deve ser clara, concisa e completa, integrando as "
    ∷ "informações dos especialistas.\n" ∷ "        " ∷ [])

abbrev pub no_agent_phrase : String
no_agent_phrase = "nenhum agente relevante encontrado"

abbrev pub no_agent_answer : String
no_agent_answer = "Nenhum agente especialista adequado encontrado para a tarefa."

abbrev pub agent_description : String → String → String
agent_description role objective = "- Role: " +++ role +++ ", Objective: " +++ objective

abbrev pub response_line : String → String → String
response_line role response = "- Agente " +++ role +++ ": " +++ response
