-- ===== src/ChatAgent/Context.antt =====
-- `_prepareEnrichedContext` of lib/chat-agent.js: the context of a request, with what the memories
-- hold. A memory that throws adds nothing. That the agent has a memory and a chat is tested by
-- the methods of the memory too, and not a second time here.
use gemini_agent_lib.Prelude.{
  ℕ, suc, String, Bool, true, false, Option, none, some, List, [], ◌∷◌, map, is_empty, or_else,
  join, ◌+++◌, if◌then◌else◌,
}
use gemini_agent_lib.Prelude.Dict.{Dict}
use gemini_agent_lib.Prelude.Action.{Action, pure, try_catch, ◌>>=◌}
use gemini_agent_lib.Value.{Value, truthy, json_text, to_text, decimal}
use gemini_agent_lib.AgentRegistry.{or_text}
use gemini_agent_lib.ChatAgent.{SearchResult, SemanticMemory, ChatAgent, State, in_world}
use gemini_agent_lib.ChatAgent.Memories.{get_all_facts, get_latest_summary}

-- `memoryInfo` and the flags that are read
pub record MemoryInfo : Type 0 where
  pub text : String
  pub header_added : Bool
  pub has_rag_context : Bool

abbrev no_info : MemoryInfo
no_info = record { text = ""; header_added = false; has_rag_context = false }

-- `addMemoryHeader`
abbrev add_memory_header : MemoryInfo → MemoryInfo
add_memory_header i =
    if i.header_added
    then i
    else record i { text = i.text +++ "\n\n--- Informações da Memória ---\n"; header_added = true }

-- the header and a text
abbrev add_info : String → MemoryInfo → MemoryInfo
add_info s i = let h = add_memory_header i in record h { text = h.text +++ s }

abbrev fact_line : String × Value → String
fact_line (key, value) = "- " +++ key +++ ": " +++ json_text value +++ "\n"

unfoldable pub add_facts : Dict Value → MemoryInfo → MemoryInfo
add_facts [] i = i
add_facts (fact ∷ facts) i =
    add_info ("Fatos Conhecidos:\n" +++ join "" (map fact_line (fact ∷ facts))) i

-- `metadata.chunkIndex ?? index`
abbrev pub chunk_of : Option ℕ → ℕ → String
chunk_of none index = decimal index
chunk_of (some chunk) index = decimal chunk

abbrev pub context_part : ℕ → SearchResult → String
context_part index r =
    "Fonte: "
    +++ or_text r.source "Desconhecida"
    +++ " (Chunk: "
    +++ chunk_of r.chunk_index index
    +++ ", Score: "
    +++ or_else r.score "N/A"
    +++ ")\n"
    +++ r.content

abbrev pub context_parts : ℕ → List SearchResult → List String
context_parts index [] = []
context_parts index (r ∷ rs) = context_part index r ∷ context_parts (suc index) rs

unfoldable pub add_latest_summary : Value → MemoryInfo → MemoryInfo
add_latest_summary summary i =
    if truthy summary then add_info ("\nResumo Anterior:\n" +++ to_text summary +++ "\n") i else i

abbrev pub search_task :
    {W : Type 0} → String → ℕ → Value → SemanticMemory W → Action W (List SearchResult)
search_task task top_k filter m =
    if is_empty task then pure [] else try_catch (m.search task top_k filter) (λ e. pure [])

module _ {T W : Type 0} where
  -- `_formatRagContext`
  unfoldable pub format_rag_context : ChatAgent T W → List SearchResult → String
  format_rag_context c [] = ""
  format_rag_context c (r ∷ rs) =
      c.rag_context_prefix +++ join "\n---\n" (context_parts 0 (r ∷ rs)) +++ c.rag_context_suffix

  unfoldable pub add_rag_context : ChatAgent T W → List SearchResult → MemoryInfo → MemoryInfo
  unfolding format_rag_context
  add_rag_context c [] i = i
  add_rag_context c (r ∷ rs) i =
      let h = add_info ("\n" +++ format_rag_context c (r ∷ rs) +++ "\n") i in
      record h { has_rag_context = true }

  abbrev memory_instructions : ChatAgent T W → Bool → String
  memory_instructions c has_rag = join "" (
      "\n"
      ∷ "INSTRUÇÕES PARA USO DAS INFORMAÇÕES DA MEMÓRIA (Fatos, Resumos, Contexto "
      ∷ "Recuperado):\n"
      ∷ "1. Use as informações acima como conhecimento de fundo para enriquecer sua resposta."
      ∷ (if has_rag
          then join "" (
              "\n"
              ∷ "2. Priorize o CONTEXTO RECUPERADO (RAG) se ele for diretamente relevante para a "
              ∷ "pergunta atual." ∷ [])
          else join "" ("\n" ∷ "2. Use Fatos e Resumos para contexto geral e consistência." ∷ []))
      ∷ "\n"
      ∷ "3. NÃO repita explicitamente informações da memória se não for necessário.\n"
      ∷ "4. Evite redundâncias. Integre o conhecimento das memórias de forma natural e "
      ∷ "concisa."
      ∷ (if has_rag
          then join "" (
              "\n" ∷ "5. Se o CONTEXTO RECUPERADO contradisser o histórico ou outras memórias, use "
              ∷ "seu julgamento ou peça esclarecimento." ∷ [])
          else "")
      ∷ (if has_rag
          then (if is_empty c.rag_instruction
              then ""
              else join "" ("\n" ∷ "Instrução Adicional RAG: " ∷ c.rag_instruction ∷ []))
          else "")
      ∷ [])

  abbrev closing : ChatAgent T W → MemoryInfo → String
  closing c i =
      if i.header_added
      then i.text
        +++ "--- Fim das Informações da Memória ---\n"
        +++ memory_instructions c i.has_rag_context
      else ""

  -- The context with what the memories gave: facts, then search results, then the summary.
  unfoldable pub enriched : ChatAgent T W → Dict Value → List SearchResult → Value → String
  unfolding add_facts add_rag_context add_latest_summary
  enriched c facts found summary =
      or_else c.context ""
      +++ closing c (add_latest_summary summary (add_rag_context c found (add_facts facts no_info)))

  abbrev pub search_in : Option (SemanticMemory W) → Action (State T W) (List SearchResult)
  search_in none s = pure [] s
  search_in (some m) s = in_world (search_task s.0.task s.0.rag_top_k s.0.rag_filter m) s

  -- the search for the task, if there are a semantic memory and a task
  unfoldable pub search_context : Action (State T W) (List SearchResult)
  search_context s = search_in s.0.semantic_memory s

  -- `_prepareEnrichedContext`
  unfoldable pub prepare_enriched_context : Action (State T W) String
  prepare_enriched_context = do
    facts ← get_all_facts
    found ← search_context
    summary ← get_latest_summary
    λ s. pure (enriched s.0 facts found summary) s
