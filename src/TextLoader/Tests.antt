-- ===== src/TextLoader/Tests.antt =====
-- The theorem on lib/loaders/text-loader.js at a text of seven units.
use gemini_agent_lib.Prelude.{ℕ, ◌≡◌, refl, List, [], ◌∷◌, some, All}
use gemini_agent_lib.TextLoader.{LoadedDocument, TextLoader, new, split_text}
use gemini_agent_lib.TextLoader.Chunks.{reassemble, IsChunk, Numbered, split_text-reassemble}

abbrev loader : TextLoader
loader = record { chunk_size = 4; chunk_overlap = 1 }

abbrev units : List ℕ
units = 1 ∷ 2 ∷ 3 ∷ 4 ∷ 5 ∷ 6 ∷ 7 ∷ []

split_text-reassemble_example :
    (docs : List LoadedDocument) × (split_text loader units "a.txt" ≡ some docs)
    × (reassemble 1 docs ≡ units)
    × All (IsChunk loader "a.txt") docs
    × Numbered 0 docs
split_text-reassemble_example = split_text-reassemble 4 1 loader units "a.txt" (unfold new in refl)
