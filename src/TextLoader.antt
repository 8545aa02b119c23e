-- ===== src/TextLoader.antt =====
-- lib/loaders/text-loader.js: splitting a text into overlapping chunks. A text is the list of its
-- UTF-16 code units; reading the file (`load`) is input and is not modelled.
pub mod Chunks
mod Tests
use gemini_agent_lib.Prelude.{
  ℕ, zero, suc, ◌+◌, ◌-◌, min, String, Option, none, some, List, [], ◌∷◌, leb, ltb, length, take,
  drop, if◌then◌else◌,
}
use gemini_agent_lib.Prelude.Action.{Outcome, returned, thrown}
use mathlib.Core.Option

pub record Metadata : Type 0 where
  pub source : String
  pub chunk_index : ℕ

pub record LoadedDocument : Type 0 where
  pub content : List ℕ
  pub metadata : Metadata

pub record TextLoader : Type 0 where
  pub chunk_size : ℕ
  pub chunk_overlap : ℕ

-- the constructor
unfoldable pub new : ℕ → ℕ → Outcome TextLoader
new chunk_size chunk_overlap =
    if leb chunk_size chunk_overlap
    then thrown "chunkOverlap deve ser menor que chunkSize."
    else returned (record { chunk_size = chunk_size; chunk_overlap = chunk_overlap })

abbrev substring : List ℕ → ℕ → ℕ → List ℕ
substring text start end = take (end - start) (drop start text)

module _ (l : TextLoader) (text : List ℕ) (source : String) where
  abbrev end_index : ℕ → ℕ
  end_index start = min (start + l.chunk_size) (length text)

  -- `startIndex` after a round of the loop. Where the step is not positive the last assignment
  -- counts, so the truncated subtraction is the program's.
  abbrev next_index : ℕ → ℕ
  next_index start =
      if leb l.chunk_size l.chunk_overlap
      then end_index start
      else start + (l.chunk_size - l.chunk_overlap)

  abbrev document : ℕ → ℕ → LoadedDocument
  document start index = record {
    content = substring text start (end_index start);
    metadata = record { source = source; chunk_index = index };
  }

  -- The `while` loop on fuel, from `startIndex` and `chunkIndex`; `none` means that it ran out.
  unfoldable pub split_from : ℕ → ℕ → ℕ → Option (List LoadedDocument)
  split_from zero start index = none
  split_from (suc fuel) start index =
      let rest = split_from fuel (next_index start) (index + 1) in
      if ltb start (length text)
      then Option.map (λ docs. document start index ∷ docs) rest
      else some []

-- Each round moves `startIndex` on by one at least.
unfoldable pub split_text : TextLoader → List ℕ → String → Option (List LoadedDocument)
unfolding split_from
split_text l text source = split_from l text source (suc (length text)) 0 0
