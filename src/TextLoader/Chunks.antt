-- ===== src/TextLoader/Chunks.antt =====
-- What the chunks of a text are: the loop ends, and the text can be put together again.
use gemini_agent_lib.Prelude.{
  ℕ, zero, suc, ◌+◌, ◌-◌, ◌≤◌, ◌<◌, min, String, ◌≡◌, refl, ap, some, List, [], ◌∷◌, ◌++◌, arith,
  ltb, length, take, drop, All, Bool-cases, inl, inr, length-drop, sym, ◌∙◌, ltb→lt,
}
use gemini_agent_lib.Prelude.Action.{returned}
use gemini_agent_lib.TextLoader.{
  LoadedDocument, TextLoader, new, split_from, split_text, next_index, document,
}

-- The state of a loader that the constructor returns.
abbrev pub IsValid : TextLoader → Type 0
IsValid l = l.chunk_overlap < l.chunk_size

-- The first chunk whole, and of each later chunk what follows the overlap.
abbrev pub fresh_parts : ℕ → List LoadedDocument → List ℕ
fresh_parts overlap [] = []
fresh_parts overlap (d ∷ docs) = drop overlap d.content ++ fresh_parts overlap docs

abbrev pub reassemble : ℕ → List LoadedDocument → List ℕ
reassemble overlap [] = []
reassemble overlap (d ∷ docs) = d.content ++ fresh_parts overlap docs

-- The chunks bear the numbers from `index` on.
abbrev pub Numbered : ℕ → List LoadedDocument → Type 0
Numbered index [] = Unit
Numbered index (d ∷ docs) = (d.metadata.chunk_index ≡ index) × Numbered (index + 1) docs

module _ {ℓ} {A : Type ℓ} where
  drop-nil : (n : ℕ) → drop {A = A} n [] ≡ []
  drop-nil zero = refl
  drop-nil (suc n) = refl

  drop-drop : (a b n : ℕ) (xs : List A) → n ≡ b + a → drop a (drop b xs) ≡ drop n xs
  drop-drop a zero n xs h = ap (λ k. drop k xs) (omega arith)
  drop-drop a (suc b) zero xs h = absurd (omega arith)
  drop-drop a (suc b) (suc n) [] h = drop-nil a
  drop-drop a (suc b) (suc n) (x ∷ xs) h = drop-drop a b n xs (omega arith)

  take_cap : (m n : ℕ) (xs : List A) → m ≡ min n (length xs) → take m xs ≡ take n xs
  take_cap zero zero xs h = refl
  take_cap zero (suc n) [] h = refl
  take_cap zero (suc n) (x ∷ xs) h = absurd (omega arith)
  take_cap (suc m) n [] h = absurd (omega arith)
  take_cap (suc m) zero (x ∷ xs) h = absurd (omega arith)
  take_cap (suc m) (suc n) (x ∷ xs) h = ap (λ r. x ∷ r) (take_cap m n xs (omega arith))

  drop-take-append : (k n : ℕ) (xs : List A) → k ≤ n → drop k (take n xs) ++ drop n xs ≡ drop k xs
  drop-take-append zero zero xs h = refl
  drop-take-append zero (suc n) [] h = refl
  drop-take-append zero (suc n) (x ∷ xs) h =
      ap (λ r. x ∷ r) (drop-take-append zero n xs (omega arith))
  drop-take-append (suc k) zero xs h = absurd (omega arith)
  drop-take-append (suc k) (suc n) [] h = refl
  drop-take-append (suc k) (suc n) (x ∷ xs) h = drop-take-append k n xs (omega arith)

  length-take : (n : ℕ) (xs : List A) → length (take n xs) ≡ min n (length xs)
  length-take zero xs = omega arith
  length-take (suc n) [] = omega arith
  length-take (suc n) (x ∷ xs) = omega (arith, length-take n xs)

  drop_past : (n : ℕ) (xs : List A) → length xs ≤ n → drop n xs ≡ []
  drop_past zero [] h = refl
  drop_past zero (x ∷ xs) h = absurd (omega arith)
  drop_past (suc n) [] h = refl
  drop_past (suc n) (x ∷ xs) h = drop_past n xs (omega arith)

-- What holds of each chunk.
abbrev pub IsChunk : TextLoader → String → LoadedDocument → Type 0
IsChunk l source d =
    (0 < length d.content) × (length d.content ≤ l.chunk_size) × (d.metadata.source ≡ source)

module _ (l : TextLoader) (text : List ℕ) (source : String) where
  -- The chunks of the text from `start` on.
  pub record Covers (start index : ℕ) (docs : List LoadedDocument) : Type 0 where
    pub each : All (IsChunk l source) docs
    pub numbered : Numbered index docs
    pub rest : fresh_parts l.chunk_overlap docs ≡ drop (start + l.chunk_overlap) text
    pub whole : reassemble l.chunk_overlap docs ≡ drop start text

  substring-eq :
      (start : ℕ) → (document l text source start 0).content ≡ take l.chunk_size (drop start text)
  substring-eq start = take_cap _ _ (drop start text) (omega (arith, length-drop start text))

  module _ (valid : IsValid l) where
    next-eq :
        (start : ℕ) → next_index l text source start ≡ start + (l.chunk_size - l.chunk_overlap)
    next-eq start = ground arith

    document-IsChunk :
        (start index : ℕ)
        → start < length text
        → IsChunk l source (document l text source start index)
    document-IsChunk start index h =
        let e = ap length (substring-eq start) in
        let c = length-take l.chunk_size (drop start text) in
        let d = length-drop start text in (omega arith, omega arith, refl)

    fresh_parts-next :
        (start index : ℕ) (docs : List LoadedDocument)
        → Covers (next_index l text source start) index docs
        → fresh_parts l.chunk_overlap docs ≡ drop l.chunk_size (drop start text)
    fresh_parts-next start index docs c =
        let n = next-eq start in
        c.rest
        ∙ ap (λ k. drop k text) (omega arith)
        ∙ sym (drop-drop l.chunk_size start (start + l.chunk_size) text refl)

    Covers-cons :
        (start index : ℕ) {docs : List LoadedDocument}
        → start < length text
        → Covers (next_index l text source start) (index + 1) docs
        → Covers start index (document l text source start index ∷ docs)
    Covers-cons start index h c = record {
      each = (document-IsChunk start index h, c.each);
      numbered = (refl, c.numbered);
      rest =
          rw (substring-eq start, fresh_parts-next start (index + 1) _ c)
            (drop-take-append l.chunk_overlap l.chunk_size (drop start text) (omega arith)
              ∙ drop-drop l.chunk_overlap start (start + l.chunk_overlap) text refl);
      whole =
          rw (substring-eq start, fresh_parts-next start (index + 1) _ c)
            (drop-take-append 0 l.chunk_size (drop start text) (omega arith));
    }

    Covers-nil : (start index : ℕ) → length text ≤ start → Covers start index []
    Covers-nil start index h = record {
      each = tt;
      numbered = tt;
      rest = sym (drop_past (start + l.chunk_overlap) text (omega arith));
      whole = sym (drop_past start text h);
    }

    split_from_sound :
        (fuel start index : ℕ)
        → length text - start < fuel
        → (docs : List LoadedDocument) × (split_from l text source fuel start index ≡ some docs)
          × Covers start index docs
    unfolding split_from
    split_from_sound zero start index h = absurd (omega arith)
    split_from_sound (suc fuel) start index h = elim (Bool-cases (ltb start (length text))) [
      | inl more ↦
          let (docs, e, c) =
            split_from_sound fuel (next_index l text source start) (index + 1) (ground arith) in
          (
            document l text source start index ∷ docs,
            rw (more, e),
            Covers-cons start index (ltb→lt _ _ more) c,
          )
      | inr done ↦ ([], rw done, Covers-nil start index (ground arith))
    ]

-- A loader that the constructor returns splits every text, in finitely many rounds, into chunks
-- that are not empty, are at most `chunkSize` long, bear the source and are numbered from 0; the
-- text comes back when each chunk but the first is put behind the last one without its overlap.
pub split_text-reassemble :
    (size overlap : ℕ) (l : TextLoader) (text : List ℕ) (source : String)
    → new size overlap ≡ returned l
    → (docs : List LoadedDocument) × (split_text l text source ≡ some docs)
      × (reassemble l.chunk_overlap docs ≡ text)
      × All (IsChunk l source) docs
      × Numbered 0 docs
unfolding new split_text
split_text-reassemble size overlap l text source h =
    let (docs, e, c) =
      split_from_sound l text source (ground arith) (suc (length text)) 0 0 (omega arith) in
    (docs, e, c.whole, c.each, c.numbered)
