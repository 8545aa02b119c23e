-- ===== src/Orchestrator/Thinking/Cut.antt =====
-- Where lib/hierarchical-agent-thinking-orchestrator.js cuts a response.
use gemini_agent_lib.Prelude.{
  ℕ, ◌≤◌, ◌<◌, String, ◌≡◌, refl, subst, ◌⊎◌, inl, inr, Bool, Bool-cases, Option, none, some, List,
  [], ◌∷◌, All, find, nat_eq, arith,
}
use gemini_agent_lib.Prelude.Pattern.{Pattern, Hit, hits, text_length}
use gemini_agent_lib.Prelude.Pattern.Hits.{Consumes, Lies, literal-Consumes, hits-Lies}
use gemini_agent_lib.Orchestrator.Thinking.Response.{
  final_answer_markers, last_hit, is_later, moved, answer_start, separator_start, or_next,
}

abbrev Ended : List Hit → ℕ → Type 0
Ended [] i = ⊥
Ended (h ∷ hs) i = (h.end_index ≡ i) ⊎ Ended hs i

-- a match of one of the patterns ends at the index
abbrev Marked : List Pattern → String → ℕ → Type 0
Marked [] raw i = ⊥
Marked (p ∷ ps) raw i = Ended (hits p raw) i ⊎ Marked ps raw i

last_hit-Ended : (hs : List Hit) (h : Hit) → last_hit hs ≡ some h → Ended hs h.end_index
last_hit-Ended [] h e = cc
last_hit-Ended (g ∷ []) h e = inl (ground (arith, e))
last_hit-Ended (g ∷ k ∷ hs) h e = inr (last_hit-Ended (k ∷ hs) h e)

moved-Ended :
    (hs : List Hit) (o : Option Hit) (i : Option ℕ) (j : ℕ)
    → last_hit hs ≡ o
    → moved o i ≡ some j
    → (i ≡ some j) ⊎ Ended hs j
moved-Ended hs none i j l e = inl e
moved-Ended hs (some h) i j l e = elim (Bool-cases (is_later h i)) [
  | inl q ↦
      let ended : h.end_index ≡ j = ground (arith, e, q) in
      inr (subst (Ended hs) ended (last_hit-Ended hs h l))
  | inr q ↦ inl (ground (arith, e, q))
]

-- The index that the first loop leaves is the one at which it began, or the end of a match.
answer_start-Marked :
    (ps : List Pattern) (raw : String) (i : Option ℕ) (j : ℕ)
    → answer_start ps raw i ≡ some j
    → (i ≡ some j) ⊎ Marked ps raw j
unfolding answer_start
answer_start-Marked [] raw i j e = inl e
answer_start-Marked (p ∷ ps) raw i j e =
    elim (answer_start-Marked ps raw (moved (last_hit (hits p raw)) i) j e) [
      | inl q ↦ elim (moved-Ended (hits p raw) (last_hit (hits p raw)) i j refl q) [
        | inl r ↦ inl r
        | inr r ↦ inr (inl r)
      ]
      | inr q ↦ inr (inr q)
    ]

abbrev ends_at : ℕ → Hit → Bool
ends_at i h = nat_eq h.end_index i

-- what the second loop finds in the matches of a pattern
find_at :
    (n i : ℕ) (hs : List Hit) (g : Hit)
    → All (Lies 0 n) hs
    → find (ends_at i) hs ≡ some g
    → (g.first_index < i) × (i ≤ n)
find_at n i [] g l e = cc
find_at n i (h ∷ hs) g (l, ls) e = elim (Bool-cases (ends_at i h)) [
  | inl q ↦ ground (arith, e, q, l)
  | inr q ↦ find_at n i hs g ls (ground (arith, e, q))
]

find-none : (i : ℕ) (hs : List Hit) → find (ends_at i) hs ≡ none → ¬ Ended hs i
find-none i [] e k = k
find-none i (h ∷ hs) e (inl same) = ground (arith, e, same)
find-none i (h ∷ hs) e (inr later) = find-none i hs (ground (arith, e)) later

-- A start that the second loop finds lies before the index, which lies in the text.
abbrev Cuts : String → ℕ → Option ℕ → Type 0
Cuts raw i o = (j : ℕ) × (o ≡ some j) × (j < i) × (i ≤ text_length raw)

found-Cuts :
    (raw : String) (i : ℕ) (hs : List Hit) (o : Option Hit) (next : Option ℕ)
    → All (Lies 0 (text_length raw)) hs
    → find (ends_at i) hs ≡ o
    → Ended hs i ⊎ Cuts raw i next
    → Cuts raw i (or_next o next)
found-Cuts raw i hs (some h) next l e m =
    let (before, within) = find_at (text_length raw) i hs h l e in
    (h.first_index, refl, before, within)
found-Cuts raw i hs none next l e (inl m) = absurd (find-none i hs e m)
found-Cuts raw i hs none next l e (inr m) = m

separator_start-Cuts :
    (ps : List Pattern) (raw : String) (i : ℕ)
    → All Consumes ps
    → Marked ps raw i
    → Cuts raw i (separator_start ps raw i)
unfolding separator_start
separator_start-Cuts [] raw i c m = absurd m
separator_start-Cuts (p ∷ ps) raw i (c, cs) (inl m) =
    found-Cuts raw i (hits p raw) (find (ends_at i) (hits p raw)) (separator_start ps raw i)
      (hits-Lies p raw c) refl (inl m)
separator_start-Cuts (p ∷ ps) raw i (c, cs) (inr m) =
    found-Cuts raw i (hits p raw) (find (ends_at i) (hits p raw)) (separator_start ps raw i)
      (hits-Lies p raw c) refl (inr (separator_start-Cuts ps raw i cs m))

final_answer_markers-Consumes : All Consumes final_answer_markers
final_answer_markers-Consumes = (
  literal-Consumes "\n**" _ (omega arith),
  (literal-Consumes "\n##" _ (omega arith), (literal-Consumes "\n" _ (omega arith), tt)),
)

-- Where a marker is found, the answer begins at an index within the response, the search for the
-- start of that marker succeeds too, and the marker starts before the answer: the fallback without
-- a start is never taken.
pub answer_start-separator_start :
    (raw : String) (i : ℕ)
    → answer_start final_answer_markers raw none ≡ some i
    → (j : ℕ) × (separator_start final_answer_markers raw i ≡ some j)
      × (j < i)
      × (i ≤ text_length raw)
answer_start-separator_start raw i e =
    elim (answer_start-Marked final_answer_markers raw none i e) [
      | inl none_some ↦ cc
      | inr m ↦ separator_start-Cuts final_answer_markers raw i final_answer_markers-Consumes m
    ]
