-- ===== src/Prelude/Pattern/Hits.antt =====
-- Where the matches of a pattern stand in a text.
use Prim.Native.Nat.{ℕ, zero, suc, ◌+◌, ◌-◌, ◌≤◌, ◌<◌}
use Prim.Native.Char.{Char}
use Prim.Native.String.{String, [], ◌∷◌}
use mathlib.Core.Path.{◌≡◌}
use mathlib.Core.Bool.{Bool, true, false}
use mathlib.Core.Option.{Option, none, some}
use mathlib.Core.List
use mathlib.Core.List.{◌++◌, flat_map}
use native.Mathlib.Omega.{arith}
use gemini_agent_lib.Prelude.Tests.{if◌then◌else◌}
use gemini_agent_lib.Prelude.Lists.{All}
use gemini_agent_lib.Prelude.Pattern.{
  Pattern, start, finish, boundary, literal, word, one, many, lazily, both, either, CharClass, Spot,
  Hit, ends, first, text_length, hits, hit_step, hit_at, picked, scan_from, longest, shortest,
  text_end, ends_one, at_start, at_finish, at_boundary, same_char,
}

abbrev Within : ℕ → Spot → Type 0
Within n e = text_length e.1 ≤ n

module _ {A : Type 0} (P : A → Type 0) where
  All-append : (xs ys : List.List A) → All P xs → All P ys → All P (xs ++ ys)
  All-append List.[] ys h k = k
  All-append (List.◌∷◌ x xs) ys (p, h) k = (p, All-append xs ys h k)

  All-if : (b : Bool) (xs ys : List.List A) → All P xs → All P ys → All P (if b then xs else ys)
  All-if true xs ys h k = h
  All-if false xs ys h k = k

  All-flat_map :
      {B : Type 0} (Q : B → Type 0) (f : B → List.List A) (xs : List.List B)
      → All Q xs
      → ((x : B) → Q x → All P (f x))
      → All P (flat_map f xs)
  unfolding flat_map
  All-flat_map Q f List.[] h k = tt
  All-flat_map Q f (List.◌∷◌ x xs) (q, h) k =
      All-append (f x) (flat_map f xs) (k x q) (All-flat_map Q f xs h k)

  All-weaken : (Q : A → Type 0) (xs : List.List A) → ((x : A) → P x → Q x) → All P xs → All Q xs
  All-weaken Q List.[] f h = tt
  All-weaken Q (List.◌∷◌ x xs) f (p, h) = (f x p, All-weaken Q xs f h)

All-grow : (m n : ℕ) (xs : List.List Spot) → m ≤ n → All (Within m) xs → All (Within n) xs
All-grow m n xs h = All-weaken (Within m) (Within n) xs (λ x k. omega arith)

-- A text takes as many characters as it has.
text_end-Within :
    (fold : Bool) (w : String) (b : Option Char) (s : String)
    → All (λ e. text_length e.1 + text_length w ≡ text_length s) (text_end fold w b s)
unfolding text_end
text_end-Within fold [] b s = (omega arith, tt)
text_end-Within fold (c ∷ w) b [] = tt
text_end-Within fold (c ∷ w) b (d ∷ s) =
    All-if _ (same_char fold c d) _ List.[]
      (All-weaken _ _ _ (λ e h. omega arith) (text_end-Within fold w (some d) s)) tt

longest-Within :
    (t : CharClass) (b : Option Char) (s : String) → All (Within (text_length s)) (longest t b s)
unfolding longest
longest-Within t b [] = (omega arith, tt)
longest-Within t b (c ∷ s) =
    All-if _ (t c) _ _
      (All-append _ (longest t (some c) s) _
        (All-grow _ _ _ (omega arith) (longest-Within t (some c) s)) (omega arith, tt))
      (omega arith, tt)

shortest-Within :
    (t : CharClass) (b : Option Char) (s : String) → All (Within (text_length s)) (shortest t b s)
unfolding shortest
shortest-Within t b [] = (omega arith, tt)
shortest-Within t b (c ∷ s) = (
  omega arith,
  All-if _ (t c) _ List.[] (All-grow _ _ _ (omega arith) (shortest-Within t (some c) s)) tt,
)

ends_one-Within : (t : CharClass) (s : String) → All (Within (text_length s)) (ends_one t s)
unfolding ends_one
ends_one-Within t [] = tt
ends_one-Within t (c ∷ s) = All-if _ (t c) _ List.[] (omega arith, tt) tt

at_start-Within : (b : Option Char) (s : String) → All (Within (text_length s)) (at_start b s)
unfolding at_start
at_start-Within none s = (omega arith, tt)
at_start-Within (some c) s = tt

at_finish-Within : (b : Option Char) (s : String) → All (Within (text_length s)) (at_finish b s)
unfolding at_finish
at_finish-Within b [] = (omega arith, tt)
at_finish-Within b (c ∷ s) = tt

ends-Within : (p : Pattern) (x : Spot) → All (Within (text_length x.1)) (ends p x)
unfolding ends
ends-Within start x = at_start-Within x.0 x.1
ends-Within finish x = at_finish-Within x.0 x.1
ends-Within boundary x = All-if _ (at_boundary x) _ List.[] (omega arith, tt) tt
ends-Within (literal w) x = All-weaken _ _ _ (λ e h. omega arith) (text_end-Within false w x.0 x.1)
ends-Within (word w) x = All-weaken _ _ _ (λ e h. omega arith) (text_end-Within true w x.0 x.1)
ends-Within (one t) x = ends_one-Within t x.1
ends-Within (many t) x = longest-Within t x.0 x.1
ends-Within (lazily t) x = shortest-Within t x.0 x.1
ends-Within (both p q) x =
    All-flat_map _ (Within (text_length x.1)) (ends q) (ends p x) (ends-Within p x)
      (λ y h. All-grow _ _ _ h (ends-Within q y))
ends-Within (either p q) x = All-append _ (ends p x) _ (ends-Within p x) (ends-Within q x)

-- Every match of the pattern takes a character at least.
abbrev pub Consumes : Pattern → Type 0
Consumes p = (x : Spot) → All (λ e. text_length e.1 < text_length x.1) (ends p x)

pub literal-Consumes :
    (w : String) (q : Pattern) → 0 < text_length w → Consumes (both (literal w) q)
unfolding ends
literal-Consumes w q pos x =
    All-flat_map _ (λ (y : Spot). text_length y.1 + text_length w ≡ text_length x.1) (ends q)
      (text_end false w x.0 x.1) (text_end-Within false w x.0 x.1)
      (λ y h. All-weaken _ _ _ (λ e k. omega arith) (ends-Within q y))

-- a match in a text of so many characters from an index on
abbrev pub Lies : ℕ → ℕ → Hit → Type 0
Lies i n h = (i ≤ h.first_index) × (h.first_index < h.end_index) × (h.end_index ≤ i + n)

abbrev Holds : (Spot → Type 0) → Option Spot → Type 0
Holds P none = Unit
Holds P (some e) = P e

first-All : (P : Spot → Type 0) (xs : List.List Spot) → All P xs → Holds P (first xs)
first-All P List.[] h = tt
first-All P (List.◌∷◌ x xs) (h, hs) = h

Lies-later : (i n : ℕ) (hs : List.List Hit) → All (Lies (suc i) n) hs → All (Lies i (suc n)) hs
Lies-later i n hs = All-weaken _ (Lies i (suc n)) hs (λ h k. omega arith)

picked-Lies :
    (i : ℕ) (s : String) (o : Option Spot) (rest : ℕ → List.List Hit)
    → Holds (λ e. text_length e.1 < text_length s) o
    → ((skip : ℕ) → All (Lies i (text_length s)) (rest skip))
    → All (Lies i (text_length s)) (picked (hit_at i s o) rest)
picked-Lies i s none rest h k = k 0
picked-Lies i s (some e) rest h k = (omega arith, k (text_length s - text_length e.1 - 1))

scan-Lies :
    (p : Pattern) (i : ℕ) (b : Option Char) (skip : ℕ) (s : String)
    → Consumes p
    → All (Lies i (text_length s)) (scan_from (hit_step p) i b skip s)
unfolding scan_from
scan-Lies p i b skip [] h = tt
scan-Lies p i b (suc skip) (c ∷ s) h = Lies-later i _ _ (scan-Lies p (suc i) (some c) skip s h)
scan-Lies p i b zero (c ∷ s) h =
    picked-Lies i (c ∷ s) (first (ends p (b, c ∷ s)))
      (λ skip. scan_from (hit_step p) (suc i) (some c) skip s)
      (first-All _ (ends p (b, c ∷ s)) (h (b, c ∷ s)))
      (λ skip. Lies-later i _ _ (scan-Lies p (suc i) (some c) skip s h))

-- The matches that a global search finds lie in the text and are not empty.
pub hits-Lies : (p : Pattern) (s : String) → Consumes p → All (Lies 0 (text_length s)) (hits p s)
unfolding hits
hits-Lies p s h = scan-Lies p 0 none 0 s h
