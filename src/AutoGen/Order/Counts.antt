-- ===== src/AutoGen/Order/Counts.antt =====
-- The edges of a plan's graph, counted: all that lead to a node, and those from nodes that are done.
use gemini_agent_lib.Prelude.{
  ℕ, ◌+◌, ◌≤◌, ◌<◌, String, ◌≡◌, refl, sym, subst, Bool, true, false, ◌||◌, Bool-cases, inl, inr,
  none, some, List, [], ◌∷◌, ◌++◌, or_else, arith, ◌==◌, eq_iff, if◌then◌else◌,
}
use gemini_agent_lib.Prelude.Dict.{Dict, get, put, has, IsObject, get-put}

-- `xs.includes(x)`
abbrev pub mem : List String → String → Bool
mem [] x = false
mem (y ∷ ys) x = y == x || mem ys x

abbrev pub count : String → List String → ℕ
count n [] = 0
count n (x ∷ xs) = (if x == n then 1 else 0) + count n xs

pub count-append : (n : String) (xs ys : List String) → count n (xs ++ ys) ≡ count n xs + count n ys
count-append n [] ys = omega arith
count-append n (x ∷ xs) ys = omega (arith, count-append n xs ys)

abbrev pub out_of : Dict (List String) → String → List String
out_of g u = or_else (get g u) []

-- the edges to a node
abbrev pub total : Dict (List String) → String → ℕ
total [] n = 0
total ((u, out) ∷ g) n = count n out + total g n

-- the edges to a node from those that are done
abbrev pub cut : Dict (List String) → List String → String → ℕ
cut [] done n = 0
cut ((u, out) ∷ g) done n = (if mem done u then count n out else 0) + cut g done n

pub total-put :
    (g : Dict (List String)) (k n : String) (out out' : List String)
    → get g k ≡ some out
    → total (put g k out') n + count n out ≡ total g n + count n out'
unfolding get put
total-put [] k n out out' h = ground (arith, h)
total-put ((j, o) ∷ g) k n out out' h = elim (Bool-cases (j == k)) [
  | inl q ↦ let same : o ≡ out = ground (arith, h, q) in rw (q, same) (omega arith)
  | inr q ↦ let rest = total-put g k n out out' (ground (arith, h, q)) in rw q (omega (arith, rest))
]

pub cut-none_done : (g : Dict (List String)) (n : String) → cut g [] n ≡ 0
cut-none_done [] n = refl
cut-none_done ((u, out) ∷ g) n = omega (arith, cut-none_done g n)

pub cut-le-total :
    (g : Dict (List String)) (done : List String) (n : String) → cut g done n ≤ total g n
cut-le-total [] done n = omega arith
cut-le-total ((u, out) ∷ g) done n = ground (arith, cut-le-total g done n)

-- A node that is not in the graph changes nothing when it is done.
cut-absent :
    (g : Dict (List String)) (id : String) (done : List String) (n : String)
    → has g id ≡ false
    → cut g (id ∷ done) n ≡ cut g done n
unfolding get
cut-absent [] id done n h = refl
cut-absent ((u, out) ∷ g) id done n h =
    ground (arith, eq_iff id u, eq_iff u id, cut-absent g id done n)

pub cut-done :
    (g : Dict (List String)) (id : String) (done : List String) (n : String)
    → IsObject g
    → mem done id ≡ false
    → cut g (id ∷ done) n ≡ cut g done n + count n (out_of g id)
unfolding get
cut-done [] id done n h fresh = omega arith
cut-done ((u, out) ∷ g) id done n (absent, h) fresh = elim (Bool-cases (u == id)) [
  | inl q ↦
      let same = (eq_iff u id).0 q in
      let gone = subst (λ x. has g x ≡ false) same absent in
      let fresh_u = subst (λ x. mem done x ≡ false) (sym same) fresh in
      ground (arith, q, eq_iff id u, cut-absent g id done n gone)
  | inr q ↦ ground (arith, q, eq_iff id u, eq_iff u id, cut-done g id done n h fresh)
]

heavy_done : (b : Bool) (c x y : ℕ) → x ≤ y → (if b then c else 0) + x ≡ c + y → 0 < c → b ≡ true
heavy_done b c x y le e pos = ground arith

light_rest : (b : Bool) (c x y : ℕ) → x ≤ y → (if b then c else 0) + x ≡ c + y → x ≡ y
light_rest b c x y le e = ground arith

-- Where every edge to a node is from nodes that are done, each node with such an edge is done.
pub cut-eq-total :
    (g : Dict (List String)) (done : List String) (n u : String) (out : List String)
    → cut g done n ≡ total g n
    → get g u ≡ some out
    → 0 < count n out
    → mem done u ≡ true
unfolding get
cut-eq-total [] done n u out e h pos = ground (arith, h)
cut-eq-total ((j, o) ∷ g) done n u out e h pos = elim (Bool-cases (j == u)) [
  | inl q ↦
      let same : o ≡ out = ground (arith, h, q) in
      let done_j =
        heavy_done (mem done j) (count n o) (cut g done n) (total g n) (cut-le-total g done n) e
          (subst (λ x. 0 < count n x) (sym same) pos) in
      subst (λ x. mem done x ≡ true) ((eq_iff j u).0 q) done_j
  | inr q ↦
      cut-eq-total g done n u out
        (light_rest (mem done j) (count n o) (cut g done n) (total g n) (cut-le-total g done n) e)
        (ground (arith, h, q)) pos
]

pub total-put_new :
    (g : Dict (List String)) (k n : String) (out : List String)
    → get g k ≡ none
    → total (put g k out) n ≡ total g n + count n out
unfolding get put
total-put_new [] k n out h = omega arith
total-put_new ((j, o) ∷ g) k n out h = elim (Bool-cases (j == k)) [
  | inl q ↦ ground (arith, h, q)
  | inr q ↦ let rest = total-put_new g k n out (ground (arith, h, q)) in rw q (omega (arith, rest))
]

pub has-put :
    {V : Type 0} (d : Dict V) (k j : String) (v : V)
    → has (put d k v) j ≡ (if k == j then true else has d j)
has-put d k j v = ground (arith, get-put d k j v)

pub put-IsObject :
    {V : Type 0} (d : Dict V) (k : String) (v : V) → IsObject d → IsObject (put d k v)
unfolding put
put-IsObject [] k v h = (unfold get in refl, tt)
put-IsObject ((j, w) ∷ d) k v (a, h) = elim (Bool-cases (j == k)) [
  | inl q ↦ rw q (a, h)
  | inr q ↦
      rw q (ground (arith, q, eq_iff j k, eq_iff k j, has-put d k j v, a), put-IsObject d k v h)
]
