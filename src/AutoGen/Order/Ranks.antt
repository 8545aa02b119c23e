-- ===== src/AutoGen/Order/Ranks.antt =====
-- A plan's edges under a rank of its identifiers, and that each identifier has a counter.
use gemini_agent_lib.Prelude.{
  ℕ, ◌<◌, String, ◌≡◌, refl, subst, Bool, true, ◌||◌, Bool-cases, inl, inr, Option, none, some,
  List, [], ◌∷◌, ◌++◌, map, All, or_else, is_some, arith, ◌==◌, eq_iff,
}
use gemini_agent_lib.Prelude.Dict.{Dict, get, put, has, put-eq-some}
use gemini_agent_lib.AutoGen.{
  SubTask, id_of, Degree, Plan, no_degree, raised, add_nodes, add_edge, add_edges, add_dependencies,
  plan_of,
}
use gemini_agent_lib.AutoGen.Order.{In, none_in, All-append}
use gemini_agent_lib.AutoGen.Order.Counts.{mem, count, has-put}
use gemini_agent_lib.AutoGen.Order.Complete.{Ranked}

-- A rank under which each sub-task is above those that it depends on: there is no cycle.
abbrev pub IsRanked : List SubTask → (String → ℕ) → Type 0
IsRanked ts rank =
    (t : SubTask) (d : String)
    → In t ts
    → mem (or_else t.depends_on []) d ≡ true
    → mem (map id_of ts) d ≡ true
    → rank d < rank (id_of t)

-- a node that has a counter
abbrev Counted : Plan → String → Type 0
Counted p n = has p.in_degree n ≡ true

module _ (node : String → Bool) (rank : String → ℕ) where
  -- edges from nodes to higher ones
  abbrev Upward : Dict (List String) → Type 0
  Upward g =
      (u : String) (out : List String)
      → get g u ≡ some out
      → (node u ≡ true) × All (λ n. rank u < rank n) out

  put-Upward :
      (g : Dict (List String)) (k : String) (out : List String)
      → Upward g
      → node k ≡ true
      → All (λ n. rank k < rank n) out
      → Upward (put g k out)
  put-Upward g k out h is all u o e = elim (put-eq-some g k u out o e) [
    | inl (same, q) ↦
        subst (λ x. (node x ≡ true) × All (λ n. rank x < rank n) o) same
          (is, subst (All (λ n. rank k < rank n)) q all)
    | inr (other, f) ↦ h u o f
  ]

  add_nodes-Upward :
      (ts : List SubTask) (p : Plan)
      → All (λ t. node (id_of t) ≡ true) ts
      → Upward p.graph
      → Upward (add_nodes ts p).graph
  unfolding add_nodes
  add_nodes-Upward [] p a h = h
  add_nodes-Upward (t ∷ ts) p (is, a) h =
      add_nodes-Upward ts _ a (put-Upward p.graph (id_of t) [] h is tt)

  add_edge-Upward :
      (id d : String) (o : Option (List String)) (p : Plan)
      → (node d ≡ true → rank d < rank id)
      → get p.graph d ≡ o
      → Upward p.graph
      → Upward (add_edge id d o p).graph
  add_edge-Upward id d none p below e h = h
  add_edge-Upward id d (some out) p below e h =
      let (is, all) = h d out e in
      put-Upward p.graph d (out ++ (id ∷ [])) h is
        (All-append (λ n. rank d < rank n) out id all (below is))

  add_edges-Upward :
      (id : String) (ds : List String) (p : Plan)
      → ((d : String) → mem ds d ≡ true → node d ≡ true → rank d < rank id)
      → Upward p.graph
      → Upward (add_edges id ds p).graph
  unfolding add_edges
  add_edges-Upward id [] p below h = h
  add_edges-Upward id (d ∷ ds) p below h =
      add_edges-Upward id ds _ (λ x m. below x (ground (arith, m)))
        (add_edge-Upward id d (get p.graph d) p (below d (ground (arith, eq_iff d d))) refl h)

  add_dependencies-Upward :
      (ts : List SubTask) (p : Plan)
      → ((t : SubTask) (d : String)
          → In t ts
          → mem (or_else t.depends_on []) d ≡ true
          → node d ≡ true
          → rank d < rank (id_of t))
      → Upward p.graph
      → Upward (add_dependencies ts p).graph
  unfolding add_dependencies
  add_dependencies-Upward [] p below h = h
  add_dependencies-Upward (t ∷ ts) p below h =
      add_dependencies-Upward ts _ (λ u d i. below u d (inr i))
        (add_edges-Upward (id_of t) (or_else t.depends_on []) p (λ d. below t d (inl refl)) h)

-- Counters stay.
add_edge-Counted :
    (id d : String) (o : Option (List String)) (p : Plan) (n : String)
    → Counted p n
    → Counted (add_edge id d o p) n
add_edge-Counted id d none p n h = h
add_edge-Counted id d (some out) p n h =
    ground (arith, has-put p.in_degree id n (raised (or_else (get p.in_degree id) no_degree)), h)

add_edges-Counted :
    (id : String) (ds : List String) (p : Plan) (n : String)
    → Counted p n
    → Counted (add_edges id ds p) n
unfolding add_edges
add_edges-Counted id [] p n h = h
add_edges-Counted id (d ∷ ds) p n h =
    add_edges-Counted id ds _ n (add_edge-Counted id d (get p.graph d) p n h)

add_dependencies-Counted :
    (ts : List SubTask) (p : Plan) (n : String) → Counted p n → Counted (add_dependencies ts p) n
unfolding add_dependencies
add_dependencies-Counted [] p n h = h
add_dependencies-Counted (t ∷ ts) p n h =
    add_dependencies-Counted ts _ n (add_edges-Counted (id_of t) (or_else t.depends_on []) p n h)

add_nodes-Counted :
    (ts : List SubTask) (p : Plan) (n : String)
    → (has p.in_degree n || mem (map id_of ts) n) ≡ true
    → Counted (add_nodes ts p) n
unfolding add_nodes
add_nodes-Counted [] p n h = ground (arith, h)
add_nodes-Counted (t ∷ ts) p n h =
    add_nodes-Counted ts _ n (ground (arith, has-put p.in_degree (id_of t) n no_degree, h))

has-some : {V : Type 0} (o : Option V) → is_some o ≡ true → (v : V) × (o ≡ some v)
has-some none h = cc
has-some (some v) h = (v, refl)

pub plan_of-present :
    (ts : List SubTask) (n : String)
    → mem (map id_of ts) n ≡ true
    → (d : Degree) × (get (plan_of ts).in_degree n ≡ some d)
unfolding plan_of
plan_of-present ts n m = has-some _ (
    add_dependencies-Counted ts _ n
      (add_nodes-Counted ts (record { graph = []; in_degree = [] }) n (ground (arith, m))))

count-All : (P : String → Type 0) (n : String) (xs : List String) → All P xs → 0 < count n xs → P n
count-All P n [] h pos = absurd (omega arith)
count-All P n (x ∷ xs) (p, h) pos = elim (Bool-cases (x == n)) [
  | inl q ↦ subst P ((eq_iff x n).0 q) p
  | inr q ↦ count-All P n xs h (ground (arith, pos, q))
]

own_nodes :
    (ts : List SubTask) (node : String → Bool)
    → ((n : String) → mem (map id_of ts) n ≡ true → node n ≡ true)
    → All (λ t. node (id_of t) ≡ true) ts
own_nodes [] node h = tt
own_nodes (t ∷ ts) node h = (
  h (id_of t) (ground (arith, eq_iff (id_of t) (id_of t))),
  own_nodes ts node (λ n m. h n (ground (arith, m))),
)

pub plan_of-Ranked :
    (ts : List SubTask) (rank : String → ℕ)
    → IsRanked ts rank
    → Ranked (plan_of ts).graph (mem (map id_of ts)) rank
unfolding plan_of
plan_of-Ranked ts rank h =
    let node = mem (map id_of ts) in
    let empty : Plan = record { graph = []; in_degree = [] } in
    let upward = add_dependencies-Upward node rank ts (add_nodes ts empty) h (
      add_nodes-Upward node rank ts empty (own_nodes ts node (λ n m. m))
        (λ u out e. none_in u e)) in
    record {
      from_node = λ u out e. (upward u out e).0;
      higher = λ u n out e pos. count-All (λ m. rank u < rank m) n out (upward u out e).1 pos;
    }
