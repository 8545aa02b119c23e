-- ===== src/AutoGen/Order/Building.antt =====
-- The graph of a plan: its counters are the numbers of its edges, and it has an edge for each
-- dependency that the plan has.
use gemini_agent_lib.Prelude.{
  ◌<◌, String, ◌≡◌, refl, sym, ap, ◌∙◌, subst, true, ◌||◌, Bool-cases, Option-cases, inl, inr,
  Option, none, some, List, [], ◌∷◌, ◌++◌, map, or_else, is_some, arith, ◌==◌, eq_iff,
  if◌then◌else◌,
}
use gemini_agent_lib.Prelude.Dict.{
  Dict, get, put, has, IsObject, get-put, get-put_self, get-put_other,
}
use gemini_agent_lib.AutoGen.{
  SubTask, id_of, Degree, Plan, no_degree, raised, add_nodes, add_edge, add_edges, add_dependencies,
  plan_of,
}
use gemini_agent_lib.AutoGen.Order.{In}
use gemini_agent_lib.AutoGen.Order.Counts.{
  mem, count, count-append, total, total-put, total-put_new, has-put, put-IsObject,
}

abbrev pub degree : Dict Degree → String → Degree
degree ds n = or_else (get ds n) no_degree

-- The counters are those of the edges, and none is removed.
pub record IsCounted (p : Plan) : Type 0 where
  pub once : IsObject p.graph
  pub added : (n : String) → (degree p.in_degree n).added ≡ total p.graph n
  pub removed : (n : String) → (degree p.in_degree n).removed ≡ 0

degree-put :
    (ds : Dict Degree) (k n : String) (d : Degree)
    → degree (put ds k d) n ≡ (if k == n then d else degree ds n)
degree-put ds k n d = ground (arith, get-put ds k n d)

-- a graph without edges
record IsBare (p : Plan) : Type 0 where
  once : IsObject p.graph
  no_edge : (n : String) → total p.graph n ≡ 0
  no_count : (n : String) → degree p.in_degree n ≡ no_degree

total-put_nil : (g : Dict (List String)) (k n : String) → total g n ≡ 0 → total (put g k []) n ≡ 0
total-put_nil g k n h = elim (Option-cases (get g k)) [
  | inl e ↦ omega (arith, h, total-put_new g k n [] e)
  | inr (out, e) ↦ omega (arith, h, total-put g k n out [] e)
]

add_nodes-IsBare : (ts : List SubTask) (p : Plan) → IsBare p → IsBare (add_nodes ts p)
unfolding add_nodes
add_nodes-IsBare [] p h = h
add_nodes-IsBare (t ∷ ts) p h = add_nodes-IsBare ts _ (record {
  once = put-IsObject p.graph (id_of t) [] h.once;
  no_edge = λ n. total-put_nil p.graph (id_of t) n (h.no_edge n);
  no_count = λ n. ground (arith, degree-put p.in_degree (id_of t) n no_degree, h.no_count n);
})

IsBare-IsCounted : (p : Plan) → IsBare p → IsCounted p
IsBare-IsCounted p h = record {
  once = h.once;
  added = λ n. ap (λ (d : Degree). d.added) (h.no_count n) ∙ sym (h.no_edge n);
  removed = λ n. ap (λ (d : Degree). d.removed) (h.no_count n);
}

added_up :
    (id d : String) (out : List String) (p : Plan) (n : String)
    → get p.graph d ≡ some out
    → (degree p.in_degree n).added ≡ total p.graph n
    → (degree (put p.in_degree id (raised (degree p.in_degree id))) n).added
      ≡ total (put p.graph d (out ++ (id ∷ []))) n
added_up id d out p n e h =
    let more = total-put p.graph d n out (out ++ (id ∷ [])) e in
    let parts = count-append n out (id ∷ []) in
    let put_degree = degree-put p.in_degree id n (raised (degree p.in_degree id)) in
    elim (Bool-cases (id == n)) [
      | inl q ↦
          let same = ap (λ x. (degree p.in_degree x).added) ((eq_iff id n).0 q) in
          ground (arith, q, more, parts, put_degree, same)
      | inr q ↦ ground (arith, q, more, parts, put_degree)
    ]

add_edge-IsCounted :
    (id d : String) (o : Option (List String)) (p : Plan)
    → get p.graph d ≡ o
    → IsCounted p
    → IsCounted (add_edge id d o p)
add_edge-IsCounted id d none p e h = h
add_edge-IsCounted id d (some out) p e h = record {
  once = put-IsObject p.graph d (out ++ (id ∷ [])) h.once;
  added = λ n. added_up id d out p n e (h.added n);
  removed = λ n. ground (
    arith,
    degree-put p.in_degree id n (raised (degree p.in_degree id)),
    h.removed n,
    h.removed id,
  );
}

add_edges-IsCounted :
    (id : String) (ds : List String) (p : Plan) → IsCounted p → IsCounted (add_edges id ds p)
unfolding add_edges
add_edges-IsCounted id [] p h = h
add_edges-IsCounted id (d ∷ ds) p h =
    add_edges-IsCounted id ds _ (add_edge-IsCounted id d (get p.graph d) p refl h)

add_dependencies-IsCounted :
    (ts : List SubTask) (p : Plan) → IsCounted p → IsCounted (add_dependencies ts p)
unfolding add_dependencies
add_dependencies-IsCounted [] p h = h
add_dependencies-IsCounted (t ∷ ts) p h =
    add_dependencies-IsCounted ts _ (add_edges-IsCounted (id_of t) (or_else t.depends_on []) p h)

abbrev no_plan : Plan
no_plan = record { graph = []; in_degree = [] }

no_plan-IsBare : IsBare no_plan
unfolding get
no_plan-IsBare = record { once = tt; no_edge = λ n. refl; no_count = λ n. refl }

pub plan_of-IsCounted : (ts : List SubTask) → IsCounted (plan_of ts)
unfolding plan_of
plan_of-IsCounted ts =
    add_dependencies-IsCounted ts _
      (IsBare-IsCounted _ (add_nodes-IsBare ts no_plan no_plan-IsBare))

-- an edge from a dependency to a node
abbrev pub HasEdge : Dict (List String) → String → String → Type 0
HasEdge g id d = (out : List String) × (get g d ≡ some out) × (0 < count id out)

-- Nodes and edges stay.
record Grows (g g' : Dict (List String)) : Type 0 where
  nodes : (d : String) → has g d ≡ true → has g' d ≡ true
  edges : (id d : String) → HasEdge g id d → HasEdge g' id d

Grows-refl : (g : Dict (List String)) → Grows g g
Grows-refl g = record { nodes = λ d h. h; edges = λ id d h. h }

Grows-trans : (f g h : Dict (List String)) → Grows f g → Grows g h → Grows f h
Grows-trans f g h a b = record {
  nodes = λ d n. b.nodes d (a.nodes d n);
  edges = λ id d e. b.edges id d (a.edges id d e);
}

grown_edge :
    (id d : String) (out : List String) (g : Dict (List String)) (id' d' : String)
    → get g d ≡ some out
    → HasEdge g id' d'
    → HasEdge (put g d (out ++ (id ∷ []))) id' d'
grown_edge id d out g id' d' e (o, f, pos) = elim (Bool-cases (d == d')) [
  | inl q ↦
      let same = (eq_iff d d').0 q in
      let outs : out ≡ o = ground (arith, sym e ∙ ap (get g) same ∙ f) in
      (
        out ++ (id ∷ []),
        ground (arith, get-put g d d' (out ++ (id ∷ [])), q),
        omega (arith, count-append id' out (id ∷ []), pos, ap (count id') outs),
      )
  | inr q ↦ (o, get-put_other g d d' _ q ∙ f, pos)
]

add_edge-Grows :
    (id d : String) (o : Option (List String)) (p : Plan)
    → get p.graph d ≡ o
    → Grows p.graph (add_edge id d o p).graph
add_edge-Grows id d none p e = Grows-refl p.graph
add_edge-Grows id d (some out) p e = record {
  nodes = λ d' h. ground (arith, has-put p.graph d d' (out ++ (id ∷ [])), h);
  edges = λ id' d' h. grown_edge id d out p.graph id' d' e h;
}

add_edges-Grows :
    (id : String) (ds : List String) (p : Plan) → Grows p.graph (add_edges id ds p).graph
unfolding add_edges
add_edges-Grows id [] p = Grows-refl p.graph
add_edges-Grows id (d ∷ ds) p =
    Grows-trans _ _ _ (add_edge-Grows id d (get p.graph d) p refl) (add_edges-Grows id ds _)

add_dependencies-Grows :
    (ts : List SubTask) (p : Plan) → Grows p.graph (add_dependencies ts p).graph
unfolding add_dependencies
add_dependencies-Grows [] p = Grows-refl p.graph
add_dependencies-Grows (t ∷ ts) p =
    Grows-trans _ _ _ (add_edges-Grows (id_of t) (or_else t.depends_on []) p)
      (add_dependencies-Grows ts _)

add_edge-HasEdge :
    (id d : String) (o : Option (List String)) (p : Plan)
    → get p.graph d ≡ o
    → is_some o ≡ true
    → HasEdge (add_edge id d o p).graph id d
add_edge-HasEdge id d none p e h = cc
add_edge-HasEdge id d (some out) p e h = (
  out ++ (id ∷ []),
  get-put_self p.graph d (out ++ (id ∷ [])),
  ground (arith, count-append id out (id ∷ []), eq_iff id id),
)

add_edges-HasEdge :
    (id : String) (ds : List String) (p : Plan) (d : String)
    → mem ds d ≡ true
    → has p.graph d ≡ true
    → HasEdge (add_edges id ds p).graph id d
unfolding add_edges
add_edges-HasEdge id [] p d m h = cc
add_edges-HasEdge id (x ∷ xs) p d m h = elim (Bool-cases (x == d)) [
  | inl q ↦
      let same = (eq_iff x d).0 q in
      (add_edges-Grows id xs (add_edge id x (get p.graph x) p)).edges id d (
        subst (HasEdge (add_edge id x (get p.graph x) p).graph id) same (
          add_edge-HasEdge id x (get p.graph x) p refl
            (subst (λ y. has p.graph y ≡ true) (sym same) h)))
  | inr q ↦
      add_edges-HasEdge id xs (add_edge id x (get p.graph x) p) d (ground (arith, m, q))
        ((add_edge-Grows id x (get p.graph x) p refl).nodes d h)
]

add_dependencies-HasEdge :
    (ts : List SubTask) (p : Plan) (t : SubTask) (d : String)
    → In t ts
    → mem (or_else t.depends_on []) d ≡ true
    → has p.graph d ≡ true
    → HasEdge (add_dependencies ts p).graph (id_of t) d
unfolding add_dependencies
add_dependencies-HasEdge [] p t d i m h = absurd i
add_dependencies-HasEdge (u ∷ us) p t d (inl e) m h =
    (add_dependencies-Grows us _).edges (id_of t) d (
      subst (λ x. HasEdge (add_edges (id_of x) (or_else x.depends_on []) p).graph (id_of t) d) e
        (add_edges-HasEdge (id_of t) (or_else t.depends_on []) p d m h))
add_dependencies-HasEdge (u ∷ us) p t d (inr i) m h =
    add_dependencies-HasEdge us _ t d i m
      ((add_edges-Grows (id_of u) (or_else u.depends_on []) p).nodes d h)

add_nodes-has :
    (ts : List SubTask) (p : Plan) (d : String)
    → has p.graph d || mem (map id_of ts) d ≡ true
    → has (add_nodes ts p).graph d ≡ true
unfolding add_nodes
add_nodes-has [] p d h = ground (arith, h)
add_nodes-has (t ∷ ts) p d h =
    add_nodes-has ts _ d (ground (arith, has-put p.graph (id_of t) d [], h))

-- A dependency of a sub-task that the plan has is an edge.
pub plan_of-HasEdge :
    (ts : List SubTask) (t : SubTask) (d : String)
    → In t ts
    → mem (or_else t.depends_on []) d ≡ true
    → mem (map id_of ts) d ≡ true
    → HasEdge (plan_of ts).graph (id_of t) d
unfolding plan_of
plan_of-HasEdge ts t d i m k =
    add_dependencies-HasEdge ts _ t d i m
      (add_nodes-has ts (record { graph = []; in_degree = [] }) d (ground (arith, k)))
