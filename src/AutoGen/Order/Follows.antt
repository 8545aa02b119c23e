-- ===== src/AutoGen/Order/Follows.antt =====
-- The order of a plan's sub-tasks: each comes after those that it depends on.
use gemini_agent_lib.Prelude.{
  suc, ◌+◌, String, ◌≡◌, refl, sym, ap, ◌∙◌, subst, true, false, Bool-cases, inl, inr, Option, none,
  some, List, [], ◌∷◌, map, length, All, or_else, arith, nat_eq, ◌==◌, eq_iff,
}
use gemini_agent_lib.Prelude.Dict.{Dict, get, put, put-eq-some}
use gemini_agent_lib.AutoGen.{
  SubTask, id_of, Degree, has_none, first_queue, task_map, plan_of, order_ids, ordered,
  order_sub_tasks_by_dependencies,
}
use gemini_agent_lib.AutoGen.Order.{In, order_of_ids, ids_found, looked_up, Present, none_in}
use gemini_agent_lib.AutoGen.Order.Counts.{mem, cut-none_done}
use gemini_agent_lib.AutoGen.Order.Building.{plan_of-IsCounted, plan_of-HasEdge}
use gemini_agent_lib.AutoGen.Order.Topology.{AllNew, Sorted, Tracks, visit-Sorted}

-- The identifiers of the sub-tasks differ.
abbrev pub AllDistinct : List SubTask → Type 0
AllDistinct ts = AllNew [] (map id_of ts)

-- Each of these sub-tasks comes after the dependencies of it that the plan has.
abbrev pub Follows : List SubTask → List String → List SubTask → Type 0
Follows ts done [] = Unit
Follows ts done (t ∷ r) =
    ((d : String)
      → mem (or_else t.depends_on []) d ≡ true
      → mem (map id_of ts) d ≡ true
      → mem done d ≡ true)
    × Follows ts (id_of t ∷ done) r

-- The first queue holds new nodes, each once, which have no edges.
first_queue-AllNew :
    (ds : Dict Degree) (ts : List SubTask) (seen done : List String)
    → AllNew seen (map id_of ts)
    → ((x : String) → mem seen x ≡ false → mem done x ≡ false)
    → AllNew done (first_queue ds ts)
unfolding first_queue
first_queue-AllNew ds [] seen done h sub = tt
first_queue-AllNew ds (t ∷ ts) seen done (p, h) sub =
    elim (Bool-cases (has_none (get ds (id_of t)))) [
      | inl e ↦ rw e (
        sub (id_of t) p,
        first_queue-AllNew ds ts (id_of t ∷ seen) (id_of t ∷ done) h
            (λ x k. ground (arith, k, sub x)),
      )
      | inr e ↦
          rw e (first_queue-AllNew ds ts (id_of t ∷ seen) done h (λ x k. sub x (ground (arith, k))))
    ]

has_none-Free :
    (o : Option Degree) → has_none o ≡ true → (d : Degree) × (o ≡ some d) × (d.added ≡ d.removed)
has_none-Free none e = cc
has_none-Free (some d) e = (d, refl, ground (arith, e))

first_queue-Free :
    (ds : Dict Degree) (ts : List SubTask) (n : String)
    → mem (first_queue ds ts) n ≡ true
    → (d : Degree) × (get ds n ≡ some d) × (d.added ≡ d.removed)
unfolding first_queue
first_queue-Free ds [] n e = cc
first_queue-Free ds (t ∷ ts) n e = elim (Bool-cases (has_none (get ds (id_of t)))) [
  | inl z ↦ elim (Bool-cases (id_of t == n)) [
    | inl q ↦
        subst (λ x. (d : Degree) × (get ds x ≡ some d) × (d.added ≡ d.removed))
          ((eq_iff (id_of t) n).0 q) (has_none-Free (get ds (id_of t)) z)
    | inr q ↦ first_queue-Free ds ts n (ground (arith, e, z, q))
  ]
  | inr z ↦ first_queue-Free ds ts n (ground (arith, e, z))
]

pub first-Tracks :
    (ts : List SubTask)
    → AllDistinct ts
    → Tracks (plan_of ts).graph [] [] (record {
      queue = first_queue (plan_of ts).in_degree ts;
      in_degree = (plan_of ts).in_degree;
    })
first-Tracks ts distinct =
    let p = plan_of ts in
    let c = plan_of-IsCounted ts in
    record {
      removed = λ n d e. omega (
        arith,
        c.removed n,
        ap (λ (o : Option Degree). (or_else o (record { added = 0; removed = 0 })).removed) e,
        cut-none_done p.graph n,
      );
      added = λ n d e.
          sym (ap (λ (o : Option Degree). (or_else o (record { added = 0; removed = 0 })).added) e)
          ∙ c.added n;
      free = λ n i. first_queue-Free p.in_degree ts n i;
      fresh = first_queue-AllNew p.in_degree ts [] [] distinct (λ x k. k);
    }

order_ids-Sorted :
    (ts : List SubTask) (ids : List String)
    → AllDistinct ts
    → order_ids ts ≡ some ids
    → Sorted (plan_of ts).graph [] ids
unfolding order_ids
order_ids-Sorted ts ids distinct e =
    let p = plan_of ts in
    let queue = first_queue p.in_degree ts in
    visit-Sorted p.graph (suc (length queue + length p.in_degree)) [] queue p.in_degree ids
      (plan_of-IsCounted ts).once (first-Tracks ts distinct) e

-- The map gives a sub-task under its identifier.
pub task_map-id :
    (ts : List SubTask) (d : Dict SubTask) (id : String) (t : SubTask)
    → ((j : String) (u : SubTask) → get d j ≡ some u → id_of u ≡ j)
    → get (task_map ts d) id ≡ some t
    → id_of t ≡ id
unfolding task_map
task_map-id [] d id t h e = h id t e
task_map-id (u ∷ us) d id t h e =
    task_map-id us (put d (id_of u) u) id t
      (λ j v q. elim (put-eq-some d (id_of u) j u v q) [
        | inl (same, w) ↦ sym (ap id_of w) ∙ same
        | inr (other, f) ↦ h j v f
      ])
      e

ids_of_found :
    (ts : List SubTask) (ids : List String) (r : List SubTask)
    → map (λ id. get (task_map ts []) id) ids ≡ map some r
    → map id_of r ≡ ids
ids_of_found ts [] [] e = refl
ids_of_found ts [] (t ∷ r) e = cc
ids_of_found ts (id ∷ ids) [] e = cc
ids_of_found ts (id ∷ ids) (t ∷ r) e =
    let head : get (task_map ts []) id ≡ some t = ground (arith, e) in
    let tail : map (λ id. get (task_map ts []) id) ids ≡ map some r = ground (arith, e) in
    let same = task_map-id ts [] id t (λ j u q. none_in j q) head in
    ground (arith, same, ids_of_found ts ids r tail)

Sorted-Follows :
    (ts : List SubTask) (done : List String) (r : List SubTask)
    → All (λ t. In t ts) r
    → Sorted (plan_of ts).graph done (map id_of r)
    → Follows ts done r
Sorted-Follows ts done [] k s = tt
Sorted-Follows ts done (t ∷ r) (i, k) (before, s) = (
  λ d m n. let (out, e, pos) = plan_of-HasEdge ts t d i m n in before d out e pos,
  Sorted-Follows ts (id_of t ∷ done) r k s,
)

ordered_found :
    (ts : List SubTask) (ids : List String)
    → length ids ≡ length ts
    → ordered ts ids ≡ map (λ id. get (task_map ts []) id) ids
unfolding ordered
ordered_found ts ids e =
    let same : nat_eq (length ids) (length ts) ≡ true = ground (arith, e) in rw same

-- Where the identifiers of the sub-tasks differ and the loop reaches as many as the plan has (it
-- finds no cycle), the order is made of as many sub-tasks of the plan, and each comes after all
-- those of its dependencies that the plan has.
pub reached-Follows :
    (ts : List SubTask) (ids : List String)
    → AllDistinct ts
    → order_ids ts ≡ some ids
    → length ids ≡ length ts
    → (r : List SubTask) × (order_sub_tasks_by_dependencies ts ≡ some (map some r))
      × (length r ≡ length ts)
      × All (λ t. In t ts) r
      × Follows ts [] r
reached-Follows ts ids distinct e n =
    let (ids', e', present) = ids_found ts in
    let same : ids' ≡ ids = ground (arith, e, e') in
    let (r, q, m, k) = looked_up ts ids (subst (All (Present (task_map ts []))) same present) in
    let sorted = order_ids-Sorted ts ids distinct e in
    (
      r,
      order_of_ids ts ids e ∙ ap some (ordered_found ts ids n ∙ q),
      m ∙ n,
      k,
      Sorted-Follows ts [] r k
          (subst (Sorted (plan_of ts).graph []) (sym (ids_of_found ts ids r q)) sorted),
    )
