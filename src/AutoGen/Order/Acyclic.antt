-- ===== src/AutoGen/Order/Acyclic.antt =====
-- The order of a plan without a cycle of dependencies.
use gemini_agent_lib.Prelude.{
  ℕ, suc, ◌+◌, String, ◌≡◌, refl, sym, ap, ◌∙◌, subst, true, Bool-cases, inl, inr, some, List, [],
  ◌∷◌, map, length, All, arith, ◌==◌, eq_iff,
}
use gemini_agent_lib.Prelude.Dict.{Dict, get}
use gemini_agent_lib.AutoGen.{
  SubTask, id_of, Degree, has_none, first_queue, task_map, plan_of, order_ids,
  order_sub_tasks_by_dependencies,
}
use gemini_agent_lib.AutoGen.Order.{In, ids_found, Present, task_map-In, none_in}
use gemini_agent_lib.AutoGen.Order.Counts.{mem}
use gemini_agent_lib.AutoGen.Order.Building.{plan_of-IsCounted}
use gemini_agent_lib.AutoGen.Order.Complete.{Waits, visit-Complete}
use gemini_agent_lib.AutoGen.Order.Distinct.{length_same}
use gemini_agent_lib.AutoGen.Order.Follows.{
  AllDistinct, Follows, first-Tracks, task_map-id, reached-Follows,
}
use gemini_agent_lib.AutoGen.Order.Topology.{AllNew}
use gemini_agent_lib.AutoGen.Order.Ranks.{IsRanked, plan_of-present, plan_of-Ranked}

zero_none : (d : Degree) → d.added ≡ d.removed → has_none (some d) ≡ true
zero_none d z = ground (arith, z)

first_queue-mem :
    (ds : Dict Degree) (ts : List SubTask) (n : String) (d : Degree)
    → mem (map id_of ts) n ≡ true
    → get ds n ≡ some d
    → d.added ≡ d.removed
    → mem (first_queue ds ts) n ≡ true
unfolding first_queue
first_queue-mem ds [] n d m e z = cc
first_queue-mem ds (t ∷ ts) n d m e z = elim (Bool-cases (id_of t == n)) [
  | inl q ↦
      let same = (eq_iff (id_of t) n).0 q in
      let here = ap has_none (ap (get ds) same ∙ e) ∙ zero_none d z in rw here (ground (arith, q))
  | inr q ↦
      let rest = first_queue-mem ds ts n d (ground (arith, m, q)) e z in
      elim (Bool-cases (has_none (get ds (id_of t)))) [
        | inl f ↦ rw f (ground (arith, q, rest))
        | inr f ↦ rw f rest
      ]
]

first-Waits :
    (ts : List SubTask)
    → Waits (plan_of ts).graph (mem (map id_of ts)) [] (record {
      queue = first_queue (plan_of ts).in_degree ts;
      in_degree = (plan_of ts).in_degree;
    })
first-Waits ts = record {
  present = plan_of-present ts;
  reached = λ n d m e z. first_queue-mem (plan_of ts).in_degree ts n d m e z;
}

length-ids : (ts : List SubTask) → length (map id_of ts) ≡ length ts
length-ids [] = refl
length-ids (t ∷ ts) = ap suc (length-ids ts)

In-mem : (ts : List SubTask) (t : SubTask) → In t ts → mem (map id_of ts) (id_of t) ≡ true
In-mem [] t i = absurd i
In-mem (u ∷ us) t (inl e) =
    let same = ap id_of e in ground (arith, (eq_iff (id_of u) (id_of t)).1 (sym same))
In-mem (u ∷ us) t (inr i) = ground (arith, In-mem us t i)

Present-mem :
    (ts : List SubTask) (id : String) → Present (task_map ts []) id → mem (map id_of ts) id ≡ true
Present-mem ts id (t, e) =
    let same = task_map-id ts [] id t (λ j u q. none_in j q) e in
    let i = task_map-In ts ts [] (λ x k. k) (λ j u q. none_in j q) id t e in
    subst (λ x. mem (map id_of ts) x ≡ true) same (In-mem ts t i)

found-mem :
    (ts : List SubTask) (ids : List String) (z : String)
    → All (Present (task_map ts [])) ids
    → mem ids z ≡ true
    → mem (map id_of ts) z ≡ true
found-mem ts [] z h m = cc
found-mem ts (id ∷ ids) z (p, h) m = elim (Bool-cases (id == z)) [
  | inl q ↦ subst (λ x. mem (map id_of ts) x ≡ true) ((eq_iff id z).0 q) (Present-mem ts id p)
  | inr q ↦ found-mem ts ids z h (ground (arith, m, q))
]

-- Without a cycle the loop reaches every sub-task once.
order_ids-Complete :
    (ts : List SubTask) (rank : String → ℕ) (ids : List String)
    → AllDistinct ts
    → IsRanked ts rank
    → order_ids ts ≡ some ids
    → AllNew [] ids × ((n : String) → mem (map id_of ts) n ≡ true → mem ids n ≡ true)
unfolding order_ids
order_ids-Complete ts rank ids distinct ranked e =
    let p = plan_of ts in
    let queue = first_queue p.in_degree ts in
    visit-Complete p.graph (mem (map id_of ts)) rank (plan_of-Ranked ts rank ranked)
      (plan_of-IsCounted ts).once (suc (length queue + length p.in_degree)) [] queue p.in_degree ids
      (first-Tracks ts distinct) (first-Waits ts) e

-- Where the identifiers of the sub-tasks differ and their dependencies have no cycle (each
-- sub-task is above, by some rank, those that it depends on), the order is found, is made of as
-- many sub-tasks of the plan, and each comes after all those of its dependencies that the plan
-- has.
pub order_sub_tasks_by_dependencies-Follows :
    (ts : List SubTask) (rank : String → ℕ)
    → AllDistinct ts
    → IsRanked ts rank
    → (r : List SubTask) × (order_sub_tasks_by_dependencies ts ≡ some (map some r))
      × (length r ≡ length ts)
      × All (λ t. In t ts) r
      × Follows ts [] r
order_sub_tasks_by_dependencies-Follows ts rank distinct ranked =
    let (ids, e, present) = ids_found ts in
    let (new, every) = order_ids-Complete ts rank ids distinct ranked e in
    let as_many =
      length_same ids (map id_of ts) new distinct (λ z m. found-mem ts ids z present m) every in
    reached-Follows ts ids distinct e (as_many ∙ length-ids ts)
