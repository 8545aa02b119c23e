-- ===== src/AutoGen/Order.antt =====
-- The order of the sub-tasks of lib/auto-gen-orchestrator.js: its loop ends, and it is made of
-- sub-tasks of the plan.
pub mod Counts
mod Building
mod Topology
mod Distinct
mod Complete
pub mod Follows
pub mod Ranks
pub mod Acyclic
use gemini_agent_lib.Prelude.{
  ℕ, zero, suc, ◌+◌, ◌≤◌, ◌<◌, String, ◌≡◌, refl, ap, ◌∙◌, subst, ◌⊎◌, true, false, Bool-cases,
  Option-cases, inl, inr, Option, none, some, List, [], ◌∷◌, ◌++◌, length, length-append, map,
  nat_eq, ltb, arith, All, or_else, ◌==◌, eq_iff, if◌then◌else◌,
}
use gemini_agent_lib.Prelude.Dict.{Dict, get, put, get-put_self, get-put_other, put-eq-some}
use gemini_agent_lib.AutoGen.{
  SubTask, id_of, Degree, Plan, add_nodes, lowered, is_zero, add_edge, add_edges, add_dependencies,
  has_none, first_queue, Search, remove_edge, remove_edges, visit, prepend, task_map, plan_of,
  order_ids, ordered, placed, order_sub_tasks_by_dependencies,
}

abbrev pub In : SubTask → List SubTask → Type 0
In t [] = ⊥
In t (u ∷ us) = (t ≡ u) ⊎ In t us

-- 1 for a node that still has edges, and else 0
abbrev waiting : Degree → ℕ
waiting d = if ltb d.removed d.added then 1 else 0

abbrev pending : Dict Degree → ℕ
pending [] = 0
pending ((k, d) ∷ ds) = waiting d + pending ds

waiting_bound : (d : Degree) → waiting d ≤ 1
waiting_bound d = ground arith

pending_bound : (ds : Dict Degree) → pending ds ≤ length ds
pending_bound [] = omega arith
pending_bound ((k, d) ∷ ds) = omega (arith, pending_bound ds, waiting_bound d)

pending-put :
    (ds : Dict Degree) (k : String) (d e : Degree)
    → get ds k ≡ some d
    → pending (put ds k e) + waiting d ≡ pending ds + waiting e
unfolding get put
pending-put [] k d e h = ground (arith, h)
pending-put ((j, c) ∷ ds) k d e h = elim (Bool-cases (j == k)) [
  | inl q ↦ let same : c ≡ d = ground (arith, h, q) in rw (q, same) (omega arith)
  | inr q ↦ let rest = pending-put ds k d e (ground (arith, h, q)) in rw q (omega (arith, rest))
]

waiting-lowered :
    (d : Degree)
    → ((is_zero (lowered d) ≡ true) × (waiting d ≡ 1) × (waiting (lowered d) ≡ 0))
      ⊎ ((is_zero (lowered d) ≡ false) × (waiting (lowered d) ≡ waiting d))
waiting-lowered d = elim (Bool-cases (is_zero (lowered d))) [
  | inl e ↦ inl (e, ground (arith, e), ground (arith, e))
  | inr e ↦ inr (e, ground (arith, e))
]

-- what the queue and the nodes with edges come to
abbrev size : Search → ℕ
size s = length s.queue + pending s.in_degree

All-append :
    {A : Type 0} (P : A → Type 0) (xs : List A) (x : A) → All P xs → P x → All P (xs ++ (x ∷ []))
All-append P [] x h p = (p, tt)
All-append P (y ∷ ys) x (q, h) p = (q, All-append P ys x h p)

module _ (P : String → Type 0) where
  -- the edges lead to identifiers that are good
  abbrev GoodGraph : Dict (List String) → Type 0
  GoodGraph g = (k : String) (out : List String) → get g k ≡ some out → All P out

  put-GoodGraph :
      (g : Dict (List String)) (k : String) (out : List String)
      → GoodGraph g
      → All P out
      → GoodGraph (put g k out)
  put-GoodGraph g k out h p j o e = elim (put-eq-some g k j out o e) [
    | inl (same, q) ↦ subst (All P) q p
    | inr (other, q) ↦ h j o q
  ]

  add_nodes-GoodGraph :
      (ts : List SubTask) (p : Plan) → GoodGraph p.graph → GoodGraph (add_nodes ts p).graph
  unfolding add_nodes
  add_nodes-GoodGraph [] p h = h
  add_nodes-GoodGraph (t ∷ ts) p h =
      add_nodes-GoodGraph ts _ (put-GoodGraph p.graph (id_of t) [] h tt)

  add_edge-GoodGraph :
      (id d : String) (o : Option (List String)) (p : Plan)
      → P id
      → get p.graph d ≡ o
      → GoodGraph p.graph
      → GoodGraph (add_edge id d o p).graph
  add_edge-GoodGraph id d none p good e h = h
  add_edge-GoodGraph id d (some out) p good e h =
      put-GoodGraph p.graph d (out ++ (id ∷ [])) h (All-append P out id (h d out e) good)

  add_edges-GoodGraph :
      (id : String) (ds : List String) (p : Plan)
      → P id
      → GoodGraph p.graph
      → GoodGraph (add_edges id ds p).graph
  unfolding add_edges
  add_edges-GoodGraph id [] p good h = h
  add_edges-GoodGraph id (d ∷ ds) p good h =
      add_edges-GoodGraph id ds _ good (add_edge-GoodGraph id d (get p.graph d) p good refl h)

  add_dependencies-GoodGraph :
      (ts : List SubTask) (p : Plan)
      → All (λ t. P (id_of t)) ts
      → GoodGraph p.graph
      → GoodGraph (add_dependencies ts p).graph
  unfolding add_dependencies
  add_dependencies-GoodGraph [] p good h = h
  add_dependencies-GoodGraph (t ∷ ts) p (g, good) h =
      add_dependencies-GoodGraph ts _ good
        (add_edges-GoodGraph (id_of t) (or_else t.depends_on []) p g h)

  first_queue-All :
      (ds : Dict Degree) (ts : List SubTask) → All (λ t. P (id_of t)) ts → All P (first_queue ds ts)
  unfolding first_queue
  first_queue-All ds [] good = tt
  first_queue-All ds (t ∷ ts) (g, good) =
      let rest = first_queue-All ds ts good in
      elim (Bool-cases (has_none (get ds (id_of t)))) [ inl e ↦ rw e (g, rest) | inr e ↦ rw e rest ]

  -- what a step on the queue keeps: its measure, and that its identifiers are good
  abbrev Kept : Search → Search → Type 0
  Kept s s' = (size s' ≡ size s) × All P s'.queue

  remove_edge-Kept :
      (n : String) (o : Option Degree) (s : Search)
      → P n
      → get s.in_degree n ≡ o
      → All P s.queue
      → Kept s (remove_edge n o s)
  unfolding remove_edge
  remove_edge-Kept n none s good e h = (refl, h)
  remove_edge-Kept n (some d) s good e h =
      let moved = pending-put s.in_degree n d (lowered d) e in
      elim (waiting-lowered d) [
        | inl (z, a, b) ↦ rw z (
          omega (arith, moved, a, b, length-append s.queue (n ∷ [])),
          All-append P s.queue n h good,
        )
        | inr (z, a) ↦ rw z (omega (arith, moved, a), h)
      ]

  remove_edges-Kept :
      (ns : List String) (s : Search) → All P ns → All P s.queue → Kept s (remove_edges ns s)
  unfolding remove_edges
  remove_edges-Kept [] s good h = (refl, h)
  remove_edges-Kept (n ∷ ns) s (g, good) h =
      let (e, k) = remove_edge-Kept n (get s.in_degree n) s g refl h in
      let (e', k') = remove_edges-Kept ns (remove_edge n (get s.in_degree n) s) good k in
      (e' ∙ e, k')

  out_of-All : (g : Dict (List String)) (id : String) → GoodGraph g → All P (or_else (get g id) [])
  out_of-All g id h = elim (Option-cases (get g id)) [
    | inl e ↦ rw e tt
    | inr (out, e) ↦ rw e (h id out e)
  ]

  prepended :
      (id : String) (o : Option (List String))
      → P id
      → (ids : List String) × (o ≡ some ids) × All P ids
      → (ids : List String) × (prepend id o ≡ some ids) × All P ids
  prepended id o g (ids, e, h) = (id ∷ ids, rw e refl, (g, h))

  -- with more fuel than the queue and the nodes with edges
  visit-All :
      (fuel : ℕ) (g : Dict (List String)) (queue : List String) (ds : Dict Degree)
      → GoodGraph g
      → All P queue
      → length queue + pending ds < fuel
      → (ids : List String) × (visit fuel g queue ds ≡ some ids) × All P ids
  unfolding visit
  visit-All zero g queue ds good h k = absurd (omega arith)
  visit-All (suc fuel) g [] ds good h k = ([], refl, tt)
  visit-All (suc fuel) g (id ∷ queue) ds good (p, h) k =
      let s : Search = record { queue = queue; in_degree = ds } in
      let out = or_else (get g id) [] in
      let (e, h') = remove_edges-Kept out s (out_of-All g id good) h in
      let s' = remove_edges out s in
      prepended id (visit fuel g s'.queue s'.in_degree) p
        (visit-All fuel g s'.queue s'.in_degree good h' (omega (arith, e)))

none_in : {V A : Type 0} {v : V} (k : String) → get [] k ≡ some v → A
unfolding get
none_in k e = absurd (ground (arith, e))

-- Every sub-task that the map gives is one of the plan.
task_map-In :
    (all ts : List SubTask) (d : Dict SubTask)
    → ((t : SubTask) → In t ts → In t all)
    → ((id : String) (t : SubTask) → get d id ≡ some t → In t all)
    → (id : String) (t : SubTask) → get (task_map ts d) id ≡ some t
    → In t all
unfolding task_map
task_map-In all [] d sub h id t e = h id t e
task_map-In all (u ∷ us) d sub h id t e =
    task_map-In all us (put d (id_of u) u) (λ x i. sub x (inr i))
      (λ j x q. elim (put-eq-some d (id_of u) j u x q) [
        | inl (same, v) ↦ subst (λ y. In y all) v (sub u (inl refl))
        | inr (other, q') ↦ h j x q'
      ])
      id t e

abbrev Present : Dict SubTask → String → Type 0
Present d id = (t : SubTask) × (get d id ≡ some t)

put-Present :
    (d : Dict SubTask) (k id : String) (v : SubTask) → Present d id → Present (put d k v) id
put-Present d k id v (t, e) = elim (Bool-cases (k == id)) [
  | inl same ↦
      (v, subst (λ j. get (put d k v) j ≡ some v) ((eq_iff k id).0 same) (get-put_self d k v))
  | inr other ↦ (t, get-put_other d k id v other ∙ e)
]

task_map-Present :
    (ts : List SubTask) (d : Dict SubTask) (id : String) → Present d id → Present (task_map ts d) id
unfolding task_map
task_map-Present [] d id h = h
task_map-Present (u ∷ us) d id h =
    task_map-Present us (put d (id_of u) u) id (put-Present d (id_of u) id u h)

task_map-own :
    (ts : List SubTask) (d : Dict SubTask) → All (λ t. Present (task_map ts d) (id_of t)) ts
unfolding task_map
task_map-own [] d = tt
task_map-own (u ∷ us) d = (
  task_map-Present us (put d (id_of u) u) (id_of u) (u, get-put_self d (id_of u) u),
  task_map-own us (put d (id_of u) u),
)

-- the identifiers of a plan's sub-tasks, looked up
looked_up :
    (ts : List SubTask) (ids : List String)
    → All (Present (task_map ts [])) ids
    → (r : List SubTask) × (map (λ id. get (task_map ts []) id) ids ≡ map some r)
      × (length r ≡ length ids)
      × All (λ t. In t ts) r
looked_up ts [] h = ([], refl, refl, tt)
looked_up ts (id ∷ ids) ((t, e), h) =
    let (r, q, n, k) = looked_up ts ids h in
    (
      t ∷ r,
      rw (e, q) refl,
      omega (arith, n),
      (task_map-In ts ts [] (λ x i. i) (λ j x q. none_in j q) id t e, k),
    )

all_own : (ts all : List SubTask) → ((t : SubTask) → In t ts → In t all) → All (λ t. In t all) ts
all_own [] all sub = tt
all_own (t ∷ ts) all sub = (sub t (inl refl), all_own ts all (λ x i. sub x (inr i)))

ids_found :
    (ts : List SubTask)
    → (ids : List String) × (order_ids ts ≡ some ids) × All (Present (task_map ts [])) ids
unfolding order_ids plan_of
ids_found ts =
    let P = Present (task_map ts []) in
    let own = task_map-own ts [] in
    let p = plan_of ts in
    let queue = first_queue p.in_degree ts in
    let graph =
      add_dependencies-GoodGraph P ts _ own (
        add_nodes-GoodGraph P ts (record { graph = []; in_degree = [] })
          (λ k out q. none_in k q)) in
    visit-All P (suc (length queue + length p.in_degree)) p.graph queue p.in_degree graph
      (first_queue-All P p.in_degree ts own) (omega (arith, pending_bound p.in_degree))

nat_eq→eq : (a b : ℕ) → nat_eq a b ≡ true → a ≡ b
nat_eq→eq a b h = ground arith

-- entries that are sub-tasks of a plan, as many as it has
abbrev Whole : List SubTask → List (Option SubTask) → Type 0
Whole ts found =
    (r : List SubTask) × (found ≡ map some r) × (length r ≡ length ts) × All (λ t. In t ts) r

ordered-Whole :
    (ts : List SubTask) (ids : List String)
    → All (Present (task_map ts [])) ids
    → Whole ts (ordered ts ids)
unfolding ordered
ordered-Whole ts ids h = elim (Bool-cases (nat_eq (length ids) (length ts))) [
  | inl same ↦
      let (r, q, n, k) = looked_up ts ids h in
      rw same (r, q, n ∙ nat_eq→eq (length ids) (length ts) same, k)
  | inr other ↦ rw other (ts, refl, refl, all_own ts ts (λ t i. i))
]

order_of_ids :
    (ts : List SubTask) (ids : List String)
    → order_ids ts ≡ some ids
    → order_sub_tasks_by_dependencies ts ≡ some (ordered ts ids)
unfolding order_sub_tasks_by_dependencies
order_of_ids ts ids e = ap (λ o. placed ts o) e

-- The order of any sub-tasks is found, whatever their dependencies are: the loop ends, and the
-- result has as many entries as there are sub-tasks, each one of them and none `undefined`.
pub order_sub_tasks_by_dependencies-In :
    (ts : List SubTask)
    → (r : List SubTask) × (order_sub_tasks_by_dependencies ts ≡ some (map some r))
      × (length r ≡ length ts)
      × All (λ t. In t ts) r
order_sub_tasks_by_dependencies-In ts =
    let (ids, e, h) = ids_found ts in
    let (r, q, n, k) = ordered-Whole ts ids h in (r, order_of_ids ts ids e ∙ ap some q, n, k)
