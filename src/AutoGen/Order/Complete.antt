-- ===== src/AutoGen/Order/Complete.antt =====
-- The loop over the queue reaches every node, where the edges follow a rank.
use gemini_agent_lib.Prelude.{
  ℕ, zero, suc, ◌+◌, ◌<◌, String, ◌≡◌, refl, sym, ◌∙◌, subst, Bool, true, false, ◌||◌, Bool-cases,
  inl, inr, Option, none, some, List, [], ◌∷◌, ◌++◌, arith, ◌==◌, eq_iff, if◌then◌else◌,
}
use gemini_agent_lib.Prelude.Dict.{
  Dict, get, put, has, IsObject, get-put_self, get-put_other, put-eq-some,
}
use gemini_agent_lib.AutoGen.{Degree, Search, lowered, is_zero, remove_edge, remove_edges, visit}
use gemini_agent_lib.AutoGen.Order.Counts.{mem, count, out_of, total, cut}
use gemini_agent_lib.AutoGen.Order.Topology.{
  AllNew, Tracks, mem-append, remove_edges-Tracks, shift-Tracks, prepend-some, empty_order,
}

head_entry :
    (g : Dict (List String)) (u : String) (out : List String) → get ((u, out) ∷ g) u ≡ some out
unfolding get
head_entry g u out = ground (arith, eq_iff u u)

tail_entry :
    (g : Dict (List String)) (u : String) (out : List String) (v : String) (o : List String)
    → has g u ≡ false
    → get g v ≡ some o
    → get ((u, out) ∷ g) v ≡ some o
unfolding get
tail_entry g u out v o absent e = elim (Bool-cases (u == v)) [
  | inl q ↦
      let missing = subst (λ x. has g x ≡ false) ((eq_iff u v).0 q) absent in
      ground (arith, e, missing)
  | inr q ↦ rw q e
]

cut_entry : (b : Bool) (c x y : ℕ) → (0 < c → b ≡ true) → x ≡ y → (if b then c else 0) + x ≡ c + y
cut_entry true c x y h e = omega (arith, e)
cut_entry false zero x y h e = omega (arith, e)
cut_entry false (suc c) x y h e = absurd (ground (arith, h (omega arith)))

-- Every edge to a node is from one that is done.
cut_full :
    (g : Dict (List String)) (done : List String) (n : String)
    → IsObject g
    → ((u : String) (out : List String) → get g u ≡ some out → 0 < count n out → mem done u ≡ true)
    → cut g done n ≡ total g n
cut_full [] done n once h = refl
cut_full ((u, out) ∷ g) done n (absent, once) h =
    let here : 0 < count n out → mem done u ≡ true = h u out (head_entry g u out) in
    let rest = cut_full g done n once (λ v o e pos. h v o (tail_entry g u out v o absent e) pos) in
    cut_entry (mem done u) (count n out) (cut g done n) (total g n) here rest

module _ (g : Dict (List String)) (node : String → Bool) where
  -- Each node has a counter, and without an edge left it is done or in the queue.
  pub record Waits (done : List String) (s : Search) : Type 0 where
    pub present : (n : String) → node n ≡ true → (d : Degree) × (get s.in_degree n ≡ some d)
    pub reached :
        (n : String) (d : Degree)
        → node n ≡ true
        → get s.in_degree n ≡ some d
        → d.added ≡ d.removed
        → (mem done n || mem s.queue n) ≡ true

  module _ (done : List String) (n : String) (s : Search) (d : Degree)
      (there : get s.in_degree n ≡ some d) (h : Waits done s) where
    abbrev degrees : Dict Degree
    degrees = put s.in_degree n (lowered d)

    lowered-present : (m : String) → node m ≡ true → (c : Degree) × (get degrees m ≡ some c)
    lowered-present m k = elim (Bool-cases (n == m)) [
      | inl q ↦ (
        lowered d,
        subst (λ x. get degrees x ≡ some (lowered d)) ((eq_iff n m).0 q)
            (get-put_self s.in_degree n (lowered d)),
      )
      | inr q ↦ let (c, e) = h.present m k in (c, get-put_other s.in_degree n m (lowered d) q ∙ e)
    ]

    pushed-reached :
        (m : String) (c : Degree)
        → node m ≡ true
        → get degrees m ≡ some c
        → c.added ≡ c.removed
        → (mem done m || mem (s.queue ++ (n ∷ [])) m) ≡ true
    pushed-reached m c k e z = elim (put-eq-some s.in_degree n m (lowered d) c e) [
      | inl (same, q) ↦ ground (arith, mem-append s.queue n m, (eq_iff n m).1 same)
      | inr (other, f) ↦ ground (arith, mem-append s.queue n m, h.reached m c k f z)
    ]

    kept-reached :
        is_zero (lowered d) ≡ false
        → (m : String) (c : Degree) → node m ≡ true
        → get degrees m ≡ some c
        → c.added ≡ c.removed
        → (mem done m || mem s.queue m) ≡ true
    kept-reached left m c k e z = elim (put-eq-some s.in_degree n m (lowered d) c e) [
      | inl (same, q) ↦
          let zero_left = subst (λ (x : Degree). x.added ≡ x.removed) (sym q) z in
          ground (arith, left, zero_left)
      | inr (other, f) ↦ h.reached m c k f z
    ]

  remove_edge-Waits :
      (done : List String) (n : String) (o : Option Degree) (s : Search)
      → get s.in_degree n ≡ o
      → Waits done s
      → Waits done (remove_edge n o s)
  unfolding remove_edge
  remove_edge-Waits done n none s e h = h
  remove_edge-Waits done n (some d) s e h = elim (Bool-cases (is_zero (lowered d))) [
    | inl z ↦ rw z (record {
      present = lowered-present done n s d e h;
      reached = pushed-reached done n s d e h;
    })
    | inr z ↦ rw z (record {
      present = lowered-present done n s d e h;
      reached = kept-reached done n s d e h z;
    })
  ]

  remove_edges-Waits :
      (done ns : List String) (s : Search) → Waits done s → Waits done (remove_edges ns s)
  unfolding remove_edges
  remove_edges-Waits done [] s h = h
  remove_edges-Waits done (n ∷ ns) s h =
      remove_edges-Waits done ns (remove_edge n (get s.in_degree n) s)
        (remove_edge-Waits done n (get s.in_degree n) s refl h)

  shift-Waits :
      (done : List String) (id : String) (queue : List String) (ds : Dict Degree)
      → Waits done (record { queue = id ∷ queue; in_degree = ds })
      → Waits (id ∷ done) (record { queue = queue; in_degree = ds })
  shift-Waits done id queue ds h = record {
    present = h.present;
    reached = λ n d k e z. ground (arith, h.reached n d k e z);
  }

  -- The edges go from nodes to nodes of a higher rank.
  pub record Ranked (rank : String → ℕ) : Type 0 where
    pub from_node : (u : String) (out : List String) → get g u ≡ some out → node u ≡ true
    pub higher :
        (u n : String) (out : List String) → get g u ≡ some out → 0 < count n out → rank u < rank n

  module _ (rank : String → ℕ) (ranked : Ranked rank) (once : IsObject g) where
    -- Where the queue is empty, the nodes below a rank are done.
    all_done :
        (k : ℕ) (done : List String) (ds : Dict Degree)
        → Tracks g done [] (record { queue = []; in_degree = ds })
        → Waits done (record { queue = []; in_degree = ds })
        → (n : String) → node n ≡ true
        → rank n < k
        → mem done n ≡ true
    all_done zero done ds t w n is low = absurd (omega arith)
    all_done (suc k) done ds t w n is low =
        let (d, e) = w.present n is in
        let full = cut_full g done n once (λ u out f pos.
          all_done k done ds t w u (ranked.from_node u out f)
            (omega (arith, ranked.higher u n out f pos, low))) in
        let reached = w.reached n d is e (omega (arith, t.removed n d e, t.added n d e, full)) in
        ground (arith, reached)

    pub visit-Complete :
        (fuel : ℕ) (done queue : List String) (ds : Dict Degree) (ids : List String)
        → Tracks g done [] (record { queue = queue; in_degree = ds })
        → Waits done (record { queue = queue; in_degree = ds })
        → visit fuel g queue ds ≡ some ids
        → AllNew done ids × ((n : String) → node n ≡ true → (mem done n || mem ids n) ≡ true)
    unfolding visit
    visit-Complete zero done queue ds ids t w e = cc
    visit-Complete (suc fuel) done [] ds ids t w e =
        subst
          (λ is. AllNew done is × ((n : String) → node n ≡ true → (mem done n || mem is n) ≡ true))
          (empty_order ids e)
          (tt, λ n is. ground (arith, all_done (suc (rank n)) done ds t w n is (omega arith)))
    visit-Complete (suc fuel) done (id ∷ queue) ds ids t w e =
        let s : Search = record { queue = queue; in_degree = ds } in
        let s' = remove_edges (out_of g id) s in
        let (rest, f, q) = prepend-some id (visit fuel g s'.queue s'.in_degree) ids e in
        let t' =
          remove_edges-Tracks g (id ∷ done) (out_of g id) s
            (shift-Tracks g done id queue ds once t) in
        let w' = remove_edges-Waits (id ∷ done) (out_of g id) s (shift-Waits done id queue ds w) in
        let (new, every) = visit-Complete fuel (id ∷ done) s'.queue s'.in_degree rest t' w' f in
        subst
          (λ is. AllNew done is × ((n : String) → node n ≡ true → (mem done n || mem is n) ≡ true))
          (sym q) ((t.fresh.0, new), λ n is. ground (arith, every n is))
