-- ===== src/AutoGen/Order/Topology.antt =====
-- The loop over the queue: a node leaves it only after every node with an edge to it.
use gemini_agent_lib.Prelude.{
  ℕ, zero, suc, ◌+◌, ◌<◌, String, ◌≡◌, refl, sym, ap, ◌∙◌, subst, Bool, true, false, ◌||◌,
  Bool-cases, inl, inr, Option, none, some, List, [], ◌∷◌, ◌++◌, arith, ◌==◌, eq_iff,
}
use gemini_agent_lib.Prelude.Dict.{
  Dict, get, put, IsObject, get-put_self, get-put_other, put-eq-some,
}
use gemini_agent_lib.AutoGen.{
  Degree, Search, lowered, is_zero, remove_edge, remove_edges, prepend, visit,
}
use gemini_agent_lib.AutoGen.Order.Counts.{
  mem, count, out_of, total, cut, cut-le-total, cut-done, cut-eq-total,
}

-- the nodes of a queue are new, and each stands there once
abbrev pub AllNew : List String → List String → Type 0
AllNew done [] = Unit
AllNew done (q ∷ qs) = (mem done q ≡ false) × AllNew (q ∷ done) qs

-- Each node comes after the nodes with an edge to it.
abbrev pub Sorted : Dict (List String) → List String → List String → Type 0
Sorted g done [] = Unit
Sorted g done (id ∷ ids) =
    ((u : String) (out : List String) → get g u ≡ some out → 0 < count id out → mem done u ≡ true)
    × Sorted g (id ∷ done) ids

AllNew-append :
    (done queue : List String) (n : String)
    → AllNew done queue
    → mem done n ≡ false
    → mem queue n ≡ false
    → AllNew done (queue ++ (n ∷ []))
AllNew-append done [] n h a b = (a, tt)
AllNew-append done (q ∷ qs) n (p, h) a b =
    (p, AllNew-append (q ∷ done) qs n h (ground (arith, a, b)) (ground (arith, b)))

pub mem-append : (xs : List String) (n m : String) → mem (xs ++ (n ∷ [])) m ≡ mem xs m || n == m
mem-append [] n m = ground arith
mem-append (x ∷ xs) n m = ground (arith, mem-append xs n m)

one_more : (n : String) (rest : List String) → count n (n ∷ rest) ≡ suc (count n rest)
one_more n rest = ground (arith, eq_iff n n)

pub empty_order : (ids : List String) → some [] ≡ some ids → [] ≡ ids
empty_order ids e = ground (arith, e)

pub prepend-some :
    (id : String) (o : Option (List String)) (ids : List String)
    → prepend id o ≡ some ids
    → (rest : List String) × (o ≡ some rest) × (ids ≡ id ∷ rest)
prepend-some id none ids e = cc
prepend-some id (some rest) ids e = (rest, refl, ground (arith, e))

differ : (b : Bool) → b ≡ false → b ≡ true → ⊥
differ b e f = ground (arith, e, f)

module _ (g : Dict (List String)) where
  -- No edge of the node is left.
  abbrev pub Free : Dict Degree → String → Type 0
  Free ds n = (d : Degree) × (get ds n ≡ some d) × (d.added ≡ d.removed)

  -- The counters, where these nodes are done but for these edges of the last one; the nodes that
  -- are done or in the queue have no edge left.
  pub record Tracks (done rest : List String) (s : Search) : Type 0 where
    pub removed :
        (n : String) (d : Degree)
        → get s.in_degree n ≡ some d
        → d.removed + count n rest ≡ cut g done n
    pub added : (n : String) (d : Degree) → get s.in_degree n ≡ some d → d.added ≡ total g n
    pub free : (n : String) → (mem done n || mem s.queue n) ≡ true → Free s.in_degree n
    pub fresh : AllNew done s.queue

  -- A node to which an edge is left is neither done nor in the queue.
  left_out :
      (done rest : List String) (n : String) (s : Search) (d : Degree)
      → Tracks done (n ∷ rest) s
      → get s.in_degree n ≡ some d
      → (mem done n || mem s.queue n) ≡ false
  left_out done rest n s d h e = elim (Bool-cases (mem done n || mem s.queue n)) [
    | inr q ↦ q
    | inl q ↦
        let (c, f, z) = h.free n q in
        let same : c ≡ d = ground (arith, f, e) in
        let zero_left : d.added ≡ d.removed = subst (λ (x : Degree). x.added ≡ x.removed) same z in
        absurd (
          omega (
            arith,
            h.removed n d e,
            h.added n d e,
            cut-le-total g done n,
            zero_left,
            one_more n rest,
          ))
  ]

  -- The counters after an edge to a node is removed.
  module _ (done rest : List String) (n : String) (s : Search) (d : Degree)
      (there : get s.in_degree n ≡ some d) (h : Tracks done (n ∷ rest) s) where
    abbrev degrees : Dict Degree
    degrees = put s.in_degree n (lowered d)

    lowered_removed :
        (m : String) (c : Degree) → get degrees m ≡ some c → c.removed + count m rest ≡ cut g done m
    lowered_removed m c e = elim (put-eq-some s.in_degree n m (lowered d) c e) [
      | inl (same, q) ↦
          subst (λ x. c.removed + count x rest ≡ cut g done x) same
            (omega (arith, h.removed n d there, one_more n rest, ap (λ (x : Degree). x.removed) q))
      | inr (other, f) ↦ ground (arith, h.removed m c f, other)
    ]

    lowered_added : (m : String) (c : Degree) → get degrees m ≡ some c → c.added ≡ total g m
    lowered_added m c e = elim (put-eq-some s.in_degree n m (lowered d) c e) [
      | inl (same, q) ↦
          subst (λ x. c.added ≡ total g x) same
            (omega (arith, h.added n d there, ap (λ (x : Degree). x.added) q))
      | inr (other, f) ↦ h.added m c f
    ]

    new_node : (mem done n || mem s.queue n) ≡ false
    new_node = left_out done rest n s d h there

    lowered-Free : (m : String) → (mem done m || mem s.queue m) ≡ true → Free degrees m
    lowered-Free m i = elim (Bool-cases (n == m)) [
      | inl q ↦
          let same = (eq_iff n m).0 q in
          absurd (differ _ (subst (λ x. (mem done x || mem s.queue x) ≡ false) same new_node) i)
      | inr q ↦
          let (c, f, z) = h.free m i in (c, get-put_other s.in_degree n m (lowered d) q ∙ f, z)
    ]

    pushed-Free :
        is_zero (lowered d) ≡ true
        → (m : String) → (mem done m || mem (s.queue ++ (n ∷ [])) m) ≡ true
        → Free degrees m
    pushed-Free z m i = elim (Bool-cases (n == m)) [
      | inl q ↦
          let same = (eq_iff n m).0 q in
          subst (Free degrees) same
            (lowered d, get-put_self s.in_degree n (lowered d), ground (arith, z))
      | inr q ↦ lowered-Free m (ground (arith, i, q, mem-append s.queue n m))
    ]

    kept_Tracks : Tracks done rest (record { queue = s.queue; in_degree = degrees })
    kept_Tracks = record {
      removed = lowered_removed;
      added = lowered_added;
      free = lowered-Free;
      fresh = h.fresh;
    }

    pushed_Tracks :
        is_zero (lowered d) ≡ true
        → Tracks done rest (record { queue = s.queue ++ (n ∷ []); in_degree = degrees })
    pushed_Tracks z = record {
      removed = lowered_removed;
      added = lowered_added;
      free = pushed-Free z;
      fresh =
          AllNew-append done s.queue n h.fresh (ground (arith, new_node))
            (ground (arith, new_node));
    }

  remove_edge-Tracks :
      (done rest : List String) (n : String) (o : Option Degree) (s : Search)
      → get s.in_degree n ≡ o
      → Tracks done (n ∷ rest) s
      → Tracks done rest (remove_edge n o s)
  unfolding remove_edge
  remove_edge-Tracks done rest n none s e h = record {
    removed = λ m d f. elim (Bool-cases (n == m)) [
      | inl q ↦ ground (arith, sym e ∙ ap (get s.in_degree) ((eq_iff n m).0 q) ∙ f)
      | inr q ↦ ground (arith, q, h.removed m d f)
    ];
    added = h.added;
    free = h.free;
    fresh = h.fresh;
  }
  remove_edge-Tracks done rest n (some d) s e h = elim (Bool-cases (is_zero (lowered d))) [
    | inl z ↦ rw z (pushed_Tracks done rest n s d e h z)
    | inr z ↦ rw z (kept_Tracks done rest n s d e h)
  ]

  pub remove_edges-Tracks :
      (done ns : List String) (s : Search) → Tracks done ns s → Tracks done [] (remove_edges ns s)
  unfolding remove_edges
  remove_edges-Tracks done [] s h = h
  remove_edges-Tracks done (n ∷ ns) s h =
      remove_edges-Tracks done ns (remove_edge n (get s.in_degree n) s)
        (remove_edge-Tracks done ns n (get s.in_degree n) s refl h)

  -- The first of the queue becomes the last that is done.
  pub shift-Tracks :
      (done : List String) (id : String) (queue : List String) (ds : Dict Degree)
      → IsObject g
      → Tracks done [] (record { queue = id ∷ queue; in_degree = ds })
      → Tracks (id ∷ done) (out_of g id) (record { queue = queue; in_degree = ds })
  shift-Tracks done id queue ds once h = record {
    removed = λ n d e. omega (arith, h.removed n d e, cut-done g id done n once h.fresh.0);
    added = h.added;
    free = λ n i. h.free n (ground (arith, i));
    fresh = h.fresh.1;
  }

  first-sorted :
      (done : List String) (id : String) (queue : List String) (ds : Dict Degree)
      → Tracks done [] (record { queue = id ∷ queue; in_degree = ds })
      → (u : String) (out : List String) → get g u ≡ some out
      → 0 < count id out
      → mem done u ≡ true
  first-sorted done id queue ds h u out e pos =
      let (d, f, z) = h.free id (ground (arith, eq_iff id id)) in
      cut-eq-total g done id u out (omega (arith, h.removed id d f, h.added id d f, z)) e pos

  pub visit-Sorted :
      (fuel : ℕ) (done queue : List String) (ds : Dict Degree) (ids : List String)
      → IsObject g
      → Tracks done [] (record { queue = queue; in_degree = ds })
      → visit fuel g queue ds ≡ some ids
      → Sorted g done ids
  unfolding visit
  visit-Sorted zero done queue ds ids once h e = cc
  visit-Sorted (suc fuel) done [] ds ids once h e = subst (Sorted g done) (empty_order ids e) tt
  visit-Sorted (suc fuel) done (id ∷ queue) ds ids once h e =
      let s : Search = record { queue = queue; in_degree = ds } in
      let s' = remove_edges (out_of g id) s in
      let (rest, f, q) = prepend-some id (visit fuel g s'.queue s'.in_degree) ids e in
      let after =
        remove_edges-Tracks (id ∷ done) (out_of g id) s (shift-Tracks done id queue ds once h) in
      subst (Sorted g done) (sym q) (
        first-sorted done id queue ds h,
        visit-Sorted fuel (id ∷ done) s'.queue s'.in_degree rest once after f,
      )
