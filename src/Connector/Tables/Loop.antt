-- ===== src/Connector/Tables/Loop.antt =====
-- internal/connector/fk.go: Kahn's loop takes each table once at most, and a table only behind those
-- that it references.
use database_flashback.Base.{
  ℕ, zero, suc, ◌+◌, ◌≤◌, ◌≡◌, refl, sym, ◌∙◌, ap, true, false, List, [], ◌∷◌, ◌++◌, Bytes,
  eq_bytes, eq_bytes_refl, eq_bytes_sound, if◌then◌else◌, length, All, arith, Bool-cases, inl, inr,
  ok, ◌==◌, List-cases, length-append,
}
use database_flashback.Base.Names.{
  has, count, count-append, count-has, count-Distinct, length-le_of_count, Distinct,
}
use database_flashback.Base.Int.{pos}
use database_flashback.Connector.Tables.{
  FkConstraint, Graph, Sorting, Degrees, degree, reduce_child, reduce_children, take_node,
  kahn_loop, first_queue, first_sorting, graph_of,
}
use database_flashback.Connector.Tables.Edges.{
  edges, missing, children_of, degree-Counts, graph_of-Counts, graph_of-children, children_of-known,
  missing-take, missing-unknown,
}

-- 1 while `n` edges are open.
abbrev open_one : ℕ → ℕ
open_one n = if n == 0 then 0 else 1

module _ (tables : List Bytes) where
  -- `w t` edges into `t` are open, and each table is open, queued or taken as often as it is given.
  pub record Keeps (w : Bytes → ℕ) (s : Sorting) : Type 0 where
    pub degrees : (t : Bytes) → has t tables ≡ true → degree s.in_degree t ≡ pos (w t)
    pub places : (t : Bytes) → count t s.queue + count t s.ordered + open_one (w t) ≡ count t tables

  reduce_child-Keeps :
      (w : Bytes → ℕ) (c : Bytes) (cs : List Bytes) (s : Sorting)
      → has c tables ≡ true
      → Keeps (λ t. w t + count t (c ∷ cs)) s
      → Keeps (λ t. w t + count t cs) (reduce_child c s)
  unfolding reduce_child count
  reduce_child-Keeps w c cs s known h =
      let now : degree s.in_degree c ≡ pos (suc (w c + count c cs)) =
        ground (arith, h.degrees c known, eq_bytes_refl c) in
      record {
        degrees = λ t k. elim (Bool-cases (eq_bytes c t)) [
          | inl same ↦ rw (same, now) (ground (arith, eq_bytes_sound c t same))
          | inr differs ↦ rw differs (ground (arith, h.degrees t k))
        ];
        places = λ t.
            rw (eq_bytes_refl c, now)
              (elim (Bool-cases (eq_bytes c t)) [
                | inl same ↦
                    ground
                      (arith, h.places t, eq_bytes_sound c t same, count-append t s.queue (c ∷ []))
                | inr differs ↦ ground (arith, h.places t, count-append t s.queue (c ∷ []))
              ]);
      }

  Keeps-ext : (v w : Bytes → ℕ) (s : Sorting) → ((t : Bytes) → v t ≡ w t) → Keeps v s → Keeps w s
  Keeps-ext v w s e h = record {
    degrees = λ t k. rw (← e t) (h.degrees t k);
    places = λ t. rw (← e t) (h.places t);
  }

  reduce_children-Keeps :
      (w : Bytes → ℕ) (cs : List Bytes) (s : Sorting)
      → All (λ t. has t tables ≡ true) cs
      → Keeps (λ t. w t + count t cs) s
      → Keeps w (reduce_children cs s)
  unfolding reduce_children
  reduce_children-Keeps w [] s known h =
      Keeps-ext (λ t. w t + count t []) w s (λ t. unfold count in omega arith) h
  reduce_children-Keeps w (c ∷ cs) s known h =
      reduce_children-Keeps w cs (reduce_child c s) known.1 (reduce_child-Keeps w c cs s known.0 h)

  ordered-reduce_children :
      (cs : List Bytes) (s : Sorting) → (reduce_children cs s).ordered ≡ s.ordered
  unfolding reduce_children reduce_child
  ordered-reduce_children [] s = refl
  ordered-reduce_children (c ∷ cs) s = ordered-reduce_children cs (reduce_child c s)

-- The tables occur once each, and the constraints are any.
module _ (tables : List Bytes) (constraints : List FkConstraint) (distinct : Distinct tables) where
  abbrev es : List FkConstraint
  es = edges tables constraints

  abbrev g : Graph
  g = graph_of tables constraints

  -- What holds at the head of the loop.
  abbrev pub Inv : Sorting → Type 0
  Inv s = Keeps tables (λ t. missing t s.ordered es) s

  pub queued-places :
      (s : Sorting) (u : Bytes) (rest : List Bytes)
      → Inv s
      → s.queue ≡ u ∷ rest
      → (has u s.ordered ≡ false) × (missing u s.ordered es ≡ 0)
  unfolding count
  queued-places s u rest h e =
      let once = count-Distinct u tables distinct in
      let here : 1 ≤ count u s.queue = rw e (ground (arith, eq_bytes_refl u)) in
      let sum = h.places u in
      elim (Bool-cases (has u s.ordered)) [
        | inl again ↦ absurd (omega (arith, count-has u s.ordered again))
        | inr new ↦ (new, ground (arith, sum, once, here))
      ]

  pub ordered-take_node :
      (s : Sorting) (u : Bytes) (rest : List Bytes)
      → (take_node g u rest s).ordered ≡ s.ordered ++ u ∷ []
  unfolding take_node
  ordered-take_node s u rest = ordered-reduce_children tables (g.children u) _

  take_node-Inv :
      (s : Sorting) (u : Bytes) (rest : List Bytes)
      → Inv s
      → s.queue ≡ u ∷ rest
      → Inv (take_node g u rest s)
  unfolding take_node count
  take_node-Inv s u rest h e =
      let new = (queued-places s u rest h e).0 in
      let split = λ (t : Bytes). missing-take tables u t s.ordered es new in
      let moved : Sorting = record s { queue = rest; ordered = s.ordered ++ u ∷ [] } in
      let start : Keeps tables
          (λ t. missing t (s.ordered ++ u ∷ []) es + count t (children_of u es)) moved =
        record {
          degrees = λ t k. rw (← split t) (h.degrees t k);
          places = λ t.
              rw (← split t)
                (ground (arith, h.places t, ap (count t) e, count-append t s.ordered (u ∷ [])));
        } in
      Keeps-ext tables (λ t. missing t (s.ordered ++ u ∷ []) es) _ _
        (λ t. ap (λ o. missing t o es) (sym (ordered-take_node s u rest)))
        (rw (graph_of-children tables constraints u) (
          reduce_children-Keeps tables _ (children_of u es) moved
            (children_of-known tables u constraints) start))

  first_queue-count :
      (m : Degrees) (ts : List Bytes)
      → ((t : Bytes) → has t ts ≡ true → degree m t ≡ pos (missing t [] es))
      → (t : Bytes)
      → count t (first_queue m ts) + (if missing t [] es == 0 then 0 else count t ts) ≡ count t ts
  unfolding first_queue count has
  first_queue-count m [] h t = ground arith
  first_queue-count m (x ∷ xs) h t =
      let rest = first_queue-count m xs (λ u k. h u (ground arith)) t in
      let known : has x (x ∷ xs) ≡ true = ground (arith, eq_bytes_refl x) in
      let now = h x known in
      elim (Bool-cases (eq_bytes x t)) [
        | inl same ↦
            ground (arith, now, rest, same, ap (λ u. missing u [] es) (eq_bytes_sound x t same))
        | inr differs ↦ ground (arith, now, rest, differs)
      ]

  pub first_sorting-Inv : Inv (first_sorting tables g)
  unfolding first_sorting count
  first_sorting-Inv =
      let counted = λ (t : Bytes) (k : has t tables ≡ true).
        degree-Counts tables _ g.in_degree t k (graph_of-Counts tables constraints) in
      record {
        degrees = counted;
        places = λ t.
            let queued = first_queue-count g.in_degree tables counted t in
            let once = count-Distinct t tables distinct in
            elim (Bool-cases (has t tables)) [
              | inl k ↦ ground (arith, queued, once, count-has t tables k)
              | inr k ↦ ground (arith, queued, missing-unknown tables t [] constraints k)
            ];
      }

  kahn_loop-next :
      (fuel : ℕ) (s : Sorting) (u : Bytes) (rest : List Bytes)
      → s.queue ≡ u ∷ rest
      → kahn_loop g (suc fuel) s ≡ kahn_loop g fuel (take_node g u rest s)
  unfolding kahn_loop
  kahn_loop-next fuel s u rest e = ground (arith, e)

  room : (s : Sorting) → Inv s → length s.queue + length s.ordered ≤ length tables
  room s h =
      let bound =
        length-le_of_count (s.queue ++ s.ordered) tables
          (λ t. omega (arith, count-append t s.queue s.ordered, h.places t)) in
      omega (arith, bound, length-append s.queue s.ordered)

  -- The loop ends with an empty queue within one round for each table, and keeps what each round keeps.
  pub kahn_loop-Ends :
      (P : Sorting → Type 0)
      → ((s : Sorting) (u : Bytes) (rest : List Bytes)
          → Inv s
          → s.queue ≡ u ∷ rest
          → P s
          → P (take_node g u rest s))
      → (fuel : ℕ) (s : Sorting) → length tables ≤ fuel + length s.ordered
      → Inv s
      → P s
      → (end : Sorting) × (kahn_loop g fuel s ≡ ok end) × (end.queue ≡ []) × Inv end × P end
  unfolding kahn_loop
  kahn_loop-Ends P keep zero s enough h p = elim (List-cases s.queue) [
    | inl empty ↦ (s, ground arith, empty, h, p)
    | inr (u, rest, e) ↦ absurd (omega (arith, room s h, ap (length {0} {A = Bytes}) e))
  ]
  kahn_loop-Ends P keep (suc fuel) s enough h p = elim (List-cases s.queue) [
    | inl empty ↦ (s, ground arith, empty, h, p)
    | inr (u, rest, e) ↦
        let grown = ordered-take_node s u rest in
        let more : length tables ≤ fuel + length (take_node g u rest s).ordered =
          rw grown (omega (arith, length-append s.ordered (u ∷ []))) in
        let (end, runs, empty, inv, kept) =
          kahn_loop-Ends P keep fuel (take_node g u rest s) more (take_node-Inv s u rest h e)
            (keep s u rest h e p) in
        (end, kahn_loop-next fuel s u rest e ∙ runs, empty, inv, kept)
  ]
