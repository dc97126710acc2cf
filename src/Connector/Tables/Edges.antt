-- ===== src/Connector/Tables/Edges.antt =====
-- internal/connector/fk.go: the edges that the constraints give, and what the maps say of them.
use database_flashback.Base.{
  ℕ, suc, ◌+◌, ◌≡◌, refl, ap, Bool, true, false, ◌&&◌, none, some, List, [], ◌∷◌, ◌++◌, Bytes,
  eq_bytes, eq_bytes_sound, if◌then◌else◌, All, arith, append_assoc, Bool-cases, inl, inr, ◌∙◌,
  append-nil,
}
use database_flashback.Base.Names.{has, count, has-append, has-same, eq_bytes_sym}
use database_flashback.Base.Int.{pos}
use database_flashback.Connector.Tables.{
  FkConstraint, Graph, Degrees, degree, put, zero_degrees, add_constraint, add_constraints,
  graph_of,
}

-- The constraints between two of the tables.
unfoldable pub between : List Bytes → FkConstraint → Bool
unfolding has
between tables c = has c.ref_table_name tables && has c.table_name tables

unfoldable pub edges : List Bytes → List FkConstraint → List FkConstraint
unfolding between
edges tables [] = []
edges tables (c ∷ cs) = if between tables c then c ∷ edges tables cs else edges tables cs

-- How many edges lead into `t` from a table that is not in `seen`.
unfoldable pub missing : Bytes → List Bytes → List FkConstraint → ℕ
missing t seen [] = 0
missing t seen (c ∷ cs) =
    (if eq_bytes c.table_name t then (if has c.ref_table_name seen then 0 else 1) else 0)
    + missing t seen cs

-- The tables that reference `p`, once for each edge.
unfoldable pub children_of : Bytes → List FkConstraint → List Bytes
children_of p [] = []
children_of p (c ∷ cs) =
    if eq_bytes c.ref_table_name p then c.table_name ∷ children_of p cs else children_of p cs

children_of-cons :
    (p : Bytes) (c : FkConstraint) (cs : List FkConstraint)
    → children_of p (c ∷ []) ++ children_of p cs ≡ children_of p (c ∷ cs)
unfolding children_of
children_of-cons p c cs = ground arith

module _ (tables : List Bytes) where
  zero_degrees_lem :
      (ts : List Bytes) (m : Degrees) (t : Bytes)
      → zero_degrees ts m t ≡ (if has t ts then some (pos 0) else m t)
  unfolding zero_degrees has
  zero_degrees_lem [] m t = refl
  zero_degrees_lem (x ∷ xs) m t = ground (arith, zero_degrees_lem xs (put m x (pos 0)) t)

  -- The map has an entry for each table, and counts by `f`.
  pub record Counts (f : Bytes → ℕ) (m : Degrees) : Type 0 where
    pub at : (t : Bytes) → m t ≡ (if has t tables then some (pos (f t)) else none)

  abbrev more : FkConstraint → (Bytes → ℕ) → Bytes → ℕ
  more c f t = if eq_bytes c.table_name t then suc (f t) else f t

  pub degree-Counts :
      (f : Bytes → ℕ) (m : Degrees) (t : Bytes)
      → has t tables ≡ true
      → Counts f m
      → degree m t ≡ pos (f t)
  degree-Counts f m t known h = ground (arith, h.at t)

  add_constraint-Counts :
      (c : FkConstraint) (f : Bytes → ℕ) (g : Graph)
      → between tables c ≡ true
      → Counts f g.in_degree
      → Counts (more c f) (add_constraint c g).in_degree
  unfolding add_constraint between
  add_constraint-Counts c f g b h = record {
    at = λ t.
        let child : has c.table_name tables ≡ true = ground (arith, b) in
        let parent : has c.ref_table_name tables ≡ true = ground (arith, b) in
        elim (Bool-cases (eq_bytes c.table_name t)) [
          | inl same ↦
              rw
                (
                  h.at c.ref_table_name,
                  parent,
                  degree-Counts f g.in_degree c.table_name child h,
                  h.at c.table_name,
                  child,
                  same,
                  ← eq_bytes_sound c.table_name t same,
                  child,
                )
                refl
          | inr differs ↦
              rw (h.at c.ref_table_name, parent, h.at c.table_name, child, differs) (h.at t)
        ];
  }

  add_constraint-children :
      (c : FkConstraint) (f : Bytes → ℕ) (g : Graph) (p : Bytes)
      → between tables c ≡ true
      → Counts f g.in_degree
      → (add_constraint c g).children p ≡ g.children p ++ children_of p (c ∷ [])
  unfolding add_constraint between children_of
  add_constraint-children c f g p b h =
      let child : has c.table_name tables ≡ true = ground (arith, b) in
      let parent : has c.ref_table_name tables ≡ true = ground (arith, b) in
      rw (h.at c.ref_table_name, parent, h.at c.table_name, child)
        (ground (arith, append-nil (g.children p)))

  add_constraint_skips :
      (c : FkConstraint) (f : Bytes → ℕ) (g : Graph)
      → between tables c ≡ false
      → Counts f g.in_degree
      → add_constraint c g ≡ g
  unfolding add_constraint between
  add_constraint_skips c f g b h = elim (Bool-cases (has c.ref_table_name tables)) [
    | inl parent ↦
        let child : has c.table_name tables ≡ false = ground (arith, b) in
        rw (h.at c.ref_table_name, parent, h.at c.table_name, child) refl
    | inr none_there ↦ rw (h.at c.ref_table_name, none_there) refl
  ]

  abbrev all_more : List FkConstraint → (Bytes → ℕ) → Bytes → ℕ
  all_more es f t = f t + missing t [] es

  Counts-ext : (f g : Bytes → ℕ) (m : Degrees) → ((t : Bytes) → f t ≡ g t) → Counts f m → Counts g m
  Counts-ext f g m e h = record { at = λ t. rw (← e t) (h.at t) }

  add_constraints-Counts :
      (cs : List FkConstraint) (f : Bytes → ℕ) (g : Graph)
      → Counts f g.in_degree
      → Counts (all_more (edges tables cs) f) (add_constraints cs g).in_degree
  unfolding add_constraints edges missing has
  add_constraints-Counts [] f g h = Counts-ext f _ g.in_degree (λ t. omega arith) h
  add_constraints-Counts (c ∷ cs) f g h = elim (Bool-cases (between tables c)) [
    | inl b ↦ rw b (
        Counts-ext (all_more (edges tables cs) (more c f)) _ _ (λ t. ground arith)
          (add_constraints-Counts cs (more c f) (add_constraint c g)
            (add_constraint-Counts c f g b h)))
    | inr b ↦
        rw b
          (rw (add_constraint_skips c f g b h, add_constraints) (add_constraints-Counts cs f g h))
  ]

  add_constraints-children :
      (cs : List FkConstraint) (f : Bytes → ℕ) (g : Graph) (p : Bytes)
      → Counts f g.in_degree
      → (add_constraints cs g).children p ≡ g.children p ++ children_of p (edges tables cs)
  unfolding add_constraints edges
  add_constraints-children [] f g p h = unfold children_of in rw append-nil refl
  add_constraints-children (c ∷ cs) f g p h = elim (Bool-cases (between tables c)) [
    | inl b ↦
        rw
          (
            b,
            add_constraints-children cs (more c f) (add_constraint c g) p
                (add_constraint-Counts c f g b h),
            add_constraint-children c f g p b h,
          )
          (append_assoc (g.children p) _ _
            ∙ ap (λ r. g.children p ++ r) (children_of-cons p c (edges tables cs)))
    | inr b ↦
        rw b (
          rw (add_constraint_skips c f g b h, add_constraints)
            (add_constraints-children cs f g p h))
  ]

  -- What `topoSort` builds before its loop.
  pub graph_of-Counts :
      (cs : List FkConstraint)
      → Counts (λ t. missing t [] (edges tables cs)) (graph_of tables cs).in_degree
  unfolding graph_of
  graph_of-Counts cs =
      let zeros : Counts (λ _. 0) (zero_degrees tables (λ _. none)) = record {
        at = λ t. zero_degrees_lem tables (λ _. none) t;
      } in
      Counts-ext _ _ _ (λ t. omega arith) (add_constraints-Counts cs (λ _. 0) _ zeros)

  pub graph_of-children :
      (cs : List FkConstraint) (p : Bytes)
      → (graph_of tables cs).children p ≡ children_of p (edges tables cs)
  unfolding graph_of
  graph_of-children cs p =
      let zeros : Counts (λ _. 0) (zero_degrees tables (λ _. none)) = record {
        at = λ t. zero_degrees_lem tables (λ _. none) t;
      } in
      add_constraints-children cs (λ _. 0) _ p zeros

  pub children_of-known :
      (p : Bytes) (cs : List FkConstraint)
      → All (λ t. has t tables ≡ true) (children_of p (edges tables cs))
  unfolding children_of edges between
  children_of-known p [] = tt
  children_of-known p (c ∷ cs) = ground (arith, children_of-known p cs)

  -- An edge into a table counts only while the other end has not been taken.
  pub missing-take :
      (u t : Bytes) (seen : List Bytes) (es : List FkConstraint)
      → has u seen ≡ false
      → missing t seen es ≡ missing t (seen ++ u ∷ []) es + count t (children_of u es)
  unfolding missing children_of count has
  missing-take u t seen [] h = omega arith
  missing-take u t seen (c ∷ cs) h = ground (
    arith,
    missing-take u t seen cs h,
    has-append c.ref_table_name seen (u ∷ []),
    eq_bytes_sym u c.ref_table_name,
    has-same c.ref_table_name u seen,
  )

  pub missing-unknown :
      (t : Bytes) (seen : List Bytes) (cs : List FkConstraint)
      → has t tables ≡ false
      → missing t seen (edges tables cs) ≡ 0
  unfolding missing edges between
  missing-unknown t seen [] h = refl
  missing-unknown t seen (c ∷ cs) h =
      ground (arith, missing-unknown t seen cs h, has-same c.table_name t tables)
