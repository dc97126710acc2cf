-- ===== src/Connector/Tables/Order.antt =====
-- internal/connector/fk.go: the order of the result.
use database_flashback.Base.{
  ℕ, zero, suc, ◌≤◌, ◌<◌, ◌≡◌, refl, ap, ◌∙◌, Bool, true, false, List, [], ◌∷◌, ◌++◌, Bytes,
  eq_bytes, eq_bytes_sound, if◌then◌else◌, length, All, arith, Bool-cases, inl, inr, ok, not, ◌&&◌,
}
use database_flashback.Base.Names.{
  has, count, count-append, count-missing, count-has, count-Distinct, Distinct, eq_bytes_sym,
  has-append, has-same,
}
use database_flashback.Connector.Tables.{
  FkConstraint, Sorting, kahn_loop, first_sorting, graph_of, topo_sort, unseen, sorted_tables,
}
use database_flashback.Connector.Tables.Edges.{edges, missing, between}
use database_flashback.Connector.Tables.Loop.{
  Inv, queued-places, ordered-take_node, first_sorting-Inv, kahn_loop-Ends,
}

-- The names in front of the first `c`.
unfoldable pub before : Bytes → List Bytes → List Bytes
before c [] = []
before c (x ∷ xs) = if eq_bytes x c then [] else x ∷ before c xs

-- `p` stands somewhere in front of `c`.
abbrev pub precedes : Bytes → Bytes → List Bytes → Bool
precedes p c xs = has p (before c xs)

before-append :
    (c : Bytes) (xs ys : List Bytes) → has c xs ≡ true → before c (xs ++ ys) ≡ before c xs
unfolding before has
before-append c [] ys h = cc
before-append c (x ∷ xs) ys h = ground (arith, before-append c xs ys)

pub before_new :
    (c : Bytes) (xs ys : List Bytes) → has c xs ≡ false → before c (xs ++ ys) ≡ xs ++ before c ys
unfolding before has
before_new c [] ys h = refl
before_new c (x ∷ xs) ys h = ground (arith, before_new c xs ys)

topo_sort_loop :
    (tables : List Bytes) (constraints : List FkConstraint)
    → topo_sort tables constraints
      ≡ sorted_tables tables (
          kahn_loop
            (graph_of tables constraints)
            (length tables)
            (first_sorting tables (graph_of tables constraints)))
unfolding topo_sort kahn_loop first_sorting unseen
topo_sort_loop [] constraints = refl
topo_sort_loop (t ∷ ts) constraints = refl

-- Whoever is in the list has its parent in front.
abbrev pub Behind : List Bytes → FkConstraint → Type 0
Behind xs c = has c.table_name xs ≡ true → precedes c.ref_table_name c.table_name xs ≡ true

Behind-next :
    (u : Bytes) (seen : List Bytes) (c : FkConstraint) (cs : List FkConstraint)
    → has u seen ≡ false
    → missing u seen (c ∷ cs) ≡ 0
    → Behind seen c
    → Behind (seen ++ u ∷ []) c
unfolding missing
Behind-next u seen c cs new none_open h k = elim (Bool-cases (has c.table_name seen)) [
  | inl old ↦ rw (before-append c.table_name seen (u ∷ []) old) (h old)
  | inr late ↦
      let is_u : eq_bytes u c.table_name ≡ true =
        unfold has in ground (arith, has-append c.table_name seen (u ∷ []), k, late) in
      let parent : has c.ref_table_name seen ≡ true =
        ground (arith, none_open, eq_bytes_sym u c.table_name, is_u) in
      rw (before_new c.table_name seen (u ∷ []) late)
        (ground (arith, has-append c.ref_table_name seen (before c.table_name (u ∷ [])), parent))
]

All-next :
    (u : Bytes) (seen : List Bytes) (cs : List FkConstraint)
    → has u seen ≡ false
    → missing u seen cs ≡ 0
    → All (Behind seen) cs
    → All (Behind (seen ++ u ∷ [])) cs
All-next u seen [] new none_open h = tt
All-next u seen (c ∷ cs) new none_open h = (
  Behind-next u seen c cs new none_open h.0,
  All-next u seen cs new (unfold missing in omega (arith, none_open)) h.1,
)

pub All-Behind :
    (xs : List Bytes) (cs : List FkConstraint)
    → All (λ c. has c.table_name xs ≡ true) cs
    → All (Behind xs) cs
    → All (λ c. precedes c.ref_table_name c.table_name xs ≡ true) cs
All-Behind xs [] h k = tt
All-Behind xs (c ∷ cs) h k = (k.0 h.0, All-Behind xs cs h.1 k.1)

Behind-nil : (cs : List FkConstraint) → All (Behind []) cs
unfolding has
Behind-nil [] = tt
Behind-nil (c ∷ cs) = ((λ h. cc), Behind-nil cs)

count-unseen :
    (t : Bytes) (seen ts : List Bytes)
    → count t (unseen seen ts) ≡ (if has t seen then 0 else count t ts)
unfolding unseen count
count-unseen t seen [] = ground arith
count-unseen t seen (x ∷ xs) = ground (arith, count-unseen t seen xs, has-same x t seen)

pub unseen_none : (seen ts : List Bytes) → All (λ t. has t seen ≡ true) ts → unseen seen ts ≡ []
unfolding unseen
unseen_none seen [] h = refl
unseen_none seen (t ∷ ts) h = rw h.0 (unseen_none seen ts h.1)

module _ (tables : List Bytes) (constraints : List FkConstraint) (distinct : Distinct tables) where
  abbrev es : List FkConstraint
  es = edges tables constraints

  -- What the loop leaves behind.
  pub record Sorted (end : Sorting) : Type 0 where
    pub runs : topo_sort tables constraints ≡ ok (end.ordered ++ unseen end.ordered tables)
    pub empty : end.queue ≡ []
    pub inv : Inv tables constraints distinct end
    pub behind : All (Behind end.ordered) es

  pub topo_sort-Sorted : (end : Sorting) × Sorted end
  topo_sort-Sorted =
      let (end, stops, empty, inv, behind) =
        kahn_loop-Ends tables constraints distinct (λ s. All (Behind s.ordered) es)
          (λ s u rest h e b.
            let (new, none_open) = queued-places tables constraints distinct s u rest h e in
            rw (ordered-take_node tables constraints distinct s u rest)
              (All-next u s.ordered es new none_open b))
          (length tables) (first_sorting tables (graph_of tables constraints)) (omega arith)
          (first_sorting-Inv tables constraints distinct) (unfold first_sorting in Behind-nil es) in
      (
        end,
        record {
          runs = topo_sort_loop tables constraints ∙ ap (sorted_tables tables) stops;
          empty = empty;
          inv = inv;
          behind = behind;
        },
      )

  -- Each table is in the result as often as it is given.
  pub count-Sorted :
      (end : Sorting)
      → Sorted end
      → (t : Bytes) → count t (end.ordered ++ unseen end.ordered tables) ≡ count t tables
  count-Sorted end h t =
      let once = count-Distinct t tables distinct in
      let place = h.inv.places t in
      let queued : count t end.queue ≡ 0 = rw h.empty (unfold count in refl) in
      rw (count-append t end.ordered (unseen end.ordered tables), count-unseen t end.ordered tables)
        (elim (Bool-cases (has t end.ordered)) [
          | inl taken ↦ rw taken (omega (arith, count-has t end.ordered taken))
          | inr left ↦ rw (left, count-missing t end.ordered left) (omega arith)
        ])

  module _ (rank : Bytes → ℕ) where
    abbrev Acyclic : Type 0
    Acyclic = All (λ c. rank c.ref_table_name < rank c.table_name) es

    -- A table with an open edge has a parent of lower rank that has not been taken.
    blocked :
        (t : Bytes) (seen : List Bytes) (cs : List FkConstraint)
        → All (λ c. rank c.ref_table_name < rank c.table_name) (edges tables cs)
        → 1 ≤ missing t seen (edges tables cs)
        → (p : Bytes) × (has p tables ≡ true) × (has p seen ≡ false) × (rank p < rank t)
    unfolding edges missing between
    blocked t seen [] h m = absurd (omega arith)
    blocked t seen (c ∷ cs) h m = elim (Bool-cases (between tables c)) [
      | inr other ↦ blocked t seen cs (rw other at h) (rw other at m)
      | inl edge ↦
          let ranks = rw edge at h in
          let opened = rw edge at m in
          elim (Bool-cases (eq_bytes c.table_name t && not (has c.ref_table_name seen))) [
            | inl here ↦ (
              c.ref_table_name,
              ground (arith, edge),
              ground (arith, here),
              ground
                  (arith, ranks.0, ap rank (eq_bytes_sound c.table_name t (ground (arith, here)))),
            )
            | inr elsewhere ↦ blocked t seen cs ranks.1 (ground (arith, opened, elsewhere))
          ]
    ]

    pub reached :
        (end : Sorting)
        → Sorted end
        → Acyclic
        → (n : ℕ) (t : Bytes) → rank t < n
        → has t tables ≡ true
        → has t end.ordered ≡ true
    reached end h acyclic zero t low known = absurd (omega arith)
    reached end h acyclic (suc n) t low known = elim (Bool-cases (has t end.ordered)) [
      | inl taken ↦ taken
      | inr left ↦
          let queued : count t end.queue ≡ 0 = rw h.empty (unfold count in refl) in
          let waits : 1 ≤ missing t end.ordered es = ground (
            arith,
            h.inv.places t,
            queued,
            count-missing t end.ordered left,
            count-has t tables known,
          ) in
          let (p, p_known, p_left, lower) = blocked t end.ordered constraints acyclic waits in
          let p_taken = reached end h acyclic n p (omega arith) p_known in cc
    ]
