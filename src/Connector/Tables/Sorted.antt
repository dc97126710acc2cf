-- ===== src/Connector/Tables/Sorted.antt =====
-- internal/connector/fk.go: what `topoSort` returns.
use database_flashback.Base.{
  ℕ, suc, ◌<◌, ◌≡◌, refl, Bool, true, false, List, [], ◌∷◌, ◌++◌, Bytes, eq_bytes, eq_bytes_refl,
  eq_bytes_sound, All, arith, Bool-cases, inl, inr, ok, ◌&&◌, ◌||◌, append-nil,
}
use database_flashback.Base.Names.{has, count, Distinct, has-append, has-same}
use database_flashback.Connector.Tables.{FkConstraint, topo_sort, unseen}
use database_flashback.Connector.Tables.Edges.{edges, between}
use database_flashback.Connector.Tables.Order.{
  before, precedes, before_new, Behind, All-Behind, unseen_none, topo_sort-Sorted, count-Sorted,
  reached,
}

-- For distinct tables and any constraints, `topoSort` returns, and each table stands in the result
-- once: a cycle among the tables neither loses nor repeats one.
pub topo_sort-count :
    (tables : List Bytes) (constraints : List FkConstraint)
    → Distinct tables
    → (result : List Bytes) × (topo_sort tables constraints ≡ ok result)
      × ((t : Bytes) → count t result ≡ count t tables)
topo_sort-count tables constraints distinct =
    let (end, h) = topo_sort-Sorted tables constraints distinct in
    (
      end.ordered ++ unseen end.ordered tables,
      h.runs,
      count-Sorted tables constraints distinct end h,
    )

All-tables :
    (tables seen : List Bytes) (ts : List Bytes)
    → ((t : Bytes) → has t tables ≡ true → has t seen ≡ true)
    → ((t : Bytes) → has t ts ≡ true → has t tables ≡ true)
    → All (λ t. has t seen ≡ true) ts
unfolding has
All-tables tables seen [] h k = tt
All-tables tables seen (t ∷ ts) h k = (
  h t (k t (ground (arith, eq_bytes_refl t))),
  All-tables tables seen ts h (λ u m. k u (ground arith)),
)

edges-known :
    (tables seen : List Bytes) (cs : List FkConstraint)
    → ((t : Bytes) → has t tables ≡ true → has t seen ≡ true)
    → All (λ c. has c.table_name seen ≡ true) (edges tables cs)
unfolding edges between
edges-known tables seen [] h = tt
edges-known tables seen (c ∷ cs) h = elim (Bool-cases (between tables c)) [
  | inl edge ↦ rw edge (h c.table_name (ground (arith, edge)), edges-known tables seen cs h)
  | inr other ↦ rw other (edges-known tables seen cs h)
]

-- For distinct tables whose constraints have no cycle (each referenced table has a lower rank than
-- the table that references it), `topoSort` returns an order in which every table stands behind all
-- the tables that it references.
pub topo_sort-precedes :
    (tables : List Bytes) (constraints : List FkConstraint) (rank : Bytes → ℕ)
    → Distinct tables
    → All (λ c. rank c.ref_table_name < rank c.table_name) (edges tables constraints)
    → (result : List Bytes) × (topo_sort tables constraints ≡ ok result)
      × All (λ c. precedes c.ref_table_name c.table_name result ≡ true) (edges tables constraints)
topo_sort-precedes tables constraints rank distinct acyclic =
    let (end, h) = topo_sort-Sorted tables constraints distinct in
    let all = λ (t : Bytes) (k : has t tables ≡ true).
      reached tables constraints distinct rank end h acyclic (suc (rank t)) t (omega arith) k in
    let nothing_left =
      unseen_none end.ordered tables (All-tables tables end.ordered tables all (λ t k. k)) in
    (
      end.ordered,
      rw (← append-nil end.ordered) (rw (← nothing_left) h.runs),
      All-Behind end.ordered (edges tables constraints)
          (edges-known tables end.ordered constraints all) h.behind,
    )

-- Some constraint says that `child` references `parent`.
unfoldable pub references : Bytes → Bytes → List FkConstraint → Bool
references child parent [] = false
references child parent (c ∷ cs) =
    (eq_bytes c.table_name child && eq_bytes c.ref_table_name parent) || references child parent cs

Behind-references :
    (tables seen : List Bytes) (cs : List FkConstraint) (child parent : Bytes)
    → has child tables ≡ true
    → has parent tables ≡ true
    → references child parent cs ≡ true
    → All (Behind seen) (edges tables cs)
    → has child seen ≡ true
    → precedes parent child seen ≡ true
unfolding references edges between
Behind-references tables seen [] child parent c_known p_known r h k = cc
Behind-references tables seen (c ∷ cs) child parent c_known p_known r h k =
    elim (Bool-cases (eq_bytes c.table_name child && eq_bytes c.ref_table_name parent)) [
      | inl here ↦
          let c_same = eq_bytes_sound c.table_name child (ground (arith, here)) in
          let p_same = eq_bytes_sound c.ref_table_name parent (ground (arith, here)) in
          let edge : between tables c ≡ true = rw (c_same, p_same, c_known, p_known) refl in
          let behind = rw edge at h in rw (← c_same, ← p_same) (behind.0 (rw c_same k))
      | inr elsewhere ↦
          let later : references child parent cs ≡ true = ground (arith, r, elsewhere) in
          elim (Bool-cases (between tables c)) [
            | inl edge ↦
                Behind-references tables seen cs child parent c_known p_known later (rw edge at h).1
                  k
            | inr other ↦
                Behind-references tables seen cs child parent c_known p_known later (rw other at h)
                  k
          ]
    ]

has-before : (p c : Bytes) (xs : List Bytes) → precedes p c xs ≡ true → has p xs ≡ true
unfolding before has
has-before p c [] h = h
has-before p c (x ∷ xs) h = ground (arith, has-before p c xs)

precedes_self : (p : Bytes) (xs : List Bytes) → precedes p p xs ≡ false
unfolding before has
precedes_self p [] = refl
precedes_self p (x ∷ xs) = ground (arith, precedes_self p xs)

precedes-unseen :
    (p c : Bytes) (seen ts : List Bytes)
    → has p seen ≡ false
    → has c seen ≡ false
    → precedes c p ts ≡ true
    → precedes c p (unseen seen ts) ≡ true
unfolding before has unseen
precedes-unseen p c seen [] hp hc h = h
precedes-unseen p c seen (t ∷ ts) hp hc h =
    ground (arith, precedes-unseen p c seen ts, has-same t c seen)

-- A table that references itself is never taken by the loop, and neither is a table that references
-- it: for distinct tables of which `child` is given in front of such a `parent`, the result has
-- `child` in front of `parent` too.
pub topo_sort_self_reference :
    (tables : List Bytes) (constraints : List FkConstraint) (child parent : Bytes)
    → Distinct tables
    → has child tables ≡ true
    → has parent tables ≡ true
    → references parent parent constraints ≡ true
    → references child parent constraints ≡ true
    → precedes child parent tables ≡ true
    → (result : List Bytes) × (topo_sort tables constraints ≡ ok result)
      × (precedes child parent result ≡ true)
topo_sort_self_reference tables constraints child parent distinct c_known p_known self r first =
    let (end, h) = topo_sort-Sorted tables constraints distinct in
    let parent_left : has parent end.ordered ≡ false = elim (Bool-cases (has parent end.ordered)) [
      | inr left ↦ left
      | inl taken ↦
          let loops =
            Behind-references tables end.ordered constraints parent parent p_known p_known self
              h.behind taken in
          absurd (ground (arith, loops, precedes_self parent end.ordered))
    ] in
    let child_left : has child end.ordered ≡ false = elim (Bool-cases (has child end.ordered)) [
      | inr left ↦ left
      | inl taken ↦
          let loops =
            Behind-references tables end.ordered constraints child parent c_known p_known r h.behind
              taken in
          ground (arith, loops, parent_left, has-before parent child end.ordered)
    ] in
    (
      end.ordered ++ unseen end.ordered tables,
      h.runs,
      rw (before_new parent end.ordered (unseen end.ordered tables) parent_left) (
          ground (
            arith,
            has-append child end.ordered (before parent (unseen end.ordered tables)),
            precedes-unseen parent child end.ordered tables parent_left child_left first,
          )),
    )
