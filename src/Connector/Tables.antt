-- ===== src/Connector/Tables.antt =====
-- internal/connector/fk.go: `GetFKOrder` and `topoSort`. A Go map is a function into an option, `none`
-- for a key that is not there.
pub mod Edges
pub mod Loop
pub mod Order
pub mod Sorted
mod Examples
use database_flashback.Base.{
  ℕ, zero, suc, Bool, true, false, not, Option, none, some, List, [], ◌∷◌, ◌++◌, Bytes, eq_bytes,
  if◌then◌else◌, is_some, length, Result, ok, stuck, Try, done, fails, ◌==◌,
}
use database_flashback.Base.Int.{ℤ, pos, negsuc}
use database_flashback.Base.Names.{has}

pub record FkConstraint : Type 0 where
  pub table_name : Bytes
  pub ref_table_name : Bytes

-- `map[string]int`: whether there is an entry, the value read (0 without one), and a write.
abbrev pub Degrees : Type 0
Degrees = Bytes → Option ℤ

abbrev or_zero : Option ℤ → ℤ
or_zero none = pos 0
or_zero (some d) = d

abbrev pub degree : Degrees → Bytes → ℤ
degree m t = or_zero (m t)

abbrev pub put {ℓ} : {V : Type ℓ} → (Bytes → Option V) → Bytes → V → Bytes → Option V
put m t v u = if eq_bytes t u then some v else m u

abbrev succ : ℤ → ℤ
succ (pos n) = pos (suc n)
succ (negsuc zero) = pos 0
succ (negsuc (suc n)) = negsuc n

abbrev pred : ℤ → ℤ
pred (pos zero) = negsuc 0
pred (pos (suc n)) = pos n
pred (negsuc n) = negsuc (suc n)

abbrev pub is_zero : ℤ → Bool
is_zero (pos n) = n == 0
is_zero (negsuc n) = false

-- `inDegree` and `children`.
pub record Graph : Type 0 where
  pub in_degree : Degrees
  pub children : Bytes → List Bytes

pub zero_degrees : List Bytes → Degrees → Degrees
zero_degrees [] m = m
zero_degrees (t ∷ ts) m = zero_degrees ts (put m t (pos 0))

-- One constraint; both of its ends have to be among the tables.
pub add_constraint : FkConstraint → Graph → Graph
add_constraint c g =
    if is_some (g.in_degree c.ref_table_name)
    then (if is_some (g.in_degree c.table_name)
        then record {
          in_degree = put g.in_degree c.table_name (succ (degree g.in_degree c.table_name));
          children = λ p.
              if eq_bytes c.ref_table_name p
              then g.children p ++ c.table_name ∷ []
              else g.children p;
        }
        else g)
    else g

pub add_constraints : List FkConstraint → Graph → Graph
unfolding add_constraint
add_constraints [] g = g
add_constraints (c ∷ cs) g = add_constraints cs (add_constraint c g)

-- The tables with no incoming edge, in their order.
pub first_queue : Degrees → List Bytes → List Bytes
first_queue m [] = []
first_queue m (t ∷ ts) = if is_zero (degree m t) then t ∷ first_queue m ts else first_queue m ts

pub record Sorting : Type 0 where
  pub in_degree : Degrees
  pub queue : List Bytes
  pub ordered : List Bytes

-- The body of the loop over the children of a node.
pub reduce_child : Bytes → Sorting → Sorting
reduce_child child s =
    let m = put s.in_degree child (pred (degree s.in_degree child)) in
    record s {
      in_degree = m;
      queue = if is_zero (degree m child) then s.queue ++ child ∷ [] else s.queue;
    }

pub reduce_children : List Bytes → Sorting → Sorting
unfolding reduce_child
reduce_children [] s = s
reduce_children (c ∷ cs) s = reduce_children cs (reduce_child c s)

-- One round of Kahn's loop, and the loop.
pub take_node : Graph → Bytes → List Bytes → Sorting → Sorting
unfolding reduce_children
take_node g node rest s =
    reduce_children (g.children node) (record s { queue = rest; ordered = s.ordered ++ node ∷ [] })

pub kahn_loop : Graph → ℕ → Sorting → Result Sorting
unfolding take_node
kahn_loop g zero s = elim s.queue [ [] ↦ ok s | _ ∷ _ ↦ stuck ]
kahn_loop g (suc fuel) s = elim s.queue [
  | [] ↦ ok s
  | node ∷ rest ↦ kahn_loop g fuel (take_node g node rest s)
]

-- The tables that the loop did not reach; `seen` holds what it did reach.
pub unseen : List Bytes → List Bytes → List Bytes
unfolding has
unseen seen [] = []
unseen seen (t ∷ ts) = if not (has t seen) then t ∷ unseen seen ts else unseen seen ts

pub graph_of : List Bytes → List FkConstraint → Graph
unfolding zero_degrees add_constraints
graph_of tables constraints =
    add_constraints constraints
      (record { in_degree = zero_degrees tables (λ _. none); children = λ _. [] })

pub first_sorting : List Bytes → Graph → Sorting
unfolding first_queue
first_sorting tables g = record {
  in_degree = g.in_degree;
  queue = first_queue g.in_degree tables;
  ordered = [];
}

abbrev pub sorted_tables : List Bytes → Result Sorting → Result (List Bytes)
sorted_tables tables (ok s) = ok (s.ordered ++ unseen s.ordered tables)
sorted_tables tables stuck = stuck
sorted_tables tables (Result.err e) = Result.err e
sorted_tables tables Result.panic = Result.panic

pub topo_sort : List Bytes → List FkConstraint → Result (List Bytes)
unfolding kahn_loop graph_of first_sorting unseen
topo_sort [] constraints = ok []
topo_sort (t ∷ ts) constraints =
    let tables = t ∷ ts in
    let g = graph_of tables constraints in
    sorted_tables tables (kahn_loop g (length tables) (first_sorting tables g))

-- `GetFKOrder`. The query of the information schema is the database's, so it is a parameter.
get_fk_order : (List Bytes → Try (List FkConstraint)) → List Bytes → Result (List Bytes)
unfolding topo_sort
get_fk_order query [] = ok []
get_fk_order query (t ∷ ts) = elim (query (t ∷ ts)) [
  | fails e ↦ Result.err e
  | done constraints ↦ topo_sort (t ∷ ts) constraints
]
