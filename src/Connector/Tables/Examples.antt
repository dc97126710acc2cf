-- ===== src/Connector/Tables/Examples.antt =====
-- internal/connector/fk.go on small inputs.
use database_flashback.Base.{
  ℕ, ◌≡◌, refl, true, List, [], ◌∷◌, text, Bytes, ok, All, eq_bytes, if◌then◌else◌, arith,
}
use database_flashback.Base.Names.{has, count, Distinct}
use database_flashback.Connector.Tables.{FkConstraint, topo_sort}
use database_flashback.Connector.Tables.Edges.{edges, between}
use database_flashback.Connector.Tables.Order.{before, precedes}
use database_flashback.Connector.Tables.Sorted.{
  topo_sort-count, topo_sort-precedes, topo_sort_self_reference, references,
}

abbrev tables : List Bytes
tables = text "item" ∷ text "order" ∷ text "user" ∷ text "log" ∷ []

abbrev fk : Bytes → Bytes → FkConstraint
fk child parent = record { table_name = child; ref_table_name = parent }

abbrev constraints : List FkConstraint
constraints =
    fk (text "item") (text "order")
    ∷ fk (text "order") (text "user")
    ∷ fk (text "item") (text "other")
    ∷ []

topo_sort_runs :
    topo_sort tables constraints ≡ ok (text "user" ∷ text "log" ∷ text "order" ∷ text "item" ∷ [])
unfolding topo_sort
topo_sort_runs = refl

tables-Distinct : Distinct tables
tables-Distinct = ((refl, (refl, (refl, tt))), ((refl, (refl, tt)), ((refl, tt), (tt, tt))))

topo_sort-count_example :
    (result : List Bytes) × (topo_sort tables constraints ≡ ok result)
    × ((t : Bytes) → count t result ≡ count t tables)
topo_sort-count_example = topo_sort-count tables constraints tables-Distinct

abbrev rank : Bytes → ℕ
rank t = if eq_bytes t (text "item") then 2 else if eq_bytes t (text "order") then 1 else 0

topo_sort-precedes_example :
    (result : List Bytes) × (topo_sort tables constraints ≡ ok result)
    × All (λ c. precedes c.ref_table_name c.table_name result ≡ true) (edges tables constraints)
unfolding edges between has
topo_sort-precedes_example =
    topo_sort-precedes tables constraints rank tables-Distinct (omega arith)

-- Users have a manager who is a user, and orders belong to users.
abbrev managed : List FkConstraint
managed = fk (text "user") (text "user") ∷ fk (text "order") (text "user") ∷ []

topo_sort_self_reference_example :
    (result : List Bytes) × (topo_sort tables managed ≡ ok result)
    × (precedes (text "order") (text "user") result ≡ true)
unfolding has references before
topo_sort_self_reference_example =
    topo_sort_self_reference tables managed (text "order") (text "user") tables-Distinct refl refl
      refl refl refl
