-- ===== src/Reverse/Undo.antt =====
-- internal/parser/reverse.go: the statements of a batch, run on the table that the events made, give
-- back the table the events began with. A table is a list of rows up to their order.
use database_flashback.Base.{
  ◌≡◌, refl, sym, ap, ◌∙◌, subst, ◌≢◌, none, List, [], ◌∷◌, ◌++◌, Bytes, map,
}
use mathlib.Core.List.{
  Mem, Perm, eq-or-mem_of_mem-cons, not-mem-nil, mem-cons_self, mem-cons_of_mem, mem_of_ne_of_mem,
  reverse,
}
use mathlib.Core.List
use database_flashback.Value.{Float, Image, RowEvent}
use database_flashback.Reverse.{batch_loop, reverse_sql_batch}
use database_flashback.Reverse.Statement.{Statement, run, run_all}
use database_flashback.Reverse.Render.{render}
use database_flashback.Base.Names.{Distinct}
use database_flashback.Reverse.Change.{Change, Shaped, Shaped-before, undo-Change}

-- What a list of events, the last one first, did to the table.
abbrev Past : List Bytes → List Image → List RowEvent → List Image → Type 0
Past cols rows [] final = final ≡ rows
Past cols rows (event ∷ earlier) final =
    (before : List Image) × Past cols rows earlier before × Change cols before final event

-- What a list of events did to the table, in the order in which they happened.
abbrev pub History : List Bytes → List Image → List RowEvent → List Image → Type 0
History cols rows [] final = final ≡ rows
History cols rows (event ∷ later) final =
    (next : List Image) × Change cols rows next event × History cols next later final

Past-append :
    (cols : List Bytes) (rows next final : List Image) (event : RowEvent) (events : List RowEvent)
    → Change cols rows next event
    → Past cols next events final
    → Past cols rows (events ++ (event ∷ [])) final
Past-append cols rows next final event [] c p =
    (rows, refl, subst (λ f. Change cols rows f event) (sym p) c)
Past-append cols rows next final event (e ∷ es) c (before, p, last) =
    (before, Past-append cols rows next before event es c p, last)

Past-reverse :
    (cols : List Bytes) (rows final : List Image) (events : List RowEvent)
    → History cols rows events final
    → Past cols rows (reverse events) final
Past-reverse cols rows final [] h = h
Past-reverse cols rows final (e ∷ es) (next, c, h) =
    subst (λ l. Past cols rows l final) (sym (List.reverse-cons e es))
      (Past-append cols rows next final e (reverse es) c (Past-reverse cols next final es h))

abbrev OfTable : Bytes → List RowEvent → Type 0
OfTable table [] = Unit
OfTable table (event ∷ events) = (event.table ≡ table) × OfTable table events

OfTable-append :
    (table : Bytes) (event : RowEvent) (events : List RowEvent)
    → event.table ≡ table
    → OfTable table events
    → OfTable table (events ++ (event ∷ []))
OfTable-append table event [] t ts = (t, tt)
OfTable-append table event (e ∷ es) t ts = (ts.0, OfTable-append table event es t ts.1)

OfTable-reverse :
    (table : Bytes) (events : List RowEvent) → OfTable table events → OfTable table (reverse events)
OfTable-reverse table [] ts = tt
OfTable-reverse table (e ∷ es) ts =
    subst (OfTable table) (sym (List.reverse-cons e es))
      (OfTable-append table e (reverse es) ts.0 (OfTable-reverse table es ts.1))

undo_loop :
    (format_g : Float → Bytes) (cols : List Bytes) (table : Bytes) (rows final now : List Image)
    (events : List RowEvent) (out : List Bytes)
    → Distinct cols
    → cols ≢ []
    → Shaped cols final
    → OfTable table events
    → Past cols rows events final
    → Perm now final
    → (stmts : List Statement) × (batch_loop format_g [] events out
        ≡ (out ++ map (render format_g table) stmts, none))
      × Perm (run_all cols stmts now) rows
unfolding batch_loop run_all
undo_loop format_g cols table rows final now [] out d n h ts past same =
    ([], rw (List.append-nil out) refl, subst (λ f. Perm now f) past same)
undo_loop format_g cols table rows final now (event ∷ earlier) out d n h (t, ts)
      (before, past, last) same =
    let (s, sql, undone) = undo-Change format_g cols before final now event d n h last same in
    let (stmts, loop, all) =
      undo_loop format_g cols table rows before (run cols s now) earlier
        (out ++ (render format_g event.table s ∷ [])) d n
        (Shaped-before cols before final event last h) ts past undone in
    (
      s ∷ stmts,
      rw sql (
          loop
          ∙ ap (λ l. (l, none))
              (List.append_assoc out (render format_g event.table s ∷ [])
                  (map (render format_g table) stmts)
                ∙ ap (λ name. out ++ (render format_g name s ∷ map (render format_g table) stmts))
                    t)),
      all,
    )

-- For the events of one table, whose rows have the non-empty columns `cols` and no other, none of
-- them twice, `ReverseSQLBatch` without a primary key gives no error, and its result is the text of
-- statements. Run in that order on the table that the events left, with its rows in any order, they
-- give the rows that the table had before the first event, in some order.
pub reverse_sql_batch_undoes :
    (format_g : Float → Bytes) (cols : List Bytes) (table : Bytes) (rows final now : List Image)
    (events : List RowEvent)
    → Distinct cols
    → cols ≢ []
    → Shaped cols final
    → OfTable table events
    → History cols rows events final
    → Perm now final
    → (stmts : List Statement) × (reverse_sql_batch format_g events []
        ≡ (map (render format_g table) stmts, none))
      × Perm (run_all cols stmts now) rows
unfolding reverse_sql_batch
reverse_sql_batch_undoes format_g cols table rows final now events d n h ts history same =
    undo_loop format_g cols table rows final now (reverse events) [] d n h
      (OfTable-reverse table events ts) (Past-reverse cols rows final events history) same
