-- ===== src/Serve/Parse/Preview.antt =====
-- cmd/agent/serve.go: the preview of `handlePITRParse` beside the events.
use database_flashback.Base.{
  ℕ, zero, suc, ◌-◌, ◌≡◌, refl, ap, sym, ◌∙◌, subst, true, none, some, List, [], ◌∷◌, ◌++◌, Bytes,
  length, min, length-append, ltb, arith, get_elem?, Try, done, fails, append_assoc, append-nil,
}
use mathlib.Core.List.{reverse}
use mathlib.Core.List as List
use database_flashback.Value.{Float, RowEvent}
use database_flashback.Reverse.{reverse_sql, reverse_sql_batch, batch_loop}
use database_flashback.Serve.Params.{Host, PreviewEntry, ok_resp, parse_reply}
use database_flashback.Serve.Parse.{
  mirrored, preview_from, max_entries, reverse_reply, type_text, sql_sample, batch_reply,
}

length-reverse : (es : List RowEvent) → length (reverse es) ≡ length es
length-reverse [] = refl
length-reverse (e ∷ es) =
    ap length (List.reverse-cons e es)
    ∙ omega (arith, length-append (reverse es) (e ∷ []), length-reverse es)

module _ (format_g : Float → Bytes) where
  -- Each text is the reverse statement of the event at its place.
  pub data Pairs : List RowEvent → List Bytes → Type 0 where
    no_pair : Pairs [] []
    pair :
        (e : RowEvent) (sql : Bytes) {es : List RowEvent} {sqls : List Bytes}
        → reverse_sql format_g e [] ≡ done sql
        → Pairs es sqls
        → Pairs (e ∷ es) (sql ∷ sqls)

  Pairs-length : {es : List RowEvent} {sqls : List Bytes} → Pairs es sqls → length es ≡ length sqls
  Pairs-length no_pair = refl
  Pairs-length (pair e sql h p) = ap suc (Pairs-length p)

  -- The text at the place of the event `e`.
  Pairs-get_elem? :
      (xs : List RowEvent) (e : RowEvent) (ys : List RowEvent) (sqls : List Bytes)
      → Pairs (xs ++ e ∷ ys) sqls
      → (sql : Bytes) × (get_elem? sqls (length xs) ≡ some sql)
        × (reverse_sql format_g e [] ≡ done sql)
  Pairs-get_elem? [] e ys [] none_left = elim none_left [ ]
  Pairs-get_elem? (x ∷ xs) e ys [] none_left = elim none_left [ ]
  Pairs-get_elem? [] e ys (sql ∷ sqls) (pair _ _ h p) = (sql, refl, h)
  Pairs-get_elem? (x ∷ xs) e ys (t ∷ sqls) (pair _ _ h p) = Pairs-get_elem? xs e ys sqls p

  -- What the loop of the batch adds.
  batch_loop-Pairs :
      (es : List RowEvent) (out sqls : List Bytes)
      → batch_loop format_g [] es out ≡ (sqls, none)
      → (more : List Bytes) × (sqls ≡ out ++ more) × Pairs es more
  unfolding batch_loop
  batch_loop-Pairs [] out sqls h = ([], ap (λ p. p.0) (sym h) ∙ sym (append-nil out), no_pair)
  batch_loop-Pairs (e ∷ es) out sqls h =
      next (reverse_sql format_g e []) refl λ sql. batch_loop-Pairs es (out ++ sql ∷ []) sqls
    where
      next :
          (t : Try Bytes)
          → reverse_sql format_g e [] ≡ t
          → ((sql : Bytes)
              → batch_loop format_g [] es (out ++ sql ∷ []) ≡ (sqls, none)
              → (more : List Bytes) × (sqls ≡ (out ++ sql ∷ []) ++ more) × Pairs es more)
          → (more : List Bytes) × (sqls ≡ out ++ more) × Pairs (e ∷ es) more
      next (fails err) q rest = absurd (ground (arith, h, q))
      next (done sql) q rest =
          let (more, all, p) = rest sql (ground (arith, h, q)) in
          (sql ∷ more, all ∙ append_assoc out (sql ∷ []) more, pair e sql q p)

  -- The entries from the index `i` on: each names its event and holds the event's reverse statement.
  pub data Shows : ℕ → List RowEvent → List PreviewEntry → Type 0 where
    no_more : (i : ℕ) (es : List RowEvent) → Shows i es []
    shows :
        (i : ℕ) (e : RowEvent) (entry : PreviewEntry) {es : List RowEvent}
        {entries : List PreviewEntry}
        → entry.sequence ≡ suc i
        → entry.sql_type ≡ type_text e.type
        → entry.table_name ≡ e.table
        → reverse_sql format_g e [] ≡ done entry.reverse_sql
        → Shows (suc i) es entries
        → Shows i (e ∷ es) (entry ∷ entries)

  preview_from-Shows :
      (k i : ℕ) (before es : List RowEvent) (sqls : List Bytes)
      → Pairs (reverse es ++ before) sqls
      → length before ≡ i
      → Shows i es (preview_from i k es sqls)
  unfolding preview_from
  preview_from-Shows zero i before es sqls p at_i = no_more i es
  preview_from-Shows (suc k) i before [] sqls p at_i = no_more i []
  preview_from-Shows (suc k) i before (e ∷ es) sqls p at_i =
      let moved : Pairs (reverse es ++ e ∷ before) sqls =
        subst (λ l. Pairs l sqls)
          (ap (λ l. l ++ before) (List.reverse-cons e es)
            ∙ append_assoc (reverse es) (e ∷ []) before)
          p in
      let (sql, here, q) = Pairs-get_elem? (reverse es) e before sqls moved in
      let long = Pairs-length moved in
      let size = length-append (reverse es) (e ∷ before) in
      let index : length sqls - 1 - i ≡ length (reverse es) = omega (arith, long, size, at_i) in
      let inside : ltb i (length sqls) ≡ true = ground (arith, long, size, at_i) in
      let found : mirrored sqls i ≡ sql = rw (inside, index, here) refl in
      shows i e _ refl refl refl (q ∙ ap done (sym found))
        (preview_from-Shows k (suc i) (e ∷ before) es sqls moved (ap suc at_i))

preview_from-length :
    (k i : ℕ) (es : List RowEvent) (sqls : List Bytes)
    → length (preview_from i k es sqls) ≡ min k (length es)
unfolding preview_from
preview_from-length zero i es sqls = omega arith
preview_from-length (suc k) i [] sqls = omega arith
preview_from-length (suc k) i (e ∷ es) sqls = omega (arith, preview_from-length k (suc i) es sqls)

-- When the events can be reversed, the answer to the parse command holds all statements and the
-- number of events, and its preview has an entry for each of the first thousand events, in their
-- order: the entry has the number, the table and the type of its event and holds the statement that
-- reverses that event, although the statements stand in the opposite order.
pub reverse_reply-Shows :
    (h : Host) (id : Bytes) (e : RowEvent) (es : List RowEvent) (sqls : List Bytes)
    → reverse_sql_batch h.format_g (e ∷ es) [] ≡ (sqls, none)
    → (preview : List PreviewEntry) × (sample : Bytes) × (reverse_reply h id (e ∷ es)
        ≡ ok_resp (parse_reply id (length (e ∷ es)) sqls preview sample))
      × (length preview ≡ min 1_000 (length (e ∷ es)))
      × Shows h.format_g 0 (e ∷ es) preview
unfolding reverse_reply reverse_sql_batch
reverse_reply-Shows h id e es sqls reversed =
    let events = e ∷ es in
    let (more, all, p) = batch_loop-Pairs h.format_g (reverse events) [] sqls reversed in
    let pairs : Pairs h.format_g (reverse events ++ []) sqls =
      subst (λ l. Pairs h.format_g l sqls) (sym (append-nil (reverse events)))
        (subst (Pairs h.format_g (reverse events)) (sym all) p) in
    let long = Pairs-length h.format_g pairs in
    let size = length-append (reverse events) [] in
    let whole = length-reverse events in
    let entries = max_entries sqls in
    (
      preview_from 0 entries events sqls,
      sql_sample sqls,
      ap (batch_reply h id events) reversed,
      ground (arith, preview_from-length entries 0 events sqls, long, size, whole),
      preview_from-Shows h.format_g entries 0 [] events sqls pairs refl,
    )
