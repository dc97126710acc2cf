-- ===== src/Reverse/Change.antt =====
-- internal/parser/reverse.go: what one event did to a table, and what its reverse statement does to the
-- table that the event left.
use database_flashback.Base.{
  ◌≡◌, sym, ap, ◌∙◌, subst, ◌≢◌, true, false, some, List, [], ◌∷◌, Bytes, done, Bool-cases, inl,
  inr,
}
use mathlib.Core.Logic.Or
use native.Mathlib.Decide.{ℕ_discrete}
use mathlib.Core.List.{
  Mem, Perm, eq-or-mem_of_mem-cons, not-mem-nil, mem-cons_self, mem-cons_of_mem, mem_of_ne_of_mem,
  reverse,
}
use mathlib.Core.List
use database_flashback.Value.{
  Float, Image, keys, insert_event, update_event, delete_event, RowEvent,
}
use database_flashback.Reverse.{sorted_keys, reverse_sql}
use database_flashback.Reverse.Statement.{
  Statement, delete_where, insert_row, update_where, pairs, holds, delete_first, update_first, run,
}
use database_flashback.Reverse.Render.{
  render, reverse_sql_insert, reverse_sql_delete, reverse_sql_update,
}
use database_flashback.Base.Names.{Distinct}
use database_flashback.Reverse.Lookup.{full, insert_pairs, holds_self, holds-pairs, assign-pairs}

-- Every row has the columns `cols`.
abbrev pub Shaped : List Bytes → List Image → Type 0
Shaped cols rows = (x : Image) → Mem x rows → keys x ≡ cols

-- What an event did to the table.
pub data Change (cols : List Bytes) (rows after : List Image) (event : RowEvent) : Type 0 where
  inserted :
      (r : Image)
      → event.type ≡ insert_event
      → event.after ≡ some r
      → keys r ≡ cols
      → Perm after (r ∷ rows)
      → Change cols rows after event
  deleted :
      (r : Image)
      → event.type ≡ delete_event
      → event.before ≡ some r
      → keys r ≡ cols
      → Perm rows (r ∷ after)
      → Change cols rows after event
  updated :
      (b a : Image) (rest : List Image)
      → event.type ≡ update_event
      → event.before ≡ some b
      → event.after ≡ some a
      → keys b ≡ cols
      → keys a ≡ cols
      → Perm rows (b ∷ rest)
      → Perm after (a ∷ rest)
      → Change cols rows after event

names_prop : (ks cs : List Bytes) → IsProp (ks ≡ cs)
names_prop ks cs = (hlevel ℕ_discrete)

pub Shaped-nil : (cols : List Bytes) → Shaped cols []
Shaped-nil cols x m = absurd (not-mem-nil m)

pub Shaped-cons :
    (cols : List Bytes) (r : Image) (rows : List Image)
    → keys r ≡ cols
    → Shaped cols rows
    → Shaped cols (r ∷ rows)
Shaped-cons cols r rows e h x m =
    Or.elim (names_prop (keys x) cols) (eq-or-mem_of_mem-cons m) (λ same. ap keys same ∙ e) (h x)

keys_of_head :
    (cols : List Bytes) (r : Image) (x : Image) (rows : List Image)
    → Shaped cols (x ∷ rows)
    → keys r ≡ cols
    → keys x ≡ keys r
keys_of_head cols r x rows h e = h x mem-cons_self ∙ sym e

Shaped-tail :
    (cols : List Bytes) (x : Image) (rows : List Image) → Shaped cols (x ∷ rows) → Shaped cols rows
Shaped-tail cols x rows h y m = h y (mem-cons_of_mem x m)

Shaped-perm :
    (cols : List Bytes) (rows rows' : List Image)
    → Shaped cols rows
    → Perm rows rows'
    → Shaped cols rows'
Shaped-perm cols rows rows' h p x m = h x ((List.Perm.mem_iff p).1 m)

differs : (r x : Image) → holds (full r) x ≡ false → r ≢ x
unfolding sorted_keys
differs r x h e =
    let met = subst (λ y. holds (full r) y ≡ true) e (holds_self r (sorted_keys r)) in (cc)

-- The statement that deletes a row of the table takes out that row.
delete_first-Perm :
    (cols : List Bytes) (r : Image) (rows : List Image)
    → Distinct (keys r)
    → keys r ≡ cols
    → Shaped cols rows
    → Mem r rows
    → Perm rows (r ∷ delete_first (full r) rows)
unfolding delete_first
delete_first-Perm cols r [] d e h m = absurd (not-mem-nil m)
delete_first-Perm cols r (x ∷ rows) d e h m = elim (Bool-cases (holds (full r) x)) [
  | inl meets ↦
      let same = holds-pairs r x d (keys_of_head cols r x rows h e) meets in
      rw meets (subst (λ y. Perm (x ∷ rows) (y ∷ rows)) same (List.Perm.refl (x ∷ rows)))
  | inr fails' ↦
      let ih =
        delete_first-Perm cols r rows d e (Shaped-tail cols x rows h)
          (mem_of_ne_of_mem (differs r x fails') m) in
      rw fails'
        (List.Perm.trans (List.Perm.cons x ih) (List.Perm.swap r x (delete_first (full r) rows)))
]

update_first-Perm :
    (cols : List Bytes) (b a : Image) (rows : List Image)
    → Distinct (keys a)
    → keys b ≡ cols
    → keys a ≡ cols
    → Shaped cols rows
    → Mem a rows
    → Perm (update_first (full b) (full a) rows) (b ∷ delete_first (full a) rows)
unfolding update_first delete_first
update_first-Perm cols b a [] d eb e h m = absurd (not-mem-nil m)
update_first-Perm cols b a (x ∷ rows) d eb e h m = elim (Bool-cases (holds (full a) x)) [
  | inl meets ↦
      let set = assign-pairs b x (subst Distinct (e ∙ sym eb) d) (h x mem-cons_self ∙ sym eb) in
      rw (meets, set) (List.Perm.refl (b ∷ rows))
  | inr fails' ↦
      let ih =
        update_first-Perm cols b a rows d eb e (Shaped-tail cols x rows h)
          (mem_of_ne_of_mem (differs a x fails') m) in
      rw fails'
        (List.Perm.trans (List.Perm.cons x ih) (List.Perm.swap b x (delete_first (full a) rows)))
]

-- The table before a change has the shape of the table after it.
pub Shaped-before :
    (cols : List Bytes) (rows after : List Image) (event : RowEvent)
    → Change cols rows after event
    → Shaped cols after
    → Shaped cols rows
Shaped-before cols rows after event (inserted r t a e p) h =
    Shaped-tail cols r rows (Shaped-perm cols after (r ∷ rows) h p)
Shaped-before cols rows after event (deleted r t b e p) h =
    Shaped-perm cols (r ∷ after) rows (Shaped-cons cols r after e h) (List.Perm.symm p)
Shaped-before cols rows after event (updated b a rest t eb ea kb ka p q) h =
    let shape = Shaped-tail cols a rest (Shaped-perm cols after (a ∷ rest) h q) in
    Shaped-perm cols (b ∷ rest) rows (Shaped-cons cols b rest kb shape) (List.Perm.symm p)

nonempty : (r : Image) (cols : List Bytes) → cols ≢ [] → keys r ≡ cols → r ≢ []
nonempty r cols h e n = h (sym e ∙ ap keys n)

-- The reverse of one event, run on the table after the change, gives the table before it.
pub undo-Change :
    (format_g : Float → Bytes) (cols : List Bytes) (rows after now : List Image) (event : RowEvent)
    → Distinct cols
    → cols ≢ []
    → Shaped cols after
    → Change cols rows after event
    → Perm now after
    → (s : Statement) × (reverse_sql format_g event [] ≡ done (render format_g event.table s))
      × Perm (run cols s now) rows
unfolding run
undo-Change format_g cols rows after now event d n h (inserted r t a e p) same =
    let here = (List.Perm.mem_iff (List.Perm.trans same p)).1 mem-cons_self in
    let out =
      delete_first-Perm cols r now (subst Distinct (sym e) d) e
        (Shaped-perm cols after now h (List.Perm.symm same)) here in
    (
      delete_where (full r),
      reverse_sql_insert format_g event r t a (nonempty r cols n e),
      List.Perm.cons_inv (List.Perm.trans (List.Perm.symm out) (List.Perm.trans same p)),
    )
undo-Change format_g cols rows after now event d n h (deleted r t b e p) same =
    let back = subst (λ ks. pairs (full r) ks ≡ r) e (insert_pairs r (subst Distinct (sym e) d)) in
    (
      insert_row (full r),
      reverse_sql_delete format_g event r t b,
      rw back (List.Perm.trans (List.Perm.cons r same) (List.Perm.symm p)),
    )
undo-Change format_g cols rows after now event d n h (updated b a rest t eb ea kb ka p q) same =
    let now_rest = List.Perm.trans same q in
    let here = (List.Perm.mem_iff now_rest).1 mem-cons_self in
    let shape = Shaped-perm cols after now h (List.Perm.symm same) in
    let da = subst Distinct (sym ka) d in
    let out = delete_first-Perm cols a now da ka shape here in
    let left = List.Perm.cons_inv (List.Perm.trans (List.Perm.symm out) now_rest) in
    (
      update_where (full b) (full a),
      reverse_sql_update format_g event b a t eb ea (nonempty a cols n ka),
      List.Perm.trans (update_first-Perm cols b a now da kb ka shape here)
          (List.Perm.trans (List.Perm.cons b left) (List.Perm.symm p)),
    )
