-- ===== src/Checkpoint/Listing.antt =====
-- internal/checkpoint/manager.go: the list of checkpoints.
use mathlib.Core.List.{Perm}
use mathlib.Core.List.Perm
use database_flashback.Base.{◌≤◌, List, [], ◌∷◌, All, ltb, arith, Bool-cases, inl, inr}
use database_flashback.Checkpoint.{
  Checkpoint, Dir, readable, insert_newest, newest_first, list_checkpoints,
}

-- No later checkpoint of the list is newer.
abbrev Descending : List Checkpoint → Type 0
Descending [] = Unit
Descending (c ∷ cs) = All (λ x. x.last_commit_at ≤ c.last_commit_at) cs × Descending cs

All-insert_newest :
    (P : Checkpoint → Type 0) (c : Checkpoint) (xs : List Checkpoint)
    → P c
    → All P xs
    → All P (insert_newest c xs)
unfolding insert_newest
All-insert_newest P c [] h hs = (h, tt)
All-insert_newest P c (x ∷ xs) h hs = elim (Bool-cases (ltb c.last_commit_at x.last_commit_at)) [
  | inl older ↦ rw older (hs.0, All-insert_newest P c xs h hs.1)
  | inr newer ↦ rw newer (h, hs)
]

All-weaken :
    (P Q : Checkpoint → Type 0) (xs : List Checkpoint)
    → ((x : Checkpoint) → P x → Q x)
    → All P xs
    → All Q xs
All-weaken P Q [] f h = tt
All-weaken P Q (x ∷ xs) f h = (f x h.0, All-weaken P Q xs f h.1)

insert_newest-Descending :
    (c : Checkpoint) (xs : List Checkpoint) → Descending xs → Descending (insert_newest c xs)
unfolding insert_newest
insert_newest-Descending c [] h = (tt, tt)
insert_newest-Descending c (x ∷ xs) h = elim (Bool-cases (ltb c.last_commit_at x.last_commit_at)) [
  | inl older ↦ rw older (
    All-insert_newest (λ y. y.last_commit_at ≤ x.last_commit_at) c xs (ground (arith, older)) h.0,
    insert_newest-Descending c xs h.1,
  )
  | inr newer ↦
      let le : x.last_commit_at ≤ c.last_commit_at = ground (arith, newer) in
      rw newer (
        (
          le,
          All-weaken (λ y. y.last_commit_at ≤ x.last_commit_at)
              (λ y. y.last_commit_at ≤ c.last_commit_at) xs (λ y k. omega arith) h.0,
        ),
        h,
      )
]

insert_newest-Perm : (c : Checkpoint) (xs : List Checkpoint) → Perm (insert_newest c xs) (c ∷ xs)
unfolding insert_newest
insert_newest-Perm c [] = Perm.refl _
insert_newest-Perm c (x ∷ xs) = elim (Bool-cases (ltb c.last_commit_at x.last_commit_at)) [
  | inl older ↦ rw older (Perm.trans (Perm.cons x (insert_newest-Perm c xs)) (Perm.swap c x xs))
  | inr newer ↦ rw newer (Perm.refl _)
]

newest_first-Descending : (cs : List Checkpoint) → Descending (newest_first cs)
unfolding newest_first
newest_first-Descending [] = tt
newest_first-Descending (c ∷ cs) =
    insert_newest-Descending c (newest_first cs) (newest_first-Descending cs)

newest_first-Perm : (cs : List Checkpoint) → Perm (newest_first cs) cs
unfolding newest_first
newest_first-Perm [] = Perm.refl []
newest_first-Perm (c ∷ cs) =
    Perm.trans (insert_newest-Perm c (newest_first cs)) (Perm.cons c (newest_first-Perm cs))

-- `ListCheckpoints` gives the checkpoints that can be read, each as often as the directory has it,
-- and no checkpoint stands behind an older one.
list_checkpoints-Descending :
    (dir : Dir)
    → Descending (list_checkpoints dir) × Perm (list_checkpoints dir) (readable dir dir.files)
unfolding list_checkpoints
list_checkpoints-Descending dir =
    (newest_first-Descending (readable dir dir.files), newest_first-Perm (readable dir dir.files))
