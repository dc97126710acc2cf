-- ===== src/Rollback/Batches.antt =====
-- internal/rollback/executor.go: `buildBatches` and `estimateBytes`.
use database_flashback.Base.{
  All, All-append, length-append, arith, ℕ, ◌+◌, ◌≤◌, ◌≡◌, refl, ◌⊎◌, inl, inr, true, false, ◌&&◌,
  ◌||◌, List, [], ◌∷◌, ◌++◌, arith, Bytes, length, concat, All, All-append, ltb, leb, if◌then◌else◌,
  append_assoc, append-nil, Bool-cases, length-append, concat-append, ◌∙◌, Bool,
}

-- `estimateBytes`: the loop variable `n` is the first argument of the loop.
estimate_loop : ℕ → List Bytes → ℕ
estimate_loop n [] = n
estimate_loop n (s ∷ sqls) = estimate_loop (n + length s) sqls

unfoldable pub estimate_bytes : List Bytes → ℕ
unfolding estimate_loop
estimate_bytes sqls = estimate_loop 0 sqls

-- The test that closes the batch being filled.
abbrev pub closes : ℕ → ℕ → List Bytes → ℕ → ℕ → Bool
closes batch_size max_batch_bytes current current_bytes stmt_bytes =
    leb batch_size (length current)
    || (ltb max_batch_bytes (current_bytes + stmt_bytes) && ltb 0 (length current))

-- The loop of `buildBatches` over `batches`, `current` and `currentBytes`, and the batch after it.
unfoldable pub batch_loop :
    ℕ → ℕ → List (List Bytes) → List Bytes → ℕ → List Bytes → List (List Bytes)
batch_loop size limit batches current current_bytes [] =
    if ltb 0 (length current) then batches ++ (current ∷ []) else batches
batch_loop size limit batches current current_bytes (stmt ∷ sqls) =
    let full = closes size limit current current_bytes (length stmt) in
    batch_loop size limit (if full then batches ++ (current ∷ []) else batches)
      (if full then stmt ∷ [] else current ++ (stmt ∷ []))
      (if full then length stmt else current_bytes + length stmt) sqls

unfoldable pub build_batches : List Bytes → ℕ → ℕ → List (List Bytes)
unfolding batch_loop
build_batches [] size limit = []
build_batches (s ∷ sqls) size limit = batch_loop size limit [] [] 0 (s ∷ sqls)

estimate_loop_add :
    (n : ℕ) (xs ys : List Bytes)
    → estimate_loop n (xs ++ ys) ≡ estimate_loop (estimate_loop n xs) ys
unfolding estimate_loop
estimate_loop_add n [] ys = refl
estimate_loop_add n (x ∷ xs) ys = estimate_loop_add (n + length x) xs ys

estimate_bytes-append :
    (xs : List Bytes) (s : Bytes) → estimate_bytes (xs ++ (s ∷ [])) ≡ estimate_bytes xs + length s
unfolding estimate_bytes
estimate_bytes-append xs s = estimate_loop_add 0 xs (s ∷ [])

concat_one : (bs : List (List Bytes)) (c : List Bytes) → concat (bs ++ (c ∷ [])) ≡ concat bs ++ c
concat_one bs c = rw (concat-append bs (c ∷ []), append-nil)

concat-batch_loop :
    (size limit : ℕ) (batches : List (List Bytes)) (current : List Bytes) (n : ℕ)
    (sqls : List Bytes)
    → concat (batch_loop size limit batches current n sqls) ≡ concat batches ++ (current ++ sqls)
unfolding batch_loop
concat-batch_loop size limit batches [] n [] = rw append-nil
concat-batch_loop size limit batches (c ∷ cs) n [] =
    ground (arith, concat_one batches (c ∷ cs), append-nil (c ∷ cs))
concat-batch_loop size limit batches current n (stmt ∷ sqls) =
    elim (Bool-cases (closes size limit current n (length stmt))) [
      | inl full ↦
          rw (full, batch_loop)
            (concat-batch_loop size limit (batches ++ (current ∷ [])) (stmt ∷ []) (length stmt) sqls
              ∙ simp (concat_one, append_assoc))
      | inr room ↦
          rw (room, batch_loop)
            (concat-batch_loop size limit batches (current ++ (stmt ∷ [])) (n + length stmt) sqls
              ∙ simp append_assoc)
    ]

-- Batching neither drops, repeats nor reorders a statement: the batches, one after the other,
-- are the statements, for every bound on count and bytes.
pub concat-build_batches :
    (sqls : List Bytes) (size limit : ℕ) → concat (build_batches sqls size limit) ≡ sqls
unfolding build_batches
concat-build_batches [] size limit = refl
concat-build_batches (s ∷ sqls) size limit = concat-batch_loop size limit [] [] 0 (s ∷ sqls)

-- What a batch promises: it holds a statement, at most `size` of them, and stays within the
-- bound on bytes unless it is a single statement.
pub record IsBounded (size limit : ℕ) (b : List Bytes) : Type 0 where
  pub filled : 1 ≤ length b
  pub counted : length b ≤ size
  pub sized : (estimate_bytes b ≤ limit) ⊎ (length b ≡ 1)

-- The same of the batch being filled, which may still be empty.
abbrev IsOpen : ℕ → ℕ → List Bytes → ℕ → Type 0
IsOpen size limit current n =
    (length current ≤ size) × (n ≡ estimate_bytes current) × ((n ≤ limit) ⊎ (length current ≤ 1))

current-IsBounded :
    (size limit : ℕ) (current : List Bytes) (n : ℕ)
    → 1 ≤ length current
    → IsOpen size limit current n
    → IsBounded size limit current
current-IsBounded size limit current n h o = ground arith

next-IsOpen :
    (size limit : ℕ) (current : List Bytes) (n : ℕ) (stmt : Bytes)
    → 1 ≤ size
    → IsOpen size limit current n
    → closes size limit current n (length stmt) ≡ false
    → IsOpen size limit (current ++ (stmt ∷ [])) (n + length stmt)
next-IsOpen size limit current n stmt h o room =
    ground (arith, length-append current (stmt ∷ []), estimate_bytes-append current stmt)

first-IsOpen :
    (size limit : ℕ) (stmt : Bytes) → 1 ≤ size → IsOpen size limit (stmt ∷ []) (length stmt)
unfolding estimate_bytes
first-IsOpen size limit stmt h = ground arith

closes_filled :
    (size limit : ℕ) (current : List Bytes) (n k : ℕ)
    → 1 ≤ size
    → closes size limit current n k ≡ true
    → 1 ≤ length current
closes_filled size limit current n k h full = ground arith

batch_loop-IsBounded :
    (size limit : ℕ) (batches : List (List Bytes)) (current : List Bytes) (n : ℕ)
    (sqls : List Bytes)
    → 1 ≤ size
    → All (IsBounded size limit) batches
    → IsOpen size limit current n
    → All (IsBounded size limit) (batch_loop size limit batches current n sqls)
unfolding batch_loop
batch_loop-IsBounded size limit batches current n [] h bs o =
    elim (Bool-cases (ltb 0 (length current))) [
      | inl some_left ↦ rw some_left (
          All-append _ batches (current ∷ []) bs
            (current-IsBounded size limit current n (ground arith) o, tt))
      | inr empty ↦ rw empty bs
    ]
batch_loop-IsBounded size limit batches current n (stmt ∷ sqls) h bs o =
    elim (Bool-cases (closes size limit current n (length stmt))) [
      | inl full ↦
          rw (full, batch_loop)
            (batch_loop-IsBounded size limit (batches ++ (current ∷ [])) (stmt ∷ []) (length stmt)
              sqls h
              (All-append _ batches (current ∷ []) bs (
                current-IsBounded size limit current n (closes_filled size limit current n _ h full)
                    o,
                tt,
              ))
              (first-IsOpen size limit stmt h))
      | inr room ↦
          rw (room, batch_loop)
            (batch_loop-IsBounded size limit batches (current ++ (stmt ∷ [])) (n + length stmt) sqls
              h bs (next-IsOpen size limit current n stmt h o room))
    ]

-- With a positive count bound, every batch that `buildBatches` makes holds at least one statement
-- and at most `size`, and its text is within the byte bound unless it is one statement alone.
pub build_batches-IsBounded :
    (sqls : List Bytes) (size limit : ℕ)
    → 1 ≤ size
    → All (IsBounded size limit) (build_batches sqls size limit)
unfolding build_batches estimate_bytes
build_batches-IsBounded [] size limit h = tt
build_batches-IsBounded (s ∷ sqls) size limit h =
    batch_loop-IsBounded size limit [] [] 0 (s ∷ sqls) h tt (ground arith)
