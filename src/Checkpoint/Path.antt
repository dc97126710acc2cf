-- ===== src/Checkpoint/Path.antt =====
-- internal/checkpoint/manager.go: the paths that its calls of `filepath.Join` give, which cleans them.
use database_flashback.Base.{
  ℕ, ◌≡◌, refl, sym, ap, ◌∙◌, inl, inr, Bool, true, false, ◌||◌, List, [], ◌∷◌, ◌++◌, Bytes, text,
  eq_bytes, if◌then◌else◌, ◌==◌, append_assoc, arith, Bool-cases,
}

abbrev slash : ℕ
slash = 0x2f

-- A path at its slashes.
abbrev prepend : ℕ → List Bytes → List Bytes
prepend c [] = (c ∷ []) ∷ []
prepend c (part ∷ parts) = (c ∷ part) ∷ parts

unfoldable pub split_slash : Bytes → List Bytes
split_slash [] = [] ∷ []
split_slash (c ∷ s) =
    let parts = split_slash s in if c == slash then [] ∷ parts else prepend c parts

-- `..` takes the last part off, and stays where there is none in a path that is not rooted.
abbrev parent : Bool → List Bytes → List Bytes
parent true [] = []
parent false [] = text ".." ∷ []
parent rooted (part ∷ stack) = if eq_bytes part (text "..") then text ".." ∷ part ∷ stack else stack

-- One part of a path, on a stack that has the last part at its head.
unfoldable pub resolve : Bool → List Bytes → Bytes → List Bytes
resolve rooted stack part =
    if eq_bytes part [] || eq_bytes part (text ".")
    then stack
    else if eq_bytes part (text "..")
    then parent rooted stack
    else part ∷ stack

unfoldable pub resolve_all : Bool → List Bytes → List Bytes → List Bytes
unfolding resolve
resolve_all rooted stack [] = stack
resolve_all rooted stack (part ∷ parts) = resolve_all rooted (resolve rooted stack part) parts

unfoldable pub joined : List Bytes → Bytes
joined [] = []
joined (part ∷ []) = part
joined (part ∷ above ∷ stack) = joined (above ∷ stack) ++ slash ∷ part

abbrev pub is_rooted : Bytes → Bool
is_rooted [] = false
is_rooted (c ∷ s) = c == slash

abbrev printed : Bool → List Bytes → Bytes
printed true stack = slash ∷ joined stack
printed false [] = text "."
printed false (part ∷ stack) = joined (part ∷ stack)

-- `filepath.Clean`, and `filepath.Join` of two elements.
unfoldable pub clean : Bytes → Bytes
unfolding split_slash resolve_all joined
clean path = printed (is_rooted path) (resolve_all (is_rooted path) [] (split_slash path))

unfoldable pub path_join : Bytes → Bytes → Bytes
unfolding clean
path_join [] b = if eq_bytes b [] then [] else clean b
path_join (c ∷ a) [] = clean (c ∷ a)
path_join (c ∷ a) (d ∷ b) = clean ((c ∷ a) ++ slash ∷ d ∷ b)

unfoldable pub last_or : ℕ → Bytes → ℕ
last_or d [] = d
last_or d (x ∷ xs) = last_or x xs

pub last_or-append : (d a : ℕ) (xs : Bytes) → last_or d (xs ++ a ∷ []) ≡ a
unfolding last_or
last_or-append d a [] = refl
last_or-append d a (x ∷ xs) = last_or-append x a xs

-- The last part of a path that ends in another byte than a slash.
pub record Ends (c : ℕ) (parts : List Bytes) : Type 0 where
  pub front : List Bytes
  pub stem : Bytes
  pub same : parts ≡ front ++ (stem ++ c ∷ []) ∷ []

Ends-prepend : (c d : ℕ) (parts : List Bytes) → Ends c parts → Ends c (prepend d parts)
Ends-prepend c d parts e = go e.front e.same
  where
    go : (front : List Bytes) → parts ≡ front ++ (e.stem ++ c ∷ []) ∷ [] → Ends c (prepend d parts)
    go [] p = record { front = []; stem = d ∷ e.stem; same = ap (prepend d) p }
    go (q ∷ qs) p = record { front = (d ∷ q) ∷ qs; stem = e.stem; same = ap (prepend d) p }

split_slash-Ends : (c : ℕ) (s : Bytes) → (c == slash) ≡ false → Ends c (split_slash (s ++ c ∷ []))
unfolding split_slash
split_slash-Ends c [] h = record { front = []; stem = []; same = rw h refl }
split_slash-Ends c (d ∷ s) h =
    let e = split_slash-Ends c s h in
    elim (Bool-cases (d == slash)) [
      | inl here ↦ record {
        front = [] ∷ e.front;
        stem = e.stem;
        same = rw here (ap (λ l. [] ∷ l) e.same);
      }
      | inr other ↦
          let e' = Ends-prepend c d (split_slash (s ++ c ∷ [])) e in
          record { front = e'.front; stem = e'.stem; same = rw other e'.same }
    ]

resolve_all-append :
    (rooted : Bool) (stack xs ys : List Bytes)
    → resolve_all rooted stack (xs ++ ys) ≡ resolve_all rooted (resolve_all rooted stack xs) ys
unfolding resolve_all
resolve_all-append rooted stack [] ys = refl
resolve_all-append rooted stack (x ∷ xs) ys =
    resolve_all-append rooted (resolve rooted stack x) xs ys

-- A part that ends in another byte than a dot is kept as it is.
resolve-plain :
    (rooted : Bool) (stack : List Bytes) (stem : Bytes) (c : ℕ)
    → (c == b'.') ≡ false
    → resolve rooted stack (stem ++ c ∷ []) ≡ (stem ++ c ∷ []) ∷ stack
unfolding resolve
resolve-plain rooted stack [] c h = rw h refl
resolve-plain rooted stack (x ∷ []) c h = ground (arith, h)
resolve-plain rooted stack (x ∷ y ∷ []) c h = ground (arith, h)
resolve-plain rooted stack (x ∷ y ∷ z ∷ stem) c h = ground (arith, h)

last_or-joined :
    (d c : ℕ) (stem : Bytes) (stack : List Bytes)
    → last_or d (joined ((stem ++ c ∷ []) ∷ stack)) ≡ c
unfolding joined
last_or-joined d c stem [] = last_or-append d c stem
last_or-joined d c stem (above ∷ stack) =
    ap (last_or d) (sym (append_assoc (joined (above ∷ stack)) (slash ∷ stem) (c ∷ [])))
    ∙ last_or-append d c (joined (above ∷ stack) ++ slash ∷ stem)

last_or-printed :
    (rooted : Bool) (d c : ℕ) (stem : Bytes) (stack : List Bytes)
    → last_or d (printed rooted ((stem ++ c ∷ []) ∷ stack)) ≡ c
unfolding last_or
last_or-printed true d c stem stack = last_or-joined slash c stem stack
last_or-printed false d c stem stack = last_or-joined d c stem stack

-- A path that is cleaned keeps its last byte, unless that is a slash or a dot.
pub last_or-clean :
    (d c : ℕ) (s : Bytes)
    → (c == slash) ≡ false
    → (c == b'.') ≡ false
    → last_or d (clean (s ++ c ∷ [])) ≡ c
unfolding clean resolve_all
last_or-clean d c s h k =
    let e = split_slash-Ends c s h in
    let rooted = is_rooted (s ++ c ∷ []) in
    let front = resolve_all rooted [] e.front in
    let stack : resolve_all rooted [] (split_slash (s ++ c ∷ [])) ≡ (e.stem ++ c ∷ []) ∷ front =
      ap (resolve_all rooted []) e.same
      ∙ resolve_all-append rooted [] e.front ((e.stem ++ c ∷ []) ∷ [])
      ∙ resolve-plain rooted front e.stem c k in
    ap (λ l. last_or d (printed rooted l)) stack ∙ last_or-printed rooted d c e.stem front

-- What is joined keeps its last byte, unless that is a slash or a dot.
pub last_or-path_join :
    (d c : ℕ) (a s : Bytes)
    → (c == slash) ≡ false
    → (c == b'.') ≡ false
    → last_or d (path_join a (s ++ c ∷ [])) ≡ c
unfolding path_join
last_or-path_join d c [] [] h k = last_or-clean d c [] h k
last_or-path_join d c [] (x ∷ s) h k = last_or-clean d c (x ∷ s) h k
last_or-path_join d c (y ∷ a) [] h k =
    ap (λ l. last_or d (clean l)) (sym (append_assoc (y ∷ a) (slash ∷ []) (c ∷ [])))
    ∙ last_or-clean d c ((y ∷ a) ++ slash ∷ []) h k
last_or-path_join d c (y ∷ a) (x ∷ s) h k =
    ap (λ l. last_or d (clean l)) (sym (append_assoc (y ∷ a) (slash ∷ x ∷ s) (c ∷ [])))
    ∙ last_or-clean d c ((y ∷ a) ++ slash ∷ x ∷ s) h k
