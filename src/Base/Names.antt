-- ===== src/Base/Names.antt =====
-- Lists of names (tables, columns, ids): membership, repetition, and how often a name occurs.
use Prim.Native.Nat.{ℕ, suc, ◌+◌, ◌≤◌}
use mathlib.Core.Path.{◌≡◌, refl, subst}
use mathlib.Core.Logic.{inl, inr}
use mathlib.Core.Bool.{Bool, true, false, ◌||◌}
use mathlib.Core.List.{List, [], ◌∷◌, ◌++◌}
use native.Mathlib.Omega.{arith}
use database_flashback.Base.Tests.{if◌then◌else◌, Bool-cases}
use database_flashback.Base.Lists.{All, length}
use database_flashback.Base.Text.{Bytes, eq_bytes, eq_bytes_refl, eq_bytes_sound}

unfoldable pub has : Bytes → List Bytes → Bool
has c [] = false
has c (j ∷ js) = eq_bytes j c || has c js

-- No name occurs twice.
abbrev pub Distinct : List Bytes → Type 0
Distinct [] = Unit
Distinct (c ∷ cs) = All (λ d. eq_bytes c d ≡ false) cs × Distinct cs

unfoldable pub count : Bytes → List Bytes → ℕ
count t [] = 0
count t (x ∷ xs) = (if eq_bytes x t then 1 else 0) + count t xs

pub eq_bytes_sym : (x y : Bytes) → eq_bytes x y ≡ eq_bytes y x
eq_bytes_sym [] [] = refl
eq_bytes_sym [] (y ∷ ys) = refl
eq_bytes_sym (x ∷ xs) [] = refl
eq_bytes_sym (x ∷ xs) (y ∷ ys) = ground (arith, eq_bytes_sym xs ys)

pub count-append : (t : Bytes) (xs ys : List Bytes) → count t (xs ++ ys) ≡ count t xs + count t ys
unfolding count
count-append t [] ys = omega arith
count-append t (x ∷ xs) ys = omega (arith, count-append t xs ys)

pub has-append : (t : Bytes) (xs ys : List Bytes) → has t (xs ++ ys) ≡ (has t xs || has t ys)
unfolding has
has-append t [] ys = refl
has-append t (x ∷ xs) ys = ground (arith, has-append t xs ys)

-- A name is in a list exactly when it occurs.
pub count-missing : (t : Bytes) (xs : List Bytes) → has t xs ≡ false → count t xs ≡ 0
unfolding has count
count-missing t [] h = refl
count-missing t (x ∷ xs) h = ground (arith, count-missing t xs)

pub count-has : (t : Bytes) (xs : List Bytes) → has t xs ≡ true → 1 ≤ count t xs
unfolding has count
count-has t [] h = cc
count-has t (x ∷ xs) h = ground (arith, count-has t xs)

count_absent :
    (t c : Bytes) (xs : List Bytes)
    → eq_bytes c t ≡ true
    → All (λ d. eq_bytes c d ≡ false) xs
    → count t xs ≡ 0
unfolding count
count_absent t c [] e h = refl
count_absent t c (x ∷ xs) e h =
    let same = eq_bytes_sound c t e in
    let differs = subst (λ u. eq_bytes u x ≡ false) same h.0 in
    ground (arith, eq_bytes_sym x t, count_absent t c xs e h.1)

pub count-Distinct : (t : Bytes) (xs : List Bytes) → Distinct xs → count t xs ≤ 1
unfolding count
count-Distinct t [] h = omega arith
count-Distinct t (x ∷ xs) h = elim (Bool-cases (eq_bytes x t)) [
  | inl same ↦ rw same (omega (arith, count_absent t x xs same h.0))
  | inr differs ↦ rw differs (omega (arith, count-Distinct t xs h.1))
]

-- One occurrence less.
remove : Bytes → List Bytes → List Bytes
remove t [] = []
remove t (x ∷ xs) = if eq_bytes x t then xs else x ∷ remove t xs

length-remove :
    (t : Bytes) (xs : List Bytes) → 1 ≤ count t xs → suc (length (remove t xs)) ≡ length xs
unfolding remove count
length-remove t [] h = absurd (omega arith)
length-remove t (x ∷ xs) h = ground (arith, length-remove t xs)

count-remove :
    (t u : Bytes) (xs : List Bytes)
    → 1 ≤ count t xs
    → count u (remove t xs) + (if eq_bytes t u then 1 else 0) ≡ count u xs
unfolding remove count
count-remove t u [] h = absurd (omega arith)
count-remove t u (x ∷ xs) h = elim (Bool-cases (eq_bytes x t)) [
  | inl same ↦ rw (same, eq_bytes_sound x t same) (omega arith)
  | inr differs ↦
      rw differs (
        let occurs : 1 ≤ count t xs = ground (arith, h) in
        omega (arith, count-remove t u xs occurs))
]

-- A list in which no name occurs more often than in another is no longer than it.
pub length-le_of_count :
    (xs ys : List Bytes) → ((t : Bytes) → count t xs ≤ count t ys) → length xs ≤ length ys
unfolding count
length-le_of_count [] ys h = omega arith
length-le_of_count (x ∷ xs) ys h =
    let occurs : 1 ≤ count x ys = ground (arith, h x, eq_bytes_refl x) in
    let rest =
      length-le_of_count xs (remove x ys) (λ t. ground (arith, h t, count-remove x t ys occurs)) in
    omega (arith, rest, length-remove x ys occurs)

pub has-same : (x y : Bytes) (xs : List Bytes) → eq_bytes x y ≡ true → has x xs ≡ has y xs
has-same x y xs h = rw (eq_bytes_sound x y h)
