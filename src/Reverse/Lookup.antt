-- ===== src/Reverse/Lookup.antt =====
-- internal/parser/reverse.go: rows, the sorted column lists that statements are made of, and when a
-- row meets the conditions made of another.
use database_flashback.Base.{
  ◌≡◌, refl, sym, ap, ◌∙◌, true, false, ◌||◌, none, some, List, [], ◌∷◌, Bytes, if◌then◌else◌,
  arith, subst, ◌≢◌, eq_bytes, eq_bytes_refl, eq_bytes_sound, All, Bool-cases, inl, inr, lt_bytes,
}
use database_flashback.Base.Names.{has, Distinct}
use database_flashback.Base.Sort.{insert_key, sort_strings}
use database_flashback.Value.{Value, Image, image_get, keys}
use database_flashback.Reverse.{sorted_keys, value_at}
use database_flashback.Reverse.Statement.{pairs, same_value, holds, assign}

-- The columns that a statement names, with the row's values.
abbrev pub full : Image → Image
full r = pairs r (sorted_keys r)

has-insert_key : (c k : Bytes) (js : List Bytes) → has c (insert_key k js) ≡ has c (k ∷ js)
unfolding has insert_key
has-insert_key c k [] = refl
has-insert_key c k (j ∷ js) = ground (arith, has-insert_key c k js)

has-sort_strings : (c : Bytes) (ks : List Bytes) → has c (sort_strings ks) ≡ has c ks
unfolding has sort_strings
has-sort_strings c [] = refl
has-sort_strings c (k ∷ ks) =
    has-insert_key c k (sort_strings ks) ∙ ap (λ b. eq_bytes k c || b) (has-sort_strings c ks)

All-insert_key {ℓ} :
    (P : Bytes → Type ℓ) (k : Bytes) (js : List Bytes) → P k → All P js → All P (insert_key k js)
unfolding insert_key
All-insert_key P k [] h hs = (h, tt)
All-insert_key P k (j ∷ js) h hs = elim (Bool-cases (lt_bytes j k)) [
  | inl less ↦ rw less (hs.0, All-insert_key P k js h hs.1)
  | inr more ↦ rw more (h, hs)
]

All-sort_strings {ℓ} : (P : Bytes → Type ℓ) (ks : List Bytes) → All P ks → All P (sort_strings ks)
unfolding sort_strings
All-sort_strings P [] h = tt
All-sort_strings P (k ∷ ks) h = All-insert_key P k (sort_strings ks) h.0 (All-sort_strings P ks h.1)

All-of_insert_key {ℓ} :
    (P : Bytes → Type ℓ) (k : Bytes) (js : List Bytes) → All P (insert_key k js) → P k × All P js
unfolding insert_key
All-of_insert_key P k [] h = h
All-of_insert_key P k (j ∷ js) h = elim (Bool-cases (lt_bytes j k)) [
  | inl less ↦
      let h' = rw less at h in let (p, ps) = All-of_insert_key P k js h'.1 in (p, (h'.0, ps))
  | inr more ↦ rw more at h
]

All-of_sort_strings {ℓ} :
    (P : Bytes → Type ℓ) (ks : List Bytes) → All P (sort_strings ks) → All P ks
unfolding sort_strings
All-of_sort_strings P [] h = tt
All-of_sort_strings P (k ∷ ks) h =
    let (p, ps) = All-of_insert_key P k (sort_strings ks) h in (p, All-of_sort_strings P ks ps)

pairs_skip :
    (k : Bytes) (v : Value) (m : Image) (cs : List Bytes)
    → All (λ c. eq_bytes k c ≡ false) cs
    → pairs ((k, v) ∷ m) cs ≡ pairs m cs
unfolding image_get
pairs_skip k v m [] h = refl
pairs_skip k v m (c ∷ cs) h = rw (h.0, pairs_skip k v m cs h.1)

-- A row is determined by its values at its columns.
pairs-keys : (r : Image) → Distinct (keys r) → pairs r (keys r) ≡ r
unfolding image_get
pairs-keys [] h = refl
pairs-keys ((k, v) ∷ m) h = rw (eq_bytes_refl k, pairs_skip k v m (keys m) h.0, pairs-keys m h.1)

image_get-pairs :
    (c : Bytes) (m : Image) (cs : List Bytes)
    → image_get c (pairs m cs) ≡ (if has c cs then some (value_at m c) else none)
unfolding image_get has
image_get-pairs c m [] = refl
image_get-pairs c m (j ∷ cs) = elim (Bool-cases (eq_bytes j c)) [
  | inl same ↦ rw same (ap (λ n. some (value_at m n)) (eq_bytes_sound j c same))
  | inr differ ↦ rw differ (image_get-pairs c m cs)
]

image_get-missing : (c : Bytes) (m : Image) → has c (keys m) ≡ false → image_get c m ≡ none
unfolding image_get has
image_get-missing c [] h = refl
image_get-missing c ((k, v) ∷ m) h = ground (arith, h, image_get-missing c m)

-- The pairs of all of a row's columns, in the order of the statement, have the row's values.
value_at-pairs : (c : Bytes) (m : Image) → value_at (pairs m (sorted_keys m)) c ≡ value_at m c
unfolding sorted_keys
value_at-pairs c m = elim (Bool-cases (has c (keys m))) [
  | inl known ↦
      rw (image_get-pairs c m (sort_strings (keys m)), has-sort_strings c (keys m), known) refl
  | inr missing ↦
      rw
        (
          image_get-pairs c m (sort_strings (keys m)),
          has-sort_strings c (keys m),
          missing,
          image_get-missing c m missing,
        )
        refl
]

pairs_agree :
    (m n : Image) (cs : List Bytes)
    → All (λ c. value_at m c ≡ value_at n c) cs
    → pairs m cs ≡ pairs n cs
pairs_agree m n [] h = refl
pairs_agree m n (c ∷ cs) h = rw (h.0, pairs_agree m n cs h.1) refl

All-every {ℓ} : (P : Bytes → Type ℓ) (cs : List Bytes) → ((c : Bytes) → P c) → All P cs
All-every P [] f = tt
All-every P (c ∷ cs) f = (f c, All-every P cs f)

All-weaken {ℓ} :
    (P Q : Bytes → Type ℓ) (cs : List Bytes) → ((c : Bytes) → P c → Q c) → All P cs → All Q cs
All-weaken P Q [] f h = tt
All-weaken P Q (c ∷ cs) f h = (f c h.0, All-weaken P Q cs f h.1)

All-has : (cs : List Bytes) → All (λ c. has c cs ≡ true) cs
unfolding has
All-has [] = tt
All-has (c ∷ cs) = (
  rw (eq_bytes_refl c) refl,
  All-weaken (λ d. has d cs ≡ true) (λ d. has d (c ∷ cs) ≡ true) cs (λ d h. ground (arith, h))
      (All-has cs),
)

-- A new row with the values of `m`.
pub insert_pairs : (m : Image) → Distinct (keys m) → pairs (pairs m (sorted_keys m)) (keys m) ≡ m
insert_pairs m h =
    pairs_agree (pairs m (sorted_keys m)) m (keys m)
      (All-every _ (keys m) (λ c. value_at-pairs c m))
    ∙ pairs-keys m h

same_value_lem : (v w : Value) → same_value v w ≡ true → v ≡ w
unfolding same_value
same_value_lem v w h = ground (arith, h)

same_value_refl : (v : Value) → same_value v v ≡ true
unfolding same_value
same_value_refl v = ground arith

holds-agree :
    (m x : Image) (cs : List Bytes)
    → holds (pairs m cs) x ≡ true
    → All (λ c. value_at x c ≡ value_at m c) cs
unfolding holds
holds-agree m x [] h = tt
holds-agree m x (c ∷ cs) h = elim (Bool-cases (same_value (value_at x c) (value_at m c))) [
  | inl same ↦ let h' = rw same at h in (same_value_lem _ _ same, holds-agree m x cs h')
  | inr differ ↦ let e = rw differ at h in (cc)
]

pub holds_self : (m : Image) (cs : List Bytes) → holds (pairs m cs) m ≡ true
unfolding holds
holds_self m [] = refl
holds_self m (c ∷ cs) = rw (same_value_refl (value_at m c)) (holds_self m cs)

-- Only the row itself meets the conditions made of all its columns.
pub holds-pairs :
    (m x : Image)
    → Distinct (keys m)
    → keys x ≡ keys m
    → holds (pairs m (sorted_keys m)) x ≡ true
    → x ≡ m
unfolding sorted_keys
holds-pairs m x d e h =
    let agree =
      All-of_sort_strings (λ c. value_at x c ≡ value_at m c) (keys m)
        (holds-agree m x (sort_strings (keys m)) h) in
    sym (pairs-keys x (subst Distinct (sym e) d))
    ∙ ap (pairs x) e
    ∙ pairs_agree x m (keys m) agree
    ∙ pairs-keys m d

assign_known :
    (m x : Image)
    → All (λ c. has c (keys m) ≡ true) (keys x)
    → assign (pairs m (sorted_keys m)) x ≡ pairs m (keys x)
unfolding assign sorted_keys
assign_known m [] h = refl
assign_known m ((c, w) ∷ x) h =
    rw (image_get-pairs c m (sort_strings (keys m)), has-sort_strings c (keys m), h.0)
      (ap (λ r. (c, value_at m c) ∷ r) (assign_known m x h.1))

-- SET of all the columns of `m` makes any row of its shape `m`.
pub assign-pairs :
    (m x : Image) → Distinct (keys m) → keys x ≡ keys m → assign (pairs m (sorted_keys m)) x ≡ m
assign-pairs m x d e =
    assign_known m x (subst (λ ks. All (λ c. has c (keys m) ≡ true) ks) (sym e) (All-has (keys m)))
    ∙ ap (pairs m) e
    ∙ pairs-keys m d

pub image_get-known :
    (c : Bytes) (m : Image) → has c (keys m) ≡ true → image_get c m ≡ some (value_at m c)
unfolding image_get has
image_get-known c [] h = let e = h in (cc)
image_get-known c ((k, v) ∷ m) h = elim (Bool-cases (eq_bytes k c)) [
  | inl same ↦ rw same refl
  | inr differ ↦ let h' = rw differ at h in rw differ (image_get-known c m h')
]

pub sorted_keys-known : (m : Image) → All (λ c. has c (keys m) ≡ true) (sorted_keys m)
unfolding sorted_keys
sorted_keys-known m = All-sort_strings _ (keys m) (All-has (keys m))

pub sort_strings-nonempty : (k : Bytes) (ks : List Bytes) → sort_strings (k ∷ ks) ≢ []
unfolding has
sort_strings-nonempty k ks e =
    let one : has k (k ∷ ks) ≡ true = rw (eq_bytes_refl k) refl in
    let zero' : has k (sort_strings (k ∷ ks)) ≡ false = ap (has k) e in
    let same = has-sort_strings k (k ∷ ks) in (cc)
