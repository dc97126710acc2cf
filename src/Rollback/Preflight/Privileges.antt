-- ===== src/Rollback/Preflight/Privileges.antt =====
-- internal/rollback/preflight.go and internal/connector/mysql.go: the two searches for privileges.
use database_flashback.Base.{
  ℕ, ◌≡◌, refl, ◌∙◌, ◌⊎◌, inl, inr, true, false, ◌||◌, List, [], ◌∷◌, ◌++◌, Bytes, text, join,
  arith, Bool-cases,
}
use database_flashback.Parser.Ddl.{to_upper, contains, has_prefix, index_of}
use database_flashback.Connector.Preflight.{check_required_privileges, missing_from, required}
use database_flashback.Rollback.Preflight.{missing_privileges, absent}

contains-cons : (c : ℕ) (s p : Bytes) → contains (c ∷ s) p ≡ has_prefix (c ∷ s) p || contains s p
unfolding contains index_of
contains-cons c s p = ground arith

-- A text is absent where a shorter beginning of it is.
has_prefix_shorter : (s p q : Bytes) → has_prefix s p ≡ false → has_prefix s (p ++ q) ≡ false
has_prefix_shorter s [] q h = absurd (ground (arith, h))
has_prefix_shorter [] (c ∷ p) q h = refl
has_prefix_shorter (d ∷ s) (c ∷ p) q h = ground (arith, h, has_prefix_shorter s p q)

contains_shorter : (s p q : Bytes) → contains s p ≡ false → contains s (p ++ q) ≡ false
unfolding contains index_of
contains_shorter [] p q h = ground (arith, h, has_prefix_shorter [] p q)
contains_shorter (c ∷ s) p q h = ground (
  arith,
  h,
  has_prefix_shorter (c ∷ s) p q,
  contains_shorter s p q,
  contains-cons c s p,
  contains-cons c s (p ++ q),
)

has_prefix_nowhere : (s p : Bytes) → contains s p ≡ false → has_prefix s p ≡ false
unfolding contains index_of
has_prefix_nowhere [] p h = ground (arith, h)
has_prefix_nowhere (d ∷ s) p h = ground (arith, h)

-- And where what stands behind its first letter is.
contains_behind :
    (s : Bytes) (c : ℕ) (p : Bytes) → contains s p ≡ false → contains s (c ∷ p) ≡ false
unfolding contains index_of
contains_behind [] c p h = refl
contains_behind (d ∷ s) c p h =
    let later : contains s p ≡ false = ground (arith, h, contains-cons d s p) in
    ground (
      arith,
      later,
      has_prefix_nowhere s p later,
      contains_behind s c p later,
      contains-cons d s (c ∷ p),
    )

missing_from-absent :
    (grants : Bytes) (privs : List Bytes)
    → contains grants (text "ALL") ≡ false
    → missing_from grants privs ≡ absent grants privs
unfolding missing_from absent
missing_from-absent grants [] h = refl
missing_from-absent grants (p ∷ ps) h = ground (
  arith,
  h,
  contains_shorter grants (text "ALL") (text " PRIVILEGES") h,
  missing_from-absent grants ps h,
)

missing_from_all :
    (grants : Bytes) (privs : List Bytes)
    → contains grants (text "ALL") ≡ true
    → missing_from grants privs ≡ []
unfolding missing_from
missing_from_all grants [] h = refl
missing_from_all grants (p ∷ ps) h = ground (arith, h, missing_from_all grants ps h)

-- The two searches find the same privileges missing, unless the grants hold the letters ALL in any
-- place, where the connector finds none missing.
pub check_required_privileges-missing_privileges :
    (grants : List Bytes)
    → (check_required_privileges grants ≡ missing_privileges grants)
      ⊎ ((contains (to_upper (join (text " ") grants)) (text "ALL") ≡ true)
          × (check_required_privileges grants ≡ []))
unfolding check_required_privileges missing_privileges
check_required_privileges-missing_privileges grants =
    let upper = to_upper (join (text " ") grants) in
    elim (Bool-cases (contains upper (text "ALL"))) [
      | inl all ↦ inr (all, missing_from_all upper required all)
      | inr nowhere ↦
          let longer = contains_shorter upper (text "ALL") (text " PRIVILEGES") nowhere in
          let spaced =
            contains_behind upper b' ' (text "ALL ")
              (contains_shorter upper (text "ALL") (text " ") nowhere) in
          inl (missing_from-absent upper required nowhere ∙ ground (arith, longer, spaced))
    ]
