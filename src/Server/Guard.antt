-- ===== src/Server/Guard.antt =====
-- internal/server: the checks at the head of the handlers, in the order in which they are made.
use database_flashback.Base.{
  ℕ, ◌≡◌, refl, inl, inr, Bool, true, false, Option, none, some, [], ◌∷◌, Bytes, text,
  if◌then◌else◌, arith, Bool-cases, Option-cases,
}
use database_flashback.Server.Shared.{Http, refused, replied, and_then}
use database_flashback.Server.Orgs.{OrgStore, list_members, has_member, has_admin}

-- Who asks.
unfoldable pub check_user : Bytes → Http Bytes
check_user [] = refused 401 (text "not authenticated")
check_user (c ∷ user) = replied 200 (c ∷ user)

unfoldable pub check_named : Bytes → Bytes → Http Bytes
check_named message [] = refused 400 message
check_named message (c ∷ name) = replied 200 (c ∷ name)

unfoldable pub check_found {ℓ} : {A : Type ℓ} → Bytes → Option A → Http A
check_found message none = refused 404 message
check_found message (some a) = replied 200 a

-- A condition, with the status and the text of its refusal.
unfoldable pub check_that {ℓ} : {A : Type ℓ} → ℕ → Bytes → Bool → A → Http A
check_that status message b a = if b then replied 200 a else refused status message

-- Whether the user is a member, or an admin, of the organisation.
unfoldable pub is_member_of : OrgStore → Bytes → Bytes → Bool
unfolding has_member
is_member_of orgs org user = elim (list_members orgs org) [
  | none ↦ false
  | some ms ↦ has_member user ms
]

unfoldable pub is_admin_of : OrgStore → Bytes → Bytes → Bool
unfolding has_admin
is_admin_of orgs org user = elim (list_members orgs org) [
  | none ↦ false
  | some ms ↦ has_admin user ms
]

unfoldable pub check_member {ℓ} : {A : Type ℓ} → Bytes → OrgStore → Bytes → Bytes → A → Http A
unfolding has_member
check_member message orgs org user a = elim (list_members orgs org) [
  | none ↦ refused 404 (text "organisation not found")
  | some ms ↦ if has_member user ms then replied 200 a else refused 403 message
]

unfoldable pub check_admin {ℓ} : {A : Type ℓ} → Bytes → OrgStore → Bytes → Bytes → A → Http A
unfolding has_admin
check_admin message orgs org user a = elim (list_members orgs org) [
  | none ↦ refused 404 (text "organisation not found")
  | some ms ↦ if has_admin user ms then replied 200 a else refused 403 message
]

-- What stands behind a check goes on only where the check passes.
pub and_then-replied {ℓ} :
    {A B : Type ℓ} (m : Http A) (f : A → Http B) (status : ℕ) (b : B)
    → and_then m f ≡ replied status b
    → (code : ℕ) × (a : A) × (m ≡ replied code a) × (f a ≡ replied status b)
and_then-replied (refused code message) f status b h = cc
and_then-replied (replied code a) f status b h = (code, a, refl, h)

pub check_member-replied {ℓ} :
    {A : Type ℓ} (message : Bytes) (orgs : OrgStore) (org user : Bytes) (a b : A) (status : ℕ)
    → check_member message orgs org user a ≡ replied status b
    → is_member_of orgs org user ≡ true
unfolding check_member is_member_of
check_member-replied message orgs org user a b status h = elim (Option-cases (orgs.orgs org)) [
  | inl missing ↦ absurd (ground (arith, h, missing))
  | inr (o, found) ↦ elim (Bool-cases (has_member user (orgs.members org))) [
    | inl allowed ↦ ground (arith, found, allowed)
    | inr other ↦ absurd (ground (arith, h, found, other))
  ]
]

pub check_admin-replied {ℓ} :
    {A : Type ℓ} (message : Bytes) (orgs : OrgStore) (org user : Bytes) (a b : A) (status : ℕ)
    → check_admin message orgs org user a ≡ replied status b
    → is_admin_of orgs org user ≡ true
unfolding check_admin is_admin_of
check_admin-replied message orgs org user a b status h = elim (Option-cases (orgs.orgs org)) [
  | inl missing ↦ absurd (ground (arith, h, missing))
  | inr (o, found) ↦ elim (Bool-cases (has_admin user (orgs.members org))) [
    | inl allowed ↦ ground (arith, found, allowed)
    | inr other ↦ absurd (ground (arith, h, found, other))
  ]
]

-- A check that passes gives on what it was given.
pub check_admin-same {ℓ} :
    {A : Type ℓ} (message : Bytes) (orgs : OrgStore) (org user : Bytes) (a b : A) (status : ℕ)
    → check_admin message orgs org user a ≡ replied status b
    → b ≡ a
unfolding check_admin
check_admin-same message orgs org user a b status h = elim (Option-cases (orgs.orgs org)) [
  | inl missing ↦ absurd (ground (arith, h, missing))
  | inr (o, found) ↦ elim (Bool-cases (has_admin user (orgs.members org))) [
    | inl allowed ↦ ground (arith, h, found, allowed)
    | inr other ↦ absurd (ground (arith, h, found, other))
  ]
]
