-- ===== src/Server/Orgs/Members.antt =====
-- internal/server/org: what an addition, an invitation and an acceptance do to members.
use database_flashback.Base.{
  ℕ, ◌+◌, ◌≤◌, ◌≡◌, refl, ap, subst, ◌⊎◌, inl, inr, Bool, true, false, ◌&&◌, ◌||◌, not, Option,
  none, some, List, [], ◌∷◌, ◌++◌, Bytes, eq_bytes, eq_bytes_refl, eq_bytes_sound, if◌then◌else◌,
  arith, All, is_some, Bool-cases, Option-cases,
}
use database_flashback.Base.Names.{eq_bytes_sym}
use database_flashback.Server.Shared.{replied}
use database_flashback.Server.Orgs.{
  OrgStore, Member, Invite, Organization, admin, with_member, add_member, issued, has_member,
  has_admin, invite, create_invite, accept_checked,
}
use database_flashback.Server.Orgs.Steps.{Joining}

unfoldable pub admins : List Member → ℕ
admins [] = 0
admins (m ∷ ms) = (if eq_bytes m.role admin then 1 else 0) + admins ms

pub admins-append : (xs ys : List Member) → admins (xs ++ ys) ≡ admins xs + admins ys
unfolding admins
admins-append [] ys = omega arith
admins-append (m ∷ xs) ys = omega (arith, admins-append xs ys)

-- How many creations of the organisation lack their admin.
unfoldable pub unfinished : Bytes → List (Bytes × Bytes) → ℕ
unfinished org [] = 0
unfinished org ((user, id) ∷ cs) = (if eq_bytes id org then 1 else 0) + unfinished org cs

unfinished-append :
    (org : Bytes) (xs ys : List (Bytes × Bytes))
    → unfinished org (xs ++ ys) ≡ unfinished org xs + unfinished org ys
unfolding unfinished
unfinished-append org [] ys = omega arith
unfinished-append org ((user, id) ∷ xs) ys = omega (arith, unfinished-append org xs ys)

-- No user is twice in the list.
unfoldable pub no_twice : List Member → Bool
unfolding has_member
no_twice [] = true
no_twice (m ∷ ms) = not (has_member m.user_id ms) && no_twice ms

has_member-append :
    (user : Bytes) (xs ys : List Member)
    → has_member user (xs ++ ys) ≡ (has_member user xs || has_member user ys)
unfolding has_member
has_member-append user [] ys = refl
has_member-append user (m ∷ xs) ys = ground (arith, has_member-append user xs ys)

pub no_twice-append :
    (ms : List Member) (m : Member)
    → no_twice ms ≡ true
    → has_member m.user_id ms ≡ false
    → no_twice (ms ++ m ∷ []) ≡ true
unfolding no_twice has_member
no_twice-append [] m h n = refl
no_twice-append (x ∷ ms) m h n = ground (
  arith,
  h,
  n,
  no_twice-append ms m,
  has_member-append x.user_id ms (m ∷ []),
  eq_bytes_sym m.user_id x.user_id,
)

pub has_admin-admins : (user : Bytes) (ms : List Member) → has_admin user ms ≡ true → 1 ≤ admins ms
unfolding has_admin admins
has_admin-admins user [] h = cc
has_admin-admins user (m ∷ ms) h = ground (arith, h, has_admin-admins user ms)

-- `AddMember` gives an error, or the organisation exists and the user is new to it.
pub add_member-cases :
    (org user role : Bytes) (s : OrgStore)
    → (add_member org user role s ≡ none)
      ⊎ ((is_some (s.orgs org) ≡ true)
          × (has_member user (s.members org) ≡ false)
          × (add_member org user role s ≡ some (with_member org user role s)))
unfolding add_member
add_member-cases org user role s = elim (Option-cases (s.orgs org)) [
  | inl missing ↦ inl (rw (missing, add_member) refl)
  | inr (o, found) ↦ elim (Bool-cases (has_member user (s.members org))) [
    | inl member_already ↦ inl (rw (found, member_already, add_member) refl)
    | inr new_member ↦ inr (rw found refl, new_member, rw (found, new_member, add_member) refl)
  ]
]

pub admins-more : (ms : List Member) (m : Member) → admins ms ≤ admins (ms ++ m ∷ [])
admins-more ms m = omega (arith, admins-append ms (m ∷ []))

pub add_member-with_member :
    (org user role : Bytes) (s : OrgStore)
    → is_some (s.orgs org) ≡ true
    → has_member user (s.members org) ≡ false
    → add_member org user role s ≡ some (with_member org user role s)
unfolding add_member
add_member-with_member org user role s exists new_member = elim (Option-cases (s.orgs org)) [
  | inl missing ↦ absurd (ground (arith, missing, exists))
  | inr (o, found) ↦ rw (found, new_member, add_member) refl
]

pub unfinished-split :
    (o user id : Bytes) (before after creating : List (Bytes × Bytes))
    → creating ≡ before ++ (user, id) ∷ after
    → unfinished o creating ≡ unfinished o (before ++ after) + (if eq_bytes id o then 1 else 0)
unfolding unfinished
unfinished-split o user id before after creating e =
    let whole = ap (unfinished o) e in
    let split = unfinished-append o before ((user, id) ∷ after) in
    let rest = unfinished-append o before after in omega (arith, whole, split, rest)

pub All-split :
    (P : Joining → Type 0) (before : List Joining) (j : Joining) (after : List Joining)
    → All P (before ++ j ∷ after)
    → P j × All P (before ++ after)
All-split P [] j after h = h
All-split P (x ∷ before) j after h =
    let rest = All-split P before j after h.1 in (rest.0, (h.0, rest.1))

-- The handler `Invite` changes nothing, or an admin of the organisation issues an invitation.
pub invite-cases :
    (code user org : Bytes) (s : OrgStore)
    → ((invite code user org s).0 ≡ s)
      ⊎ ((has_admin user (s.members org) ≡ true)
          × ((invite code user org s).0 ≡ issued code org user s))
unfolding invite create_invite
invite-cases code [] org s = inl refl
invite-cases code (c ∷ user) [] s = inl refl
invite-cases code (c ∷ user) (d ∷ org) s = elim (Option-cases (s.orgs (d ∷ org))) [
  | inl missing ↦ inl (ground (arith, missing))
  | inr (o, found) ↦ elim (Bool-cases (has_admin (c ∷ user) (s.members (d ∷ org)))) [
    | inl allowed ↦ inr (allowed, ground (arith, found, allowed))
    | inr other ↦ inl (ground (arith, found, other))
  ]
]

-- An acceptance is checked only with an invitation to its organisation.
pub accept_checked-invited :
    (user org code : Bytes) (body : Option Bytes) (found : Organization) (s : OrgStore)
    → accept_checked user org body s ≡ replied 200 (code, found)
    → (i : Invite) × (s.invites code ≡ some i) × (i.org_id ≡ org)
unfolding accept_checked
accept_checked-invited [] org code body found s h = cc
accept_checked-invited (c ∷ user) [] code body found s h = cc
accept_checked-invited (c ∷ user) (d ∷ org) code none found s h = cc
accept_checked-invited (c ∷ user) (d ∷ org) code (some []) found s h = cc
accept_checked-invited (c ∷ user) (d ∷ org) code (some (x ∷ xs)) found s h =
    elim (Option-cases (s.invites (x ∷ xs))) [
      | inl missing ↦ absurd (ground (arith, h, missing))
      | inr (i, there) ↦ elim (Bool-cases (eq_bytes i.org_id (d ∷ org))) [
        | inr other ↦ absurd (ground (arith, h, there, other))
        | inl own ↦ elim (Option-cases (s.orgs (d ∷ org))) [
          | inl gone ↦ absurd (ground (arith, h, there, own, gone))
          | inr (o, stored_org) ↦
              let same : (x ∷ xs) ≡ code = ground (arith, h, there, own, stored_org) in
              (
                i,
                subst (λ k. s.invites k ≡ some i) same there,
                eq_bytes_sound i.org_id (d ∷ org) own,
              )
        ]
      ]
    ]

pub has_member-with_member :
    (x org user role : Bytes) (s : OrgStore)
    → has_member x ((with_member org user role s).members org)
      ≡ (has_member x (s.members org) || eq_bytes user x)
unfolding has_member
has_member-with_member x org user role s = ground (
  arith,
  eq_bytes_refl org,
  has_member-append x (s.members org) (record { user_id = user; org_id = org; role = role } ∷ []),
)
