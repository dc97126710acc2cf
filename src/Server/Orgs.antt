-- ===== src/Server/Orgs.antt =====
-- internal/server/org/store.go and handler.go: organisations, members and invitations. The random ids
-- and codes are arguments; times, and the list of all organisations, which no handler asks for, are
-- left out. Each operation of the store holds its lock, so it is one function.
pub mod Steps
pub mod Members
pub mod Sound
pub mod Runs
pub mod Twice
use database_flashback.Base.{
  ℕ, Bool, true, false, not, ◌&&◌, ◌||◌, Option, none, some, List, [], ◌∷◌, ◌++◌, Bytes, text,
  eq_bytes, if◌then◌else◌,
}
use database_flashback.Base.Names.{has}
use database_flashback.Server.Shared.{Http, refused, replied, with_key, authenticated, named}

pub record Organization : Type 0 where
  pub id : Bytes
  pub name : Bytes

pub record Member : Type 0 where
  pub user_id : Bytes
  pub org_id : Bytes
  pub role : Bytes

pub record Invite : Type 0 where
  pub code : Bytes
  pub org_id : Bytes
  pub created_by : Bytes

-- The store: its three maps, and the keys of `members` in the order in which it iterates over them.
pub record OrgStore : Type 0 where
  pub orgs : Bytes → Option Organization
  pub members : Bytes → List Member
  pub invites : Bytes → Option Invite
  pub keys : List Bytes

abbrev pub new_org_store : OrgStore
new_org_store = record { orgs = λ _. none; members = λ _. []; invites = λ _. none; keys = [] }

abbrev pub admin : Bytes
admin = text "admin"

abbrev pub member : Bytes
member = text "member"

-- `Create` of an organisation without an id, with the id that `generateOrgID` gives.
abbrev pub create : Bytes → Bytes → OrgStore → OrgStore
create id name s = record s { orgs = with_key id (some (record { id = id; name = name })) s.orgs }

-- `orgMemberContains`, `isMember` and the loops that do the same.
unfoldable pub has_member : Bytes → List Member → Bool
has_member user [] = false
has_member user (m ∷ ms) = eq_bytes m.user_id user || has_member user ms

unfoldable pub has_admin : Bytes → List Member → Bool
has_admin user [] = false
has_admin user (m ∷ ms) = (eq_bytes m.user_id user && eq_bytes m.role admin) || has_admin user ms

-- The store with one more member.
abbrev pub with_member : Bytes → Bytes → Bytes → OrgStore → OrgStore
with_member org user role s = record s {
  members =
      with_key org (s.members org ++ record { user_id = user; org_id = org; role = role } ∷ [])
        s.members;
  keys = if has org s.keys then s.keys else s.keys ++ org ∷ [];
}

-- `AddMember`; each of its two errors is `none`, for which the handlers below give one text.
unfoldable pub add_member : Bytes → Bytes → Bytes → OrgStore → Option OrgStore
unfolding has_member has
add_member org user role s = elim (s.orgs org) [
  | none ↦ none
  | some _ ↦ if has_member user (s.members org) then none else some (with_member org user role s)
]

-- `RemoveMember`, which no handler calls.
unfoldable without_member : Bytes → List Member → List Member
without_member user [] = []
without_member user (m ∷ ms) = if eq_bytes m.user_id user then ms else m ∷ without_member user ms

remove_member : Bytes → Bytes → OrgStore → Option OrgStore
unfolding has_member without_member
remove_member org user s =
    if has_member user (s.members org)
    then some (record s { members = with_key org (without_member user (s.members org)) s.members })
    else none

-- `ListMembers`.
abbrev pub list_members : OrgStore → Bytes → Option (List Member)
list_members s org = elim (s.orgs org) [ none ↦ none | some _ ↦ some (s.members org) ]

-- `ListByUserID`.
unfoldable orgs_of : OrgStore → Bytes → List Bytes → List Organization
unfolding has_member
orgs_of s user [] = []
orgs_of s user (k ∷ ks) =
    let rest = orgs_of s user ks in
    if has_member user (s.members k)
    then elim (s.orgs k) [ none ↦ rest | some org ↦ org ∷ rest ]
    else rest

-- The store with one more invitation.
abbrev pub issued : Bytes → Bytes → Bytes → OrgStore → OrgStore
issued code org user s = record s {
  invites =
      with_key code (some (record { code = code; org_id = org; created_by = user })) s.invites;
}

-- `CreateInvite` with the code that `generateInviteCode` gives, and `DeleteInvite`.
unfoldable pub create_invite : Bytes → Bytes → Bytes → OrgStore → Option OrgStore
create_invite code org user s = elim (s.orgs org) [
  | none ↦ none
  | some _ ↦ some (issued code org user s)
]

abbrev pub delete_invite : Bytes → OrgStore → OrgStore
delete_invite code s = record s { invites = with_key code none s.invites }

-- The checks of the handler `Create`; `none` is a body that cannot be decoded.
unfoldable pub create_checked : Bytes → Option Bytes → Http Bytes
create_checked user body =
    authenticated user
      (λ u. elim body [
        | none ↦ refused 400 (text "invalid request body")
        | some name ↦ named (text "name is required") name (replied 201) refused
      ])
      refused

-- `Create`.
unfoldable create_org : Bytes → Bytes → Option Bytes → OrgStore → OrgStore × Http Organization
unfolding create_checked add_member
create_org id user body s = elim (create_checked user body) [
  | refused status message ↦ (s, refused status message)
  | replied status name ↦
      let created = create id name s in
      elim (add_member id user admin created) [
        | none ↦ (created, refused 500 (text "organisation or member"))
        | some next ↦ (next, replied 201 (record { id = id; name = name }))
      ]
]

-- `List`.
unfoldable list_orgs : Bytes → OrgStore → Http (List Organization)
unfolding orgs_of
list_orgs user s = authenticated user (λ u. replied 200 (orgs_of s u s.keys)) refused

-- `Invite`.
unfoldable pub invite : Bytes → Bytes → Bytes → OrgStore → OrgStore × Http Bytes
unfolding has_admin create_invite
invite code user org s =
    authenticated user
      (λ u.
        named (text "missing org id") org
          (λ o. elim (list_members s o) [
            | none ↦ (s, refused 404 (text "organisation not found"))
            | some ms ↦
                if has_admin u ms
                then elim (create_invite code o u s) [
                  | none ↦ (s, refused 500 (text "organisation not found"))
                  | some next ↦ (next, replied 201 code)
                ]
                else (s, refused 403 (text "only admins can invite members"))
          ])
          (λ status message. (s, refused status message)))
      (λ status message. (s, refused status message))

-- `AcceptInvite` up to its call of `AddMember`.
unfoldable pub accept_checked :
    Bytes → Bytes → Option Bytes → OrgStore → Http (Bytes × Organization)
accept_checked user org body s =
    authenticated user
      (λ u.
        named (text "missing org id") org
          (λ o. elim body [
            | none ↦ refused 400 (text "invalid request body")
            | some text_of_code ↦
                named (text "code is required") text_of_code
                  (λ code. elim (s.invites code) [
                    | none ↦ refused 404 (text "invalid invitation code")
                    | some i ↦
                        if eq_bytes i.org_id o
                        then elim (s.orgs o) [
                          | none ↦ refused 404 (text "organisation not found")
                          | some found ↦ replied 200 (code, found)
                        ]
                        else refused 400 (text "invitation code does not match organisation")
                  ])
                  refused
          ])
          refused)
      refused

-- `AcceptInvite` without other requests in between.
unfoldable accept_invite : Bytes → Bytes → Option Bytes → OrgStore → OrgStore × Http Organization
unfolding accept_checked add_member
accept_invite user org body s = elim (accept_checked user org body s) [
  | refused status message ↦ (s, refused status message)
  | replied status (code, found) ↦ elim (add_member org user member s) [
    | none ↦ (s, refused 409 (text "organisation or member"))
    | some next ↦ (delete_invite code next, replied 200 found)
  ]
]

-- `ListMembers` of the handler.
unfoldable members_of : Bytes → Bytes → OrgStore → Http (List Member)
unfolding has_member
members_of user org s =
    authenticated user
      (λ u.
        named (text "missing org id") org
          (λ o. elim (list_members s o) [
            | none ↦ refused 404 (text "organisation not found")
            | some ms ↦
                if has_member u ms
                then replied 200 ms
                else refused 403 (text "not a member of this organisation")
          ])
          refused)
      refused
