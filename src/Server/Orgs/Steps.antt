-- ===== src/Server/Orgs/Steps.antt =====
-- internal/server/org: requests whose calls of the store interleave. `Create` and `AcceptInvite` make
-- several calls, and other requests come in between. The random source gives an id that is new.
use database_flashback.Base.{Option, none, some, List, [], ◌∷◌, ◌++◌, Bytes, ◌≡◌}
use database_flashback.Server.Shared.{replied}
use database_flashback.Server.Orgs.{
  OrgStore, new_org_store, Organization, admin, member, create, create_checked, add_member, invite,
  accept_checked, delete_invite,
}

-- An acceptance behind its checks.
pub record Joining : Type 0 where
  pub user : Bytes
  pub org : Bytes
  pub code : Bytes

-- The store, the creations without their first member yet (user and id), the acceptances behind
-- their checks, and the codes that are to be deleted.
pub record Orgs : Type 0 where
  pub store : OrgStore
  pub creating : List (Bytes × Bytes)
  pub joining : List Joining
  pub spent : List Bytes

abbrev pub new_orgs : Orgs
new_orgs = record { store = new_org_store; creating = []; joining = []; spent = [] }

-- The store behind a call that may give an error.
abbrev pub stored : Option OrgStore → OrgStore → OrgStore
stored none s = s
stored (some next) s = next

abbrev pub spend : Option OrgStore → Bytes → List Bytes → List Bytes
spend none code codes = codes
spend (some next) code codes = code ∷ codes

pub data OrgStep (s : Orgs) : Orgs → Type 0 where
  creates :
      (id user name : Bytes) (body : Option Bytes)
      → create_checked user body ≡ replied 201 name
      → s.store.orgs id ≡ none
      → OrgStep s (record s { store = create id name s.store; creating = (user, id) ∷ s.creating })
  adds_admin :
      (user id : Bytes) (before after : List (Bytes × Bytes))
      → s.creating ≡ before ++ (user, id) ∷ after
      → OrgStep s (record s {
        store = stored (add_member id user admin s.store) s.store;
        creating = before ++ after;
      })
  invites_member :
      (code user org : Bytes) → OrgStep s (record s { store = (invite code user org s.store).0 })
  accepts :
      (user org code : Bytes) (body : Option Bytes) (found : Organization)
      → accept_checked user org body s.store ≡ replied 200 (code, found)
      → OrgStep s
          (record s { joining = record { user = user; org = org; code = code } ∷ s.joining })
  joins :
      (j : Joining) (before after : List Joining)
      → s.joining ≡ before ++ j ∷ after
      → OrgStep s (record s {
        store = stored (add_member j.org j.user member s.store) s.store;
        joining = before ++ after;
        spent = spend (add_member j.org j.user member s.store) j.code s.spent;
      })
  deletes :
      (code : Bytes) (before after : List Bytes)
      → s.spent ≡ before ++ code ∷ after
      → OrgStep s (record s { store = delete_invite code s.store; spent = before ++ after })

pub data OrgReaches (first : Orgs) : Orgs → Type 0 where
  begun : OrgReaches first first
  followed : {s next : Orgs} → OrgReaches first s → OrgStep s next → OrgReaches first next
