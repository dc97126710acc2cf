-- ===== src/Server/Orgs/Runs.antt =====
-- internal/server/org: what holds of the organisations in every run of requests.
use database_flashback.Base.{
  ◌≤◌, ◌≡◌, subst, inl, inr, Option, List, ◌∷◌, ◌++◌, Bytes, eq_bytes, arith, Bool-cases,
}
use database_flashback.Server.Shared.{replied}
use database_flashback.Server.Orgs.{Organization, invite, accept_checked, delete_invite}
use database_flashback.Server.Orgs.Steps.{
  Orgs, new_orgs, OrgStep, creates, adds_admin, invites_member, accepts, joins, deletes, OrgReaches,
  begun, followed,
}
use database_flashback.Server.Orgs.Members.{
  admins, has_admin-admins, invite-cases, accept_checked-invited,
}
use database_flashback.Server.Orgs.Sound.{
  IsSound, new_orgs-IsSound, creates-IsSound, adds_admin-IsSound, joins-IsSound,
}

invites_member-IsSound :
    (s : Orgs) (code user org : Bytes)
    → IsSound s
    → IsSound (record s { store = (invite code user org s.store).0 })
invites_member-IsSound s code user org h = elim (invite-cases code user org s.store) [
  | inl same ↦ rw same (record {
    one_admin = h.one_admin;
    unknown = h.unknown;
    empty_yet = h.empty_yet;
    invited = h.invited;
    checked = h.checked;
    distinct = h.distinct;
  })
  | inr (allowed, now) ↦ rw now (record {
    one_admin = h.one_admin;
    unknown = h.unknown;
    empty_yet = h.empty_yet;
    invited = λ c i found. elim (Bool-cases (eq_bytes c code)) [
      | inl same ↦
          let own : org ≡ i.org_id = ground (arith, found, same) in
          subst (λ o. 1 ≤ admins (s.store.members o)) own
            (has_admin-admins user (s.store.members org) allowed)
      | inr differs ↦ h.invited c i (ground (arith, found, differs))
    ];
    checked = h.checked;
    distinct = h.distinct;
  })
]

accepts-IsSound :
    (s : Orgs) (user org code : Bytes) (body : Option Bytes) (found : Organization)
    → IsSound s
    → accept_checked user org body s.store ≡ replied 200 (code, found)
    → IsSound (record s { joining = record { user = user; org = org; code = code } ∷ s.joining })
accepts-IsSound s user org code body found h passed =
    let (i, there, own) = accept_checked-invited user org code body found s.store passed in
    record {
      one_admin = h.one_admin;
      unknown = h.unknown;
      empty_yet = h.empty_yet;
      invited = h.invited;
      checked =
          (subst (λ o. 1 ≤ admins (s.store.members o)) own (h.invited code i there), h.checked);
      distinct = h.distinct;
    }

deletes-IsSound :
    (s : Orgs) (code : Bytes) (codes : List Bytes)
    → IsSound s
    → IsSound (record s { store = delete_invite code s.store; spent = codes })
deletes-IsSound s code codes h = record {
  one_admin = h.one_admin;
  unknown = h.unknown;
  empty_yet = h.empty_yet;
  invited = λ c i found. elim (Bool-cases (eq_bytes c code)) [
    | inl same ↦ absurd (ground (arith, found, same))
    | inr differs ↦ h.invited c i (ground (arith, found, differs))
  ];
  checked = h.checked;
  distinct = h.distinct;
}

OrgStep-IsSound : (s next : Orgs) → IsSound s → OrgStep s next → IsSound next
OrgStep-IsSound s _ h (creates id user name body passed fresh) =
    creates-IsSound s id user name h fresh
OrgStep-IsSound s _ h (adds_admin user id before after e) =
    adds_admin-IsSound s user id before after h e
OrgStep-IsSound s _ h (invites_member code user org) = invites_member-IsSound s code user org h
OrgStep-IsSound s _ h (accepts user org code body found passed) =
    accepts-IsSound s user org code body found h passed
OrgStep-IsSound s _ h (joins j before after e) = joins-IsSound s j before after h e
OrgStep-IsSound s _ h (deletes code before after e) = deletes-IsSound s code (before ++ after) h

-- In every run of requests from the empty store, however the calls of the handlers interleave and
-- whoever asks: an organisation that is stored has exactly one admin, or its creation is under way
-- and it has no member; no user is twice a member of an organisation; and an invitation, or an
-- acceptance that has passed its checks, is for an organisation that has its admin.
pub OrgReaches-IsSound : (s : Orgs) → OrgReaches new_orgs s → IsSound s
OrgReaches-IsSound _ begun = new_orgs-IsSound
OrgReaches-IsSound _ (followed r step) = OrgStep-IsSound _ _ (OrgReaches-IsSound _ r) step
