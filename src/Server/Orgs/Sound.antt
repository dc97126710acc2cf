-- ===== src/Server/Orgs/Sound.antt =====
-- internal/server/org: what holds of the organisations, and the calls that create one and add its members.
use database_flashback.Base.{
  ◌+◌, ◌≤◌, ◌≡◌, refl, ap, sym, subst, inl, inr, true, false, none, some, List, [], ◌∷◌, ◌++◌,
  Bytes, eq_bytes, eq_bytes_refl, eq_bytes_sound, if◌then◌else◌, arith, All, is_some, Bool-cases,
}
use database_flashback.Base.Names.{eq_bytes_sym}
use database_flashback.Server.Orgs.{
  OrgStore, Member, Invite, admin, member, create, with_member, add_member, has_member,
}
use database_flashback.Server.Orgs.Steps.{Orgs, Joining, new_orgs, stored, spend}
use database_flashback.Server.Orgs.Members.{
  admins, admins-append, unfinished, no_twice, no_twice-append, add_member-cases, admins-more,
  add_member-with_member, unfinished-split, All-split,
}

-- Every organisation that is stored has exactly one admin, or its creation is under way and it has no
-- member yet; no user is twice a member; who holds an invitation, or has had it checked, holds it to
-- an organisation with an admin.
pub record IsSound (s : Orgs) : Type 0 where
  pub one_admin :
      (o : Bytes)
      → admins (s.store.members o) + unfinished o s.creating
        ≡ (if is_some (s.store.orgs o) then 1 else 0)
  pub unknown : (o : Bytes) → s.store.orgs o ≡ none → s.store.members o ≡ []
  pub empty_yet : (o : Bytes) → 1 ≤ unfinished o s.creating → s.store.members o ≡ []
  pub invited :
      (code : Bytes) (i : Invite)
      → s.store.invites code ≡ some i
      → 1 ≤ admins (s.store.members i.org_id)
  pub checked : All (λ j. 1 ≤ admins (s.store.members j.org)) s.joining
  pub distinct : (o : Bytes) → no_twice (s.store.members o) ≡ true

pub new_orgs-IsSound : IsSound new_orgs
unfolding admins unfinished no_twice
new_orgs-IsSound = record {
  one_admin = λ o. refl;
  unknown = λ o h. refl;
  empty_yet = λ o h. refl;
  invited = λ code i h. absurd (ground (arith, h));
  checked = tt;
  distinct = λ o. refl;
}

pub creates-IsSound :
    (s : Orgs) (id user name : Bytes)
    → IsSound s
    → s.store.orgs id ≡ none
    → IsSound (record s { store = create id name s.store; creating = (user, id) ∷ s.creating })
unfolding unfinished
creates-IsSound s id user name h fresh = record {
  one_admin = λ o. elim (Bool-cases (eq_bytes o id)) [
    | inl same ↦
        let e = eq_bytes_sound o id same in
        ground (arith, h.one_admin o, fresh, e, same, eq_bytes_sym id o)
    | inr differs ↦ ground (arith, h.one_admin o, differs, eq_bytes_sym id o)
  ];
  unknown = λ o none_yet. h.unknown o (ground (arith, none_yet));
  empty_yet = λ o begun_now. elim (Bool-cases (eq_bytes o id)) [
    | inl same ↦
        subst (λ x. s.store.members x ≡ []) (sym (eq_bytes_sound o id same)) (h.unknown id fresh)
    | inr differs ↦ h.empty_yet o (ground (arith, begun_now, differs, eq_bytes_sym id o))
  ];
  invited = h.invited;
  checked = h.checked;
  distinct = h.distinct;
}

-- What every addition of a member to an organisation that has none like it keeps.
record Keeps (s : Orgs) (next : OrgStore) : Type 0 where
  more : (o : Bytes) → admins (s.store.members o) ≤ admins (next.members o)
  same_invites : (c : Bytes) → next.invites c ≡ s.store.invites c
  still_distinct : (o : Bytes) → no_twice (next.members o) ≡ true
  still_unknown : (o : Bytes) → next.orgs o ≡ none → next.members o ≡ []

with_member-Keeps :
    (s : Orgs) (org user role : Bytes)
    → IsSound s
    → is_some (s.store.orgs org) ≡ true
    → has_member user (s.store.members org) ≡ false
    → Keeps s (with_member org user role s.store)
with_member-Keeps s org user role h exists new_member =
    let m : Member = record { user_id = user; org_id = org; role = role } in
    record {
      more = λ o. elim (Bool-cases (eq_bytes o org)) [
        | inl same ↦ rw (same, eq_bytes_sound o org same) (admins-more (s.store.members org) m)
        | inr differs ↦ rw differs (omega arith)
      ];
      same_invites = λ c. refl;
      still_distinct = λ o. elim (Bool-cases (eq_bytes o org)) [
        | inl same ↦ rw same (no_twice-append (s.store.members org) m (h.distinct org) new_member)
        | inr differs ↦ rw differs (h.distinct o)
      ];
      still_unknown = λ o none_yet. elim (Bool-cases (eq_bytes o org)) [
        | inl same ↦
            let gone : s.store.orgs org ≡ none =
              subst (λ x. s.store.orgs x ≡ none) (eq_bytes_sound o org same) none_yet in
            absurd (ground (arith, gone, exists))
        | inr differs ↦ rw differs (h.unknown o none_yet)
      ];
    }

still_checked :
    (js : List Joining) (members next : Bytes → List Member)
    → ((o : Bytes) → admins (members o) ≤ admins (next o))
    → All (λ j. 1 ≤ admins (members j.org)) js
    → All (λ j. 1 ≤ admins (next j.org)) js
still_checked [] members next more h = tt
still_checked (j ∷ js) members next more h =
    (omega (arith, more j.org, h.0), still_checked js members next more h.1)

-- The creator becomes a member: the organisation has none yet, so `AddMember` gives no error.
pub adds_admin-IsSound :
    (s : Orgs) (user id : Bytes) (before after : List (Bytes × Bytes))
    → IsSound s
    → s.creating ≡ before ++ (user, id) ∷ after
    → IsSound (record s {
      store = stored (add_member id user admin s.store) s.store;
      creating = before ++ after;
    })
unfolding admins has_member
adds_admin-IsSound s user id before after h e =
    let at_id = unfinished-split id user id before after s.creating e in
    let waits : 1 ≤ unfinished id s.creating = ground (arith, at_id, eq_bytes_refl id) in
    let none_yet = h.empty_yet id waits in
    let exists : is_some (s.store.orgs id) ≡ true = ground (arith, h.one_admin id, waits) in
    let new_member : has_member user (s.store.members id) ≡ false = rw none_yet refl in
    let k = with_member-Keeps s id user admin h exists new_member in
    subst (λ o. IsSound (record s { store = stored o s.store; creating = before ++ after }))
      (sym (add_member-with_member id user admin s.store exists new_member))
      (record {
        one_admin = λ o. elim (Bool-cases (eq_bytes o id)) [
          | inl same ↦
              let nobody : admins (s.store.members id) ≡ 0 = ap admins none_yet in
              rw (same, eq_bytes_sound o id same)
                (ground (
                  arith,
                  admins-append (s.store.members id)
                      (record { user_id = user; org_id = id; role = admin } ∷ []),
                  nobody,
                  at_id,
                  eq_bytes_refl id,
                  h.one_admin id,
                  exists,
                ))
          | inr differs ↦ ground (
            arith,
            h.one_admin o,
            differs,
            eq_bytes_sym id o,
            unfinished-split o user id before after s.creating e,
          )
        ];
        unknown = k.still_unknown;
        empty_yet = λ o waiting. elim (Bool-cases (eq_bytes o id)) [
          | inl same ↦
              let twice : 1 ≤ unfinished id (before ++ after) =
                subst (λ x. 1 ≤ unfinished x (before ++ after)) (eq_bytes_sound o id same)
                  waiting in
              absurd (ground (arith, twice, at_id, eq_bytes_refl id, h.one_admin id, exists))
          | inr differs ↦ rw differs (
              h.empty_yet o (
                ground (
                  arith,
                  waiting,
                  differs,
                  eq_bytes_sym id o,
                  unfinished-split o user id before after s.creating e,
                )))
        ];
        invited = λ code i found. ground (arith, k.more i.org_id, h.invited code i found);
        checked = still_checked s.joining s.store.members _ k.more h.checked;
        distinct = k.still_distinct;
      })

-- A member who joins is no admin, and the organisation has one.
pub joins-IsSound :
    (s : Orgs) (j : Joining) (before after : List Joining)
    → IsSound s
    → s.joining ≡ before ++ j ∷ after
    → IsSound (record s {
      store = stored (add_member j.org j.user member s.store) s.store;
      joining = before ++ after;
      spent = spend (add_member j.org j.user member s.store) j.code s.spent;
    })
unfolding admins has_member
joins-IsSound s j before after h e =
    let (has_one, others) =
      All-split (λ x. 1 ≤ admins (s.store.members x.org)) before j after
        (subst (All (λ x. 1 ≤ admins (s.store.members x.org))) e h.checked) in
    elim (add_member-cases j.org j.user member s.store) [
      | inl same ↦ rw same (record {
        one_admin = h.one_admin;
        unknown = h.unknown;
        empty_yet = h.empty_yet;
        invited = h.invited;
        checked = others;
        distinct = h.distinct;
      })
      | inr (exists, new_member, now) ↦
          let k = with_member-Keeps s j.org j.user member h exists new_member in
          rw now (record {
            one_admin = λ o. elim (Bool-cases (eq_bytes o j.org)) [
              | inl same ↦
                  rw (same, eq_bytes_sound o j.org same)
                    (ground (
                      arith,
                      admins-append (s.store.members j.org)
                          (record { user_id = j.user; org_id = j.org; role = member } ∷ []),
                      h.one_admin j.org,
                    ))
              | inr differs ↦ rw differs (h.one_admin o)
            ];
            unknown = k.still_unknown;
            empty_yet = λ o waiting. elim (Bool-cases (eq_bytes o j.org)) [
              | inl same ↦
                  let unfinished_here : 1 ≤ unfinished j.org s.creating =
                    subst (λ x. 1 ≤ unfinished x s.creating) (eq_bytes_sound o j.org same)
                      waiting in
                  absurd (ground (arith, unfinished_here, has_one, h.one_admin j.org))
              | inr differs ↦ rw differs (h.empty_yet o waiting)
            ];
            invited = λ code i found. ground (arith, k.more i.org_id, h.invited code i found);
            checked = still_checked (before ++ after) s.store.members _ k.more others;
            distinct = k.still_distinct;
          })
    ]
