-- ===== src/Server/Orgs/Twice.antt =====
-- internal/server/org/handler.go: two requests `AcceptInvite` with one code.
use database_flashback.Base.{
  ◌≡◌, refl, ap, sym, subst, true, false, Option, [], ◌∷◌, Bytes, eq_bytes, eq_bytes_refl, arith,
  is_some,
}
use database_flashback.Server.Shared.{replied}
use database_flashback.Server.Orgs.{
  Organization, member, with_member, add_member, has_member, accept_checked,
}
use database_flashback.Server.Orgs.Steps.{
  Orgs, Joining, stored, spend, accepts, joins, OrgReaches, begun, followed,
}
use database_flashback.Server.Orgs.Members.{add_member-with_member, has_member-with_member}

-- When two users who are no members of an organisation would each pass the checks of `AcceptInvite`
-- with the same code, there is a run in which both become members, since the code is deleted behind
-- the addition and checked before it.
pub accept_twice :
    (s : Orgs) (u v org code : Bytes) (body body' : Option Bytes) (found found' : Organization)
    → accept_checked u org body s.store ≡ replied 200 (code, found)
    → accept_checked v org body' s.store ≡ replied 200 (code, found')
    → is_some (s.store.orgs org) ≡ true
    → has_member u (s.store.members org) ≡ false
    → has_member v (s.store.members org) ≡ false
    → eq_bytes u v ≡ false
    → (after : Orgs) × OrgReaches s after
      × (has_member u (after.store.members org) ≡ true)
      × (has_member v (after.store.members org) ≡ true)
unfolding has_member
accept_twice s u v org code body body' found found' pass_u pass_v exists new_u new_v differ =
    let j : Joining = record { user = u; org = org; code = code } in
    let k : Joining = record { user = v; org = org; code = code } in
    let first : Orgs = record s { joining = j ∷ s.joining } in
    let both : Orgs = record first { joining = k ∷ j ∷ s.joining } in
    let one = with_member org u member s.store in
    let one_joined : Orgs = record both {
      store = stored (add_member org u member s.store) s.store;
      joining = k ∷ s.joining;
      spent = spend (add_member org u member s.store) code s.spent;
    } in
    let now = add_member-with_member org u member s.store exists new_u in
    let store_one : one_joined.store ≡ one = ap (λ o. stored o s.store) now in
    let two : Orgs = record one_joined {
      store = stored (add_member org v member one_joined.store) one_joined.store;
      joining = s.joining;
      spent = spend (add_member org v member one_joined.store) code one_joined.spent;
    } in
    let in_one = λ (x : Bytes). has_member-with_member x org u member s.store in
    let still_new : has_member v (one.members org) ≡ false =
      ground (arith, in_one v, new_v, differ) in
    let then_now = add_member-with_member org v member one exists still_new in
    let store_two : two.store ≡ with_member org v member one =
      subst (λ t. stored (add_member org v member t) t ≡ with_member org v member one)
        (sym store_one) (ap (λ o. stored o one) then_now) in
    let in_two = λ (x : Bytes). has_member-with_member x org v member one in
    let joined =
      λ (x : Bytes) (h : has_member x ((with_member org v member one).members org) ≡ true).
        subst (λ t. has_member x (t.members org) ≡ true) (sym store_two) h in
    (
      two,
      followed
          (followed
            (followed (followed begun (accepts u org code body found pass_u))
              (accepts v org code body' found' pass_v))
            (joins j (k ∷ []) s.joining refl))
          (joins k [] s.joining refl),
      joined u (ground (arith, in_two u, in_one u, eq_bytes_refl u)),
      joined v (ground (arith, in_two v, eq_bytes_refl v)),
    )
