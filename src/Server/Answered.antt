-- ===== src/Server/Answered.antt =====
-- internal/server: what an answered request shows of the checks behind which it stands.
use database_flashback.Base.{
  ℕ, ◌≡◌, ap, sym, ◌∙◌, subst, Bool, true, Option, none, some, List, [], ◌∷◌, Bytes, text,
}
use database_flashback.Server.Shared.{Http, replied, and_then}
use database_flashback.Server.Orgs.{OrgStore}
use database_flashback.Server.Guard.{
  check_user, check_named, check_found, check_member, check_admin, is_member_of, is_admin_of,
  and_then-replied, check_member-replied, check_admin-replied,
}
use database_flashback.Server.Agents.{
  AgentRecord, AgentStore, RegisterRequest, register_agent, find_agent,
}
use database_flashback.Server.Audit.{check_audit}
use database_flashback.Server.Operations.{
  StoredOperation, OperationStore, StartRequest, check_start, check_operator,
}
use database_flashback.Server.Requests.{start, execute_request, find_operation, check_agent}
use database_flashback.Server.Platform.{Platform, Surroundings, register_request, start_request}
use database_flashback.Server.Checks.{
  agent_org, operation_org, org_of, check_user-replied, check_named-replied, check_found-replied,
  find_operation-replied,
}

-- What an answered request shows: the organisation, and that the user passes the test.
abbrev Shown : (OrgStore → Bytes → Bytes → Bool) → OrgStore → Bytes → Option Bytes → Type 0
Shown test orgs user about = (org : Bytes) × (about ≡ some org) × (test orgs org user ≡ true)

pub operation_answered :
    {B : Type 0} (orgs : OrgStore) (connected : Bytes → Bool) (user id : Bytes) (s : OperationStore)
    (f : StoredOperation → Http B) (code : ℕ) (b : B)
    → and_then (find_operation orgs connected user id s) f ≡ replied code b
    → Shown is_member_of orgs user (operation_org (s.ops id))
operation_answered orgs connected user id s f code b h =
    let (_, op, found, _) = and_then-replied (find_operation orgs connected user id s) f code b h in
    find_operation-replied orgs connected user id s op _ found

pub find_agent-replied :
    (user id u : Bytes) (s : AgentStore) (a : AgentRecord) (code : ℕ)
    → find_agent user id s ≡ replied code (u, a)
    → (u ≡ user) × (s.agents id ≡ some a)
unfolding find_agent
find_agent-replied user id u s a code h =
    let (_, u', as_user, h1) = and_then-replied (check_user user) _ code (u, a) h in
    let (_, i, as_id, h2) =
      and_then-replied (check_named (text "missing agent id") id) _ code (u, a) h1 in
    let (_, a', there, h3) =
      and_then-replied (check_found (text "agent not found") (s.agents i)) _ code (u, a) h2 in
    let same_user : u' ≡ u = cc in
    let same_agent : a' ≡ a = cc in
    let same_id = check_named-replied (text "missing agent id") id i _ as_id in
    let found = check_found-replied (text "agent not found") (s.agents i) a' _ there in
    (
      sym same_user ∙ check_user-replied user u' _ as_user,
      subst (λ k. s.agents k ≡ some a') same_id found ∙ ap some same_agent,
    )

-- A check of membership or of an admin behind the look-up of an agent.
pub agent_answered :
    {B : Type 0} (test : OrgStore → Bytes → Bytes → Bool) (orgs : OrgStore) (user id : Bytes)
    (s : AgentStore) (f : Bytes × AgentRecord → Http B) (code : ℕ) (b : B)
    → and_then (find_agent user id s) f ≡ replied code b
    → ((u : Bytes) (a : AgentRecord) → f (u, a) ≡ replied code b → test orgs a.org_id u ≡ true)
    → Shown test orgs user (agent_org (s.agents id))
agent_answered test orgs user id s f code b h passes =
    let (_, (u, a), found, h1) = and_then-replied (find_agent user id s) f code b h in
    let (same, there) = find_agent-replied user id u s a _ found in
    (a.org_id, ap agent_org there, subst (λ x. test orgs a.org_id x ≡ true) same (passes u a h1))

pub admin_answered :
    {B : Type 0} (reason : Bytes) (orgs : OrgStore) (org user : Bytes) (a : AgentRecord)
    (f : AgentRecord → Http B) (code : ℕ) (b : B)
    → and_then (check_admin reason orgs org user a) f ≡ replied code b
    → is_admin_of orgs org user ≡ true
admin_answered reason orgs org user a f code b h =
    let (_, own, passed, _) = and_then-replied (check_admin reason orgs org user a) f code b h in
    check_admin-replied reason orgs org user a own _ passed

-- The organisation that a request names itself.
pub named_answered :
    {B : Type 0} (message reason : Bytes) (orgs : OrgStore) (user org : Bytes) (f : Bytes → Http B)
    (code : ℕ) (b : B)
    → (and_then
        (check_user user)
        λ u. and_then (check_named message org) λ o. and_then (check_member reason orgs o u o) f)
      ≡ replied code b
    → Shown is_member_of orgs user (some org)
named_answered message reason orgs user org f code b h =
    let (_, u, as_user, h1) = and_then-replied (check_user user) _ code b h in
    let (_, o, as_org, h2) = and_then-replied (check_named message org) _ code b h1 in
    let (_, own, passed, _) = and_then-replied (check_member reason orgs o u o) f code b h2 in
    let mine = check_member-replied reason orgs o u o own _ passed in
    let same_org = check_named-replied message org o _ as_org in
    (
      o,
      ap some (sym same_org),
      subst (λ x. is_member_of orgs o x ≡ true) (check_user-replied user u _ as_user) mine,
    )

pub register_answered :
    (orgs : OrgStore) (id token user : Bytes) (body : Option RegisterRequest) (s : AgentStore)
    (code : ℕ) (out : AgentStore × AgentRecord) (p : Platform)
    → register_agent orgs id token user body s ≡ replied code out
    → Shown is_member_of orgs user (org_of (register_request body) p)
unfolding register_agent
register_answered orgs id token user none s code out p h =
    let (_, u, _, h1) = and_then-replied (check_user user) _ code out h in cc
register_answered orgs id token user (some r) s code out p h =
    let (_, u, as_user, h1) = and_then-replied (check_user user) _ code out h in
    let (_, host, _, h2) =
      and_then-replied (check_named (text "hostname is required") r.hostname) _ code out h1 in
    let (_, o, as_org, h3) =
      and_then-replied (check_named (text "orgId is required") r.org_id) _ code out h2 in
    let (_, own, passed, _) =
      and_then-replied (check_member (text "not a member of this organisation") orgs o u o) _ code
        out h3 in
    let mine =
      check_member-replied (text "not a member of this organisation") orgs o u o own _ passed in
    let same_org = check_named-replied (text "orgId is required") r.org_id o _ as_org in
    (
      o,
      ap some (sym same_org),
      subst (λ x. is_member_of orgs o x ≡ true) (check_user-replied user u _ as_user) mine,
    )

check_operator-replied :
    (user email u : Bytes) (code : ℕ) → check_operator user email ≡ replied code u → u ≡ user
unfolding check_operator
check_operator-replied user [] u code h = cc
check_operator-replied user (c ∷ email) u code h = check_user-replied user u code h

check_agent-replied :
    (orgs : OrgStore) (connected : Bytes → Bool) (user id : Bytes) (found : Option AgentRecord)
    (a : AgentRecord) (code : ℕ)
    → check_agent orgs connected user found id ≡ replied code a
    → Shown is_member_of orgs user (agent_org found)
unfolding check_agent
check_agent-replied orgs connected user id found a code h =
    let (_, b, there, h1) =
      and_then-replied (check_found (text "agent not found") found) _ code a h in
    let (_, own, passed, _) =
      and_then-replied
        (check_member (text "not a member of the agent's organisation") orgs b.org_id user b) _ code
        a h1 in
    (
      b.org_id,
      ap agent_org (check_found-replied (text "agent not found") found b _ there),
      check_member-replied (text "not a member of the agent's organisation") orgs b.org_id user b
          own _ passed,
    )

pub start_answered :
    (e : Surroundings) (p : Platform) (body : Option StartRequest) (code : ℕ)
    (out : OperationStore × StoredOperation)
    → start p.orgs e.connected e.parse_time p.agents.agents e.fresh e.now e.user e.email body
        p.operations
      ≡ replied code out
    → Shown is_member_of p.orgs e.user (org_of (start_request body) p)
unfolding start
start_answered e p none code out h =
    let (_, u, _, h1) = and_then-replied (check_operator e.user e.email) _ code out h in cc
start_answered e p (some r) code out h =
    let (_, u, as_user, h1) = and_then-replied (check_operator e.user e.email) _ code out h in
    let (_, times, _, h2) = and_then-replied (check_start e.parse_time r) _ code out h1 in
    let (_, a, found, _) =
      and_then-replied (check_agent p.orgs e.connected u (p.agents.agents r.agent_id) r.agent_id) _
        code out h2 in
    let (org, about, mine) =
      check_agent-replied p.orgs e.connected u r.agent_id (p.agents.agents r.agent_id) a _ found in
    (
      org,
      about,
      subst (λ x. is_member_of p.orgs org x ≡ true)
          (check_operator-replied e.user e.email u _ as_user) mine,
    )

pub execute_answered :
    (e : Surroundings) (p : Platform) (id : Bytes) (body : Option (List Bytes)) (code : ℕ)
    (out : OperationStore × StoredOperation)
    → execute_request p.orgs e.connected e.user e.email id body p.operations ≡ replied code out
    → Shown is_member_of p.orgs e.user (operation_org (p.operations.ops id))
unfolding execute_request
execute_answered e p id body code out h =
    let (_, u, as_user, h1) = and_then-replied (check_operator e.user e.email) _ code out h in
    let (org, about, mine) =
      operation_answered p.orgs e.connected u id p.operations _ code out h1 in
    (
      org,
      about,
      subst (λ x. is_member_of p.orgs org x ≡ true)
          (check_operator-replied e.user e.email u _ as_user) mine,
    )

pub audit_answered :
    {B : Type 0} (parse_time : Bytes → Option ℕ) (orgs : OrgStore) (user org : Bytes)
    (f : Bytes → Http B) (code : ℕ) (b : B)
    → and_then (check_audit parse_time orgs user org) f ≡ replied code b
    → Shown is_member_of orgs user (some org)
unfolding check_audit
audit_answered parse_time orgs user org f code b h =
    let (_, o, passed, _) = and_then-replied (check_audit parse_time orgs user org) f code b h in
    let (_, u, as_user, h1) = and_then-replied (check_user user) _ _ o passed in
    let (_, own, as_org, h2) =
      and_then-replied (check_named (text "org_id query parameter is required") org) _ _ o h1 in
    let mine =
      check_member-replied (text "not a member of this organisation") orgs own u own o _ h2 in
    (
      own,
      ap some
          (sym (check_named-replied (text "org_id query parameter is required") org own _ as_org)),
      subst (λ x. is_member_of orgs own x ≡ true) (check_user-replied user u _ as_user) mine,
    )
