-- ===== src/Server/Approval.antt =====
-- internal/server/agent: who approves agents.
use database_flashback.Base.{
  ℕ, ◌≡◌, ap, sym, ◌∙◌, subst, ◌⊎◌, inl, inr, true, Option, none, some, Bytes, text, eq_bytes,
  arith, Bool-cases,
}
use database_flashback.Server.Shared.{Http, replied, and_then}
use database_flashback.Server.Orgs.{OrgStore}
use database_flashback.Server.Guard.{
  check_user, check_named, check_member, check_admin, is_admin_of, and_then-replied,
  check_admin-same,
}
use database_flashback.Server.Agents.{
  AgentRecord, AgentStore, RegisterRequest, put_agent, register_agent, list_agents, approve, reject,
  get_agent, find_agent,
}
use database_flashback.Server.Audit.{query_audit, export_audit}
use database_flashback.Server.Requests.{
  start, status, cancel_operation, preview, progress, execute_request, list_operations,
}
use database_flashback.Server.Platform.{
  Platform, Surroundings, Request, register_request, list_agents_request, approve_request,
  reject_request, get_agent_request, list_operations_request, start_request, status_request,
  cancel_request, preview_request, progress_request, run_request, query_request, export_request,
  Body, answer_to,
}
use database_flashback.Server.Answered.{find_agent-replied, admin_answered}

-- An approved agent was approved before, or the user is an admin of its organisation.
abbrev Vouched : OrgStore → Bytes → Option AgentRecord → AgentRecord → Type 0
Vouched orgs user before a =
    ((b : AgentRecord) × (before ≡ some b) × (b.approved ≡ true))
    ⊎ (is_admin_of orgs a.org_id user ≡ true)

register_vouched :
    (orgs : OrgStore) (id token user : Bytes) (body : Option RegisterRequest) (s : AgentStore)
    (code : ℕ) (next : AgentStore) (new : AgentRecord) (k : Bytes) (a : AgentRecord)
    → register_agent orgs id token user body s ≡ replied code (next, new)
    → next.agents k ≡ some a
    → a.approved ≡ true
    → s.agents k ≡ some a
unfolding register_agent put_agent
register_vouched orgs id token user none s code next new k a h there so =
    let (_, u, _, h1) = and_then-replied (check_user user) _ code (next, new) h in cc
register_vouched orgs id token user (some r) s code next new k a h there so =
    let (_, u, _, h1) = and_then-replied (check_user user) _ code (next, new) h in
    let (_, host, _, h2) =
      and_then-replied (check_named (text "hostname is required") r.hostname) _ code (next, new)
        h1 in
    let (_, o, _, h3) =
      and_then-replied (check_named (text "orgId is required") r.org_id) _ code (next, new) h2 in
    let (_, own, _, h4) =
      and_then-replied (check_member (text "not a member of this organisation") orgs o u o) _ code
        (next, new) h3 in
    elim (Bool-cases (eq_bytes k id)) [
      | inl same ↦ absurd (ground (arith, h4, there, so, same))
      | inr differs ↦ ground (arith, h4, there, so, differs)
    ]

approve-Vouched :
    (orgs : OrgStore) (serial user id : Bytes) (s : AgentStore) (code : ℕ) (next : AgentStore)
    (new : AgentRecord) (k : Bytes) (a : AgentRecord)
    → approve orgs serial user id s ≡ replied code (next, new)
    → next.agents k ≡ some a
    → a.approved ≡ true
    → Vouched orgs user (s.agents k) a
unfolding approve put_agent
approve-Vouched orgs serial user id s code next new k a h there so =
    let reason = text "only organisation admins can approve agents" in
    let (_, (u, b), found, h1) = and_then-replied (find_agent user id s) _ code (next, new) h in
    let (_, own, passed, h2) =
      and_then-replied (check_admin reason orgs b.org_id u b) _ code (next, new) h1 in
    let (same_user, _) = find_agent-replied user id u s b _ found in
    let checked_admin = admin_answered reason orgs b.org_id u b _ code (next, new) h1 in
    let same_agent : own ≡ b = check_admin-same reason orgs b.org_id u b own _ passed in
    elim (Bool-cases (eq_bytes k own.id)) [
      | inl same ↦
          let org : a.org_id ≡ own.org_id = ground (arith, h2, there, same) in
          inr (
            subst (λ o. is_admin_of orgs o user ≡ true) (sym (org ∙ ap (λ x. x.org_id) same_agent))
              (subst (λ x. is_admin_of orgs b.org_id x ≡ true) same_user checked_admin))
      | inr differs ↦ inl (a, ground (arith, h2, there, differs), so)
    ]

reject_vouched :
    (orgs : OrgStore) (user id : Bytes) (s : AgentStore) (code : ℕ) (next : AgentStore) (k : Bytes)
    (a : AgentRecord)
    → reject orgs user id s ≡ replied code next
    → next.agents k ≡ some a
    → s.agents k ≡ some a
unfolding reject
reject_vouched orgs user id s code next k a h there =
    let reason = text "only organisation admins can reject agents" in
    let (_, (u, b), _, h1) = and_then-replied (find_agent user id s) _ code next h in
    let (_, own, _, h2) = and_then-replied (check_admin reason orgs b.org_id u b) _ code next h1 in
    elim (Bool-cases (eq_bytes k id)) [
      | inl same ↦ absurd (ground (arith, h2, there, same))
      | inr differs ↦ ground (arith, h2, there, differs)
    ]

-- Requests about anything else leave the agents alone.
and_then-Vouched :
    {A : Type 0} (e : Surroundings) (p next : Platform) (body : Body) (m : Http A)
    (f : A → Http (Platform × Body)) (code : ℕ) (k : Bytes) (a : AgentRecord)
    → and_then m f ≡ replied code (next, body)
    → ((x : A) (c : ℕ) (n : Platform) (b : Body) → f x ≡ replied c (n, b) → n.agents ≡ p.agents)
    → next.agents.agents k ≡ some a
    → a.approved ≡ true
    → Vouched p.orgs e.user (p.agents.agents k) a
and_then-Vouched e p next body m f code k a h keeps there so =
    let (_, x, _, h1) = and_then-replied m f code (next, body) h in
    inl (a, subst (λ s. s.agents k ≡ some a) (keeps x code next body h1) there, so)

-- An agent that is approved behind an answered request was approved before it, or an admin of its
-- organisation made the request.
pub answer_to_approves :
    (e : Surroundings) (r : Request) (p next : Platform) (body : Body) (code : ℕ) (k : Bytes)
    (a : AgentRecord)
    → answer_to e r p ≡ replied code (next, body)
    → next.agents.agents k ≡ some a
    → a.approved ≡ true
    → ((b : AgentRecord) × (p.agents.agents k ≡ some b) × (b.approved ≡ true))
      ⊎ (is_admin_of p.orgs a.org_id e.user ≡ true)
unfolding answer_to
answer_to_approves e (register_request req) p next body code k a h there so =
    let m = register_agent p.orgs e.fresh e.token e.user req p.agents in
    let (_, (s, new), h1, h2) = and_then-replied m _ code (next, body) h in
    let same : next.agents ≡ s = ground (arith, h2) in
    let there_now = subst (λ t. t.agents k ≡ some a) same there in
    inl (
      a,
      register_vouched p.orgs e.fresh e.token e.user req p.agents _ s new k a h1 there_now so,
      so,
    )
answer_to_approves e (approve_request id) p next body code k a h there so =
    let m = approve p.orgs e.fresh e.user id p.agents in
    let (_, (s, new), h1, h2) = and_then-replied m _ code (next, body) h in
    let same : next.agents ≡ s = ground (arith, h2) in
    let there_now = subst (λ t. t.agents k ≡ some a) same there in
    approve-Vouched p.orgs e.fresh e.user id p.agents _ s new k a h1 there_now so
answer_to_approves e (reject_request id) p next body code k a h there so =
    let m = reject p.orgs e.user id p.agents in
    let (_, s, h1, h2) = and_then-replied m _ code (next, body) h in
    let same : next.agents ≡ s = ground (arith, h2) in
    let there_now = subst (λ t. t.agents k ≡ some a) same there in
    inl (a, reject_vouched p.orgs e.user id p.agents _ s k a h1 there_now, so)
answer_to_approves e (list_agents_request org) p next body code k a h there so =
    and_then-Vouched e p next body (list_agents p.orgs e.user org p.agents) _ code k a h
      (λ x c n b g. ground (arith, g)) there so
answer_to_approves e (get_agent_request id) p next body code k a h there so =
    and_then-Vouched e p next body (get_agent p.orgs e.user id p.agents) _ code k a h
      (λ x c n b g. ground (arith, g)) there so
answer_to_approves e (list_operations_request org from to) p next body code k a h there so =
    and_then-Vouched e p next body
      (list_operations p.orgs e.connected e.parse_time e.user org from to p.operations) _ code k a h
      (λ x c n b g. ground (arith, g)) there so
answer_to_approves e (start_request req) p next body code k a h there so =
    and_then-Vouched e p next body
      (start p.orgs e.connected e.parse_time p.agents.agents e.fresh e.now e.user e.email req
        p.operations)
      _ code k a h (λ x c n b g. ground (arith, g)) there so
answer_to_approves e (status_request id) p next body code k a h there so =
    and_then-Vouched e p next body (status p.orgs e.connected e.user id p.operations) _ code k a h
      (λ x c n b g. ground (arith, g)) there so
answer_to_approves e (cancel_request id) p next body code k a h there so =
    and_then-Vouched e p next body (cancel_operation p.orgs e.connected e.user id p.operations) _
      code k a h (λ x c n b g. ground (arith, g)) there so
answer_to_approves e (preview_request id) p next body code k a h there so =
    and_then-Vouched e p next body (preview p.orgs e.connected e.user id p.operations) _ code k a h
      (λ x c n b g. ground (arith, g)) there so
answer_to_approves e (progress_request id) p next body code k a h there so =
    and_then-Vouched e p next body (progress p.orgs e.connected e.user id p.operations) _ code k a h
      (λ x c n b g. ground (arith, g)) there so
answer_to_approves e (run_request id sql) p next body code k a h there so =
    and_then-Vouched e p next body
      (execute_request p.orgs e.connected e.user e.email id sql p.operations) _ code k a h
      (λ x c n b g. ground (arith, g)) there so
answer_to_approves e (query_request q) p next body code k a h there so =
    and_then-Vouched e p next body (query_audit e.parse_time p.orgs e.user q p.audit) _ code k a h
      (λ x c n b g. ground (arith, g)) there so
answer_to_approves e (export_request q) p next body code k a h there so =
    and_then-Vouched e p next body (export_audit e.parse_time p.orgs e.time_text e.user q p.audit) _
      code k a h (λ x c n b g. ground (arith, g)) there so
