-- ===== src/Server/Access.antt =====
-- internal/server: who is answered, of the requests about agents, operations and the audit log.
use database_flashback.Base.{ℕ, ◌≡◌, true, some, Bytes, text}
use database_flashback.Server.Shared.{replied}
use database_flashback.Server.Guard.{
  is_member_of, is_admin_of, and_then-replied, check_member-replied,
}
use database_flashback.Server.Agents.{register_agent, list_agents, approve, reject, get_agent}
use database_flashback.Server.Audit.{query_audit, export_audit}
use database_flashback.Server.Requests.{
  start, status, cancel_operation, preview, progress, execute_request, list_operations,
}
use database_flashback.Server.Platform.{
  Platform, Surroundings, Request, register_request, list_agents_request, approve_request,
  reject_request, get_agent_request, list_operations_request, start_request, status_request,
  cancel_request, preview_request, progress_request, run_request, query_request, export_request,
  Body, answer_to,
}
use database_flashback.Server.Checks.{org_of, is_permitted}
use database_flashback.Server.Answered.{
  operation_answered, agent_answered, admin_answered, named_answered, register_answered,
  start_answered, execute_answered, audit_answered,
}

-- A request about agents, recovery operations or the audit log is answered only to a user who is a
-- member of the organisation that it is about: the one that it names, or the one that its agent or
-- its operation belongs to. Approval and rejection of an agent are answered only to an admin of it.
-- Requests of the organisations' own handlers are not among these: an invitation is accepted by one
-- who is no member yet.
pub answer_to-is_permitted :
    (e : Surroundings) (r : Request) (p : Platform) (code : ℕ) (out : Platform × Body)
    → answer_to e r p ≡ replied code out
    → (org : Bytes) × (org_of r p ≡ some org) × (is_permitted r p.orgs org e.user ≡ true)
unfolding answer_to list_agents approve reject get_agent query_audit export_audit status
    cancel_operation preview progress list_operations
answer_to-is_permitted e (register_request body) p code out h =
    let (_, a, h1, _) =
      and_then-replied (register_agent p.orgs e.fresh e.token e.user body p.agents) _ code out h in
    register_answered p.orgs e.fresh e.token e.user body p.agents _ a p h1
answer_to-is_permitted e (list_agents_request org) p code out h =
    let (_, a, h1, _) = and_then-replied (list_agents p.orgs e.user org p.agents) _ code out h in
    named_answered (text "orgId query parameter is required")
      (text "not a member of this organisation") p.orgs e.user org _ _ a h1
answer_to-is_permitted e (approve_request id) p code out h =
    let (_, a, h1, _) = and_then-replied (approve p.orgs e.fresh e.user id p.agents) _ code out h in
    agent_answered is_admin_of p.orgs e.user id p.agents _ _ a h1 λ u b h2.
      admin_answered (text "only organisation admins can approve agents") p.orgs b.org_id u b _ _ a
        h2
answer_to-is_permitted e (reject_request id) p code out h =
    let (_, a, h1, _) = and_then-replied (reject p.orgs e.user id p.agents) _ code out h in
    agent_answered is_admin_of p.orgs e.user id p.agents _ _ a h1 λ u b h2.
      admin_answered (text "only organisation admins can reject agents") p.orgs b.org_id u b _ _ a
        h2
answer_to-is_permitted e (get_agent_request id) p code out h =
    let (_, a, h1, _) = and_then-replied (get_agent p.orgs e.user id p.agents) _ code out h in
    agent_answered is_member_of p.orgs e.user id p.agents _ _ a h1 λ u b h2.
      check_member-replied (text "not a member of the agent's organisation") p.orgs b.org_id u b a _
        h2
answer_to-is_permitted e (list_operations_request org from to) p code out h =
    let (_, a, h1, _) =
      and_then-replied
        (list_operations p.orgs e.connected e.parse_time e.user org from to p.operations) _ code out
        h in
    named_answered (text "org_id query parameter is required")
      (text "not a member of this organisation") p.orgs e.user org _ _ a h1
answer_to-is_permitted e (start_request body) p code out h =
    let (_, a, h1, _) =
      and_then-replied
        (start p.orgs e.connected e.parse_time p.agents.agents e.fresh e.now e.user e.email body
          p.operations)
        _ code out h in
    start_answered e p body _ a h1
answer_to-is_permitted e (status_request id) p code out h =
    let (_, a, h1, _) =
      and_then-replied (status p.orgs e.connected e.user id p.operations) _ code out h in
    operation_answered p.orgs e.connected e.user id p.operations _ _ a h1
answer_to-is_permitted e (cancel_request id) p code out h =
    let (_, a, h1, _) =
      and_then-replied (cancel_operation p.orgs e.connected e.user id p.operations) _ code out h in
    operation_answered p.orgs e.connected e.user id p.operations _ _ a h1
answer_to-is_permitted e (preview_request id) p code out h =
    let (_, a, h1, _) =
      and_then-replied (preview p.orgs e.connected e.user id p.operations) _ code out h in
    operation_answered p.orgs e.connected e.user id p.operations _ _ a h1
answer_to-is_permitted e (progress_request id) p code out h =
    let (_, a, h1, _) =
      and_then-replied (progress p.orgs e.connected e.user id p.operations) _ code out h in
    operation_answered p.orgs e.connected e.user id p.operations _ _ a h1
answer_to-is_permitted e (run_request id body) p code out h =
    let (_, a, h1, _) =
      and_then-replied (execute_request p.orgs e.connected e.user e.email id body p.operations) _
        code out h in
    execute_answered e p id body _ a h1
answer_to-is_permitted e (query_request q) p code out h =
    let (_, a, h1, _) =
      and_then-replied (query_audit e.parse_time p.orgs e.user q p.audit) _ code out h in
    audit_answered e.parse_time p.orgs e.user q.org_id _ _ a h1
answer_to-is_permitted e (export_request q) p code out h =
    let (_, a, h1, _) =
      and_then-replied (export_audit e.parse_time p.orgs e.time_text e.user q p.audit) _ code out
        h in
    audit_answered e.parse_time p.orgs e.user q.org_id _ _ a h1
