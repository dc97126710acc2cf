-- ===== src/Server/Checks.antt =====
-- internal/server: what an answered request shows of the checks behind which it stands.
use database_flashback.Base.{
  ℕ, ◌≡◌, ap, subst, Bool, true, Option, none, some, [], ◌∷◌, Bytes, text,
}
use database_flashback.Server.Shared.{replied}
use database_flashback.Server.Orgs.{OrgStore}
use database_flashback.Server.Guard.{
  check_user, check_named, check_found, is_member_of, is_admin_of, and_then-replied,
  check_member-replied,
}
use database_flashback.Server.Agents.{AgentRecord}
use database_flashback.Server.Operations.{StoredOperation, OperationStore}
use database_flashback.Server.Requests.{find_operation}
use database_flashback.Server.Platform.{
  Platform, Request, register_request, list_agents_request, approve_request, reject_request,
  get_agent_request, list_operations_request, start_request, status_request, cancel_request,
  preview_request, progress_request, run_request, query_request, export_request,
}

abbrev pub agent_org : Option AgentRecord → Option Bytes
agent_org none = none
agent_org (some a) = some a.org_id

abbrev pub operation_org : Option StoredOperation → Option Bytes
operation_org none = none
operation_org (some op) = some op.org_id

-- The organisation that a request is about: the one it names, or that of its agent or operation.
abbrev pub org_of : Request → Platform → Option Bytes
org_of (register_request none) p = none
org_of (register_request (some r)) p = some r.org_id
org_of (list_agents_request org) p = some org
org_of (approve_request id) p = agent_org (p.agents.agents id)
org_of (reject_request id) p = agent_org (p.agents.agents id)
org_of (get_agent_request id) p = agent_org (p.agents.agents id)
org_of (list_operations_request org from to) p = some org
org_of (start_request none) p = none
org_of (start_request (some r)) p = agent_org (p.agents.agents r.agent_id)
org_of (status_request id) p = operation_org (p.operations.ops id)
org_of (cancel_request id) p = operation_org (p.operations.ops id)
org_of (preview_request id) p = operation_org (p.operations.ops id)
org_of (progress_request id) p = operation_org (p.operations.ops id)
org_of (run_request id body) p = operation_org (p.operations.ops id)
org_of (query_request q) p = some q.org_id
org_of (export_request q) p = some q.org_id

-- Approval and rejection of agents are for admins, the rest for members.
abbrev pub is_permitted : Request → OrgStore → Bytes → Bytes → Bool
is_permitted (approve_request id) orgs org user = is_admin_of orgs org user
is_permitted (reject_request id) orgs org user = is_admin_of orgs org user
is_permitted r orgs org user = is_member_of orgs org user

pub check_user-replied : (user u : Bytes) (code : ℕ) → check_user user ≡ replied code u → u ≡ user
unfolding check_user
check_user-replied [] u code h = cc
check_user-replied (c ∷ user) u code h = cc

pub check_named-replied :
    (message name n : Bytes) (code : ℕ) → check_named message name ≡ replied code n → n ≡ name
unfolding check_named
check_named-replied message [] n code h = cc
check_named-replied message (c ∷ name) n code h = cc

pub check_found-replied {ℓ} :
    {A : Type ℓ} (message : Bytes) (found : Option A) (a : A) (code : ℕ)
    → check_found message found ≡ replied code a
    → found ≡ some a
unfolding check_found
check_found-replied message none a code h = cc
check_found-replied message (some b) a code h = cc

-- An operation is given to members of its organisation.
pub find_operation-replied :
    (orgs : OrgStore) (connected : Bytes → Bool) (user id : Bytes) (s : OperationStore)
    (op : StoredOperation) (code : ℕ)
    → find_operation orgs connected user id s ≡ replied code op
    → (org : Bytes) × (operation_org (s.ops id) ≡ some org) × (is_member_of orgs org user ≡ true)
unfolding find_operation
find_operation-replied orgs connected user id s op code h =
    let (_, u, as_user, h1) = and_then-replied (check_user user) _ code op h in
    let (_, i, as_id, h2) =
      and_then-replied (check_named (text "missing operation id") id) _ code op h1 in
    let (_, o, there, h3) =
      and_then-replied (check_found (text "operation not found") (s.ops i)) _ code op h2 in
    let mine =
      check_member-replied (text "not a member of this organisation") orgs o.org_id u o op code
        h3 in
    let same_id = check_named-replied (text "missing operation id") id i _ as_id in
    let found = check_found-replied (text "operation not found") (s.ops i) o _ there in
    (
      o.org_id,
      ap operation_org (subst (λ k. s.ops k ≡ some o) same_id found),
      subst (λ x. is_member_of orgs o.org_id x ≡ true) (check_user-replied user u _ as_user) mine,
    )
