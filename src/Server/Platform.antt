-- ===== src/Server/Platform.antt =====
-- internal/server: the requests about agents, operations and the audit log on the state of the
-- platform. The hub, the clock, the random source and the parser of times are parameters.
use database_flashback.Base.{ℕ, Bool, Option, none, List, [], ◌∷◌, ◌++◌, Bytes, text}
use database_flashback.Server.Shared.{Http, refused, replied, and_then}
use database_flashback.Server.Orgs.{OrgStore}
use database_flashback.Server.Agents.{
  AgentRecord, AgentStore, RegisterRequest, register_agent, list_agents, approve, reject, get_agent,
}
use database_flashback.Server.Audit.{AuditEntry, AuditQuery, query_audit, export_audit}
use database_flashback.Server.Operations.{
  StoredOperation, ParseSummary, ProgressInfo, OperationStore, StartRequest,
}
use database_flashback.Server.Requests.{
  start, status, cancel_operation, preview, progress, execute_request, list_operations,
}

pub record Platform : Type 0 where
  pub orgs : OrgStore
  pub agents : AgentStore
  pub operations : OperationStore
  pub audit : List AuditEntry

-- What a request finds besides the state: who asks, and the parameters.
pub record Surroundings : Type 0 where
  pub user : Bytes
  pub email : Bytes
  pub parse_time : Bytes → Option ℕ
  pub time_text : Option ℕ → Bytes
  pub connected : Bytes → Bool
  pub now : ℕ
  pub fresh : Bytes
  pub token : Bytes

-- The requests to the packages agent, pitr and audit; those to org are in `Server.Orgs`.
pub data Request : Type 0 where
  register_request : Option RegisterRequest → Request
  list_agents_request : Bytes → Request
  approve_request reject_request get_agent_request : Bytes → Request
  list_operations_request : Bytes → Bytes → Bytes → Request
  start_request : Option StartRequest → Request
  status_request cancel_request preview_request progress_request : Bytes → Request
  run_request : Bytes → Option (List Bytes) → Request
  query_request export_request : AuditQuery → Request

-- The results, before they are encoded.
pub data Body : Type 0 where
  agent_body : AgentRecord → Body
  agents_body : List AgentRecord → Body
  rejected_body : Body
  operation_body : StoredOperation → Body
  status_body : StoredOperation × Bool → Body
  preview_body : StoredOperation × ParseSummary → Body
  progress_body : StoredOperation × ProgressInfo → Body
  operations_body : List (StoredOperation × Bool) → Body
  entries_body : List AuditEntry → Body
  rows_body : List (List Bytes) → Body

abbrev with_agents :
    Platform → (AgentRecord → Body) → AgentStore × AgentRecord → Http (Platform × Body)
with_agents p body (s, a) = replied 200 (record p { agents = s }, body a)

abbrev with_operations : Platform → OperationStore × StoredOperation → Http (Platform × Body)
with_operations p (s, op) = replied 200 (record p { operations = s }, operation_body op)

abbrev unchanged {ℓ} : {A : Type ℓ} → Platform → (A → Body) → A → Http (Platform × Body)
unchanged p body a = replied 200 (p, body a)

-- The entry of `Cancel` in the audit log.
abbrev cancel_entry : Surroundings → StoredOperation → AuditEntry
cancel_entry e op = record {
  operation_id = op.id;
  operator = e.email;
  timestamp = e.now;
  org_id = op.org_id;
  agent_id = op.agent_id;
  target_table = op.target_table;
  recovery_time = none;
  rows_affected = 0;
  status = text "cancelled";
  error_details = [];
}

-- `Cancel` with its entry in the audit log.
abbrev with_cancelled :
    Surroundings → Platform → OperationStore × StoredOperation → Http (Platform × Body)
with_cancelled e p (s, op) =
    replied 200
      (record p { operations = s; audit = p.audit ++ cancel_entry e op ∷ [] }, operation_body op)

-- The answer to a request, with the state behind it; the statuses of success are all 200 here.
unfoldable pub answer_to : Surroundings → Request → Platform → Http (Platform × Body)
unfolding register_agent list_agents approve reject get_agent query_audit export_audit start status
    cancel_operation preview progress execute_request list_operations
answer_to e (register_request body) p =
    and_then (register_agent p.orgs e.fresh e.token e.user body p.agents) (with_agents p agent_body)
answer_to e (list_agents_request org) p =
    and_then (list_agents p.orgs e.user org p.agents) (unchanged p agents_body)
answer_to e (approve_request id) p =
    and_then (approve p.orgs e.fresh e.user id p.agents) (with_agents p agent_body)
answer_to e (reject_request id) p =
    and_then (reject p.orgs e.user id p.agents)
      (λ s. replied 200 (record p { agents = s }, rejected_body))
answer_to e (get_agent_request id) p =
    and_then (get_agent p.orgs e.user id p.agents) (unchanged p agent_body)
answer_to e (list_operations_request org from to) p =
    and_then (list_operations p.orgs e.connected e.parse_time e.user org from to p.operations)
      (unchanged p operations_body)
answer_to e (start_request body) p =
    and_then
      (start p.orgs e.connected e.parse_time p.agents.agents e.fresh e.now e.user e.email body
        p.operations)
      (with_operations p)
answer_to e (status_request id) p =
    and_then (status p.orgs e.connected e.user id p.operations) (unchanged p status_body)
answer_to e (cancel_request id) p =
    and_then (cancel_operation p.orgs e.connected e.user id p.operations) (with_cancelled e p)
answer_to e (preview_request id) p =
    and_then (preview p.orgs e.connected e.user id p.operations) (unchanged p preview_body)
answer_to e (progress_request id) p =
    and_then (progress p.orgs e.connected e.user id p.operations) (unchanged p progress_body)
answer_to e (run_request id body) p =
    and_then (execute_request p.orgs e.connected e.user e.email id body p.operations)
      (with_operations p)
answer_to e (query_request q) p =
    and_then (query_audit e.parse_time p.orgs e.user q p.audit) (unchanged p entries_body)
answer_to e (export_request q) p =
    and_then (export_audit e.parse_time p.orgs e.time_text e.user q p.audit) (unchanged p rows_body)

-- The state behind a request: one that is refused changes nothing.
abbrev pub behind : Platform → Http (Platform × Body) → Platform
behind p (refused status message) = p
behind p (replied status (next, body)) = next
