-- ===== src/Server/Requests.antt =====
-- internal/server/pitr/handler.go: the handlers of the requests about recovery operations.
use database_flashback.Base.{
  ℕ, Bool, true, ◌&&◌, ◌||◌, not, Option, none, some, List, [], ◌∷◌, Bytes, text, eq_bytes,
  if◌then◌else◌, ltb,
}
use database_flashback.Pitr.State.{executing, previewed, cancelled, same_state, transition_valid}
use database_flashback.Server.Shared.{Http, refused, replied, and_then}
use database_flashback.Server.Orgs.{OrgStore}
use database_flashback.Server.Guard.{check_user, check_named, check_found, check_that, check_member}
use database_flashback.Server.Agents.{AgentRecord}
use database_flashback.Server.Operations.{
  ParseSummary, ProgressInfo, StoredOperation, OperationStore, put_operation, launch, StartRequest,
  is_empty, first_progress, check_operator, check_start, started, run_launched, execute_launched,
}

module _ (orgs : OrgStore) (connected : Bytes → Bool) where
  -- Membership, approval and connection of the agent that `Start` is for.
  unfoldable pub check_agent : Bytes → Option AgentRecord → Bytes → Http AgentRecord
  unfolding check_found check_member check_that
  check_agent user found id = and_then (check_found (text "agent not found") found) λ a.
      and_then (check_member (text "not a member of the agent's organisation") orgs a.org_id user a)
        λ own. and_then (check_that 409 (text "agent is not approved") own.approved own) λ approved.
          check_that 409 (text "agent is offline — start it with `mysql-pitr-agent serve` first")
            (connected id) approved

  -- `Start`.
  unfoldable pub start :
      (Bytes → Option ℕ)
      → (Bytes → Option AgentRecord)
      → Bytes
      → ℕ
      → Bytes
      → Bytes
      → Option StartRequest
      → OperationStore
      → Http (OperationStore × StoredOperation)
  unfolding check_operator check_start check_agent put_operation
  start parse_time agents id now user email body s = and_then (check_operator user email) λ u.
      elim body [
        | none ↦ refused 400 (text "invalid request body")
        | some r ↦ and_then (check_start parse_time r) λ (time, from).
            and_then (check_agent u (agents r.agent_id) r.agent_id) λ a.
              let op = started id now a.org_id r time from in
              replied 201 (launch (run_launched id email) (put_operation op s), op)
      ]

  -- The operation of a request, up to the check of membership: what `Status`, `Cancel`, `Preview`,
  -- `Progress` and `Execute` begin with.
  unfoldable pub find_operation : Bytes → Bytes → OperationStore → Http StoredOperation
  unfolding check_user check_named check_found check_member
  find_operation user id s = and_then (check_user user) λ u.
      and_then (check_named (text "missing operation id") id) λ i.
        and_then (check_found (text "operation not found") (s.ops i))
          λ op. check_member (text "not a member of this organisation") orgs op.org_id u op

  -- `Status`, with whether the agent is connected.
  unfoldable pub status : Bytes → Bytes → OperationStore → Http (StoredOperation × Bool)
  unfolding find_operation
  status user id s =
      and_then (find_operation user id s) λ op. replied 200 (op, connected op.agent_id)

  -- `Cancel`.
  unfoldable pub cancel_operation :
      Bytes → Bytes → OperationStore → Http (OperationStore × StoredOperation)
  unfolding find_operation check_that transition_valid put_operation
  cancel_operation user id s = and_then (find_operation user id s) λ op.
      and_then
        (check_that 409 (text "cannot cancel operation in this state")
          (transition_valid op.state cancelled) op)
        λ running.
          let stopped : StoredOperation = record running { state = cancelled } in
          replied 200 (put_operation stopped s, stopped)

  -- `Preview`.
  unfoldable pub preview : Bytes → Bytes → OperationStore → Http (StoredOperation × ParseSummary)
  unfolding find_operation
  preview user id s = and_then (find_operation user id s) λ op. elim op.parse_result [
    | none ↦ refused 412 (text "preview not available until parsing phase is complete")
    | some res ↦ replied 200 (op, res)
  ]

  -- `Progress`.
  unfoldable pub progress : Bytes → Bytes → OperationStore → Http (StoredOperation × ProgressInfo)
  unfolding find_operation
  progress user id s =
      and_then (find_operation user id s) λ op. replied 200 (op, first_progress op.progress)

  abbrev chosen : List Bytes → ParseSummary → List Bytes
  chosen [] res = res.sqls
  chosen (q ∷ qs) res = q ∷ qs

  abbrev check_sqls : List Bytes → Http (List Bytes)
  check_sqls [] = refused 400 (text "no SQL statements to execute")
  check_sqls (q ∷ qs) = replied 200 (q ∷ qs)

  -- `Execute`, with the statements of the body. The operation that it shows is in the state that the
  -- launched work will enter; the stored one is not changed.
  unfoldable pub execute_request :
      Bytes
      → Bytes
      → Bytes
      → Option (List Bytes)
      → OperationStore
      → Http (OperationStore × StoredOperation)
  unfolding check_operator find_operation check_that same_state
  execute_request user email id body s = and_then (check_operator user email) λ u.
      and_then (find_operation u id s) λ op.
        and_then
          (check_that 409 (text "cannot execute operation in this state (run the preview first)")
            (same_state op.state previewed) op)
          λ ready. elim ready.parse_result [
            | none ↦ refused 409 (text "operation has no parsed result")
            | some res ↦
                and_then
                  (check_that 409
                    (text "agent is offline — start it with `mysql-pitr-agent serve` first")
                    (connected ready.agent_id) ready)
                  λ online. elim body [
                    | none ↦ refused 400 (text "invalid request body")
                    | some sql ↦ and_then (check_sqls (chosen sql res)) λ sqls. replied 202 (
                      launch (execute_launched online.id email sqls) s,
                      record online { state = executing },
                    )
                  ]
          ]

  abbrev in_window : (Bytes → Option ℕ) → Bytes → Bytes → StoredOperation → Bool
  in_window parse_time from to op =
      (is_empty from || elim (parse_time from) [ none ↦ true | some t ↦ not (ltb op.created_at t) ])
      && (is_empty to || elim (parse_time to) [ none ↦ true | some t ↦ not (ltb t op.created_at) ])

  -- `ListByOrg` and the filter of `List`.
  unfoldable operations_of :
      (Bytes → Option ℕ)
      → Bytes
      → Bytes
      → Bytes
      → OperationStore
      → List Bytes
      → List (StoredOperation × Bool)
  operations_of parse_time org from to s [] = []
  operations_of parse_time org from to s (id ∷ ids) =
      let rest = operations_of parse_time org from to s ids in
      elim (s.ops id) [
        | none ↦ rest
        | some op ↦
            if eq_bytes op.org_id org && in_window parse_time from to op
            then (op, connected op.agent_id) ∷ rest
            else rest
      ]

  -- `List`.
  unfoldable pub list_operations :
      (Bytes → Option ℕ)
      → Bytes
      → Bytes
      → Bytes
      → Bytes
      → OperationStore
      → Http (List (StoredOperation × Bool))
  unfolding check_user check_named check_member operations_of
  list_operations parse_time user org from to s = and_then (check_user user) λ u.
      and_then (check_named (text "org_id query parameter is required") org) λ o.
        and_then (check_member (text "not a member of this organisation") orgs o u o)
          λ own. replied 200 (operations_of parse_time own from to s s.op_ids)
