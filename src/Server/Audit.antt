-- ===== src/Server/Audit.antt =====
-- internal/server/audit/store.go and handler.go. A time is a number of nanoseconds, `none` stands for
-- the zero time; the writer of CSV is the library's, and gets the rows.
use database_flashback.Base.{
  ℕ, Bool, false, ◌||◌, not, Option, none, some, List, [], ◌∷◌, ◌++◌, Bytes, text, decimal,
  eq_bytes, if◌then◌else◌, ltb,
}
use database_flashback.Server.Shared.{Http, refused, replied, and_then}
use database_flashback.Server.Orgs.{OrgStore}
use database_flashback.Server.Guard.{check_user, check_named, check_member}

pub record AuditEntry : Type 0 where
  pub operation_id : Bytes
  pub operator : Bytes
  pub timestamp : ℕ
  pub org_id : Bytes
  pub agent_id : Bytes
  pub target_table : Bytes
  pub recovery_time : Option ℕ
  pub rows_affected : ℕ
  pub status : Bytes
  pub error_details : Bytes

pub record AuditFilter : Type 0 where
  pub org_id : Bytes
  pub operation_id : Bytes
  pub from : Option ℕ
  pub to : Option ℕ
  pub status : Bytes
  pub agent_id : Bytes

abbrev is_before : ℕ → Option ℕ → Bool
is_before t none = false
is_before t (some from) = ltb t from

abbrev is_after : ℕ → Option ℕ → Bool
is_after t none = false
is_after t (some to) = ltb to t

-- Whether a field that may be empty asks for another value.
abbrev differs_from : Bytes → Bytes → Bool
differs_from [] field_value = false
differs_from (c ∷ wanted) field_value = not (eq_bytes field_value (c ∷ wanted))

unfoldable is_skipped : AuditFilter → AuditEntry → Bool
is_skipped f e =
    not (eq_bytes e.org_id f.org_id)
    || (is_before e.timestamp f.from
        || (is_after e.timestamp f.to
            || (differs_from f.status e.status
                || (differs_from f.agent_id e.agent_id
                    || differs_from f.operation_id e.operation_id))))

-- The loop of `Query`, and `Query` of the store.
unfoldable query_loop : AuditFilter → List AuditEntry → List AuditEntry → List AuditEntry
unfolding is_skipped
query_loop f [] result = result
query_loop f (e ∷ es) result =
    let skipped = query_loop f es result in
    let kept = query_loop f es (result ++ e ∷ []) in if is_skipped f e then skipped else kept

unfoldable query_entries : AuditFilter → List AuditEntry → Http (List AuditEntry)
unfolding query_loop check_named
query_entries f entries = elim f.org_id [
  | [] ↦ refused 500 (text "orgId filter is required")
  | c ∷ org ↦ replied 200 (query_loop f entries [])
]

-- The parameters of a request for entries.
pub record AuditQuery : Type 0 where
  pub org_id : Bytes
  pub from : Bytes
  pub to : Bytes
  pub status : Bytes
  pub agent_id : Bytes
  pub operation_id : Bytes

module _ (parse_time : Bytes → Option ℕ) where
  -- A time of `Query`, which has to be one, and of `Export`, which is ignored where it is none.
  abbrev strict_time : Bytes → Bytes → Http (Option ℕ)
  strict_time message [] = replied 200 none
  strict_time message (c ∷ s) = elim (parse_time (c ∷ s)) [
    | none ↦ refused 400 message
    | some t ↦ replied 200 (some t)
  ]

  abbrev lenient_time : Bytes → Option ℕ
  lenient_time [] = none
  lenient_time (c ∷ s) = parse_time (c ∷ s)

  abbrev filter_of : AuditQuery → Bytes → Option ℕ → Option ℕ → AuditFilter
  filter_of q org from to = record {
    org_id = org;
    operation_id = q.operation_id;
    from = from;
    to = to;
    status = q.status;
    agent_id = q.agent_id;
  }

  -- Who asks, and for which organisation.
  unfoldable pub check_audit : OrgStore → Bytes → Bytes → Http Bytes
  unfolding check_user check_named check_member
  check_audit orgs user org = and_then (check_user user) λ u.
      and_then (check_named (text "org_id query parameter is required") org)
        λ o. check_member (text "not a member of this organisation") orgs o u o

  -- `Query` and `List` of the handler.
  unfoldable pub query_audit :
      OrgStore → Bytes → AuditQuery → List AuditEntry → Http (List AuditEntry)
  unfolding check_audit query_entries
  query_audit orgs user q entries = and_then (check_audit orgs user q.org_id) λ org.
      and_then (strict_time (text "invalid from timestamp, use ISO8601/RFC3339") q.from) λ from.
        and_then (strict_time (text "invalid to timestamp, use ISO8601/RFC3339") q.to)
          λ to. query_entries (filter_of q org from to) entries

  abbrev export_header : List Bytes
  export_header =
      text "operationId"
      ∷ text "operator"
      ∷ text "timestamp"
      ∷ text "orgId"
      ∷ text "agentId"
      ∷ text "targetTable"
      ∷ text "recoveryTime"
      ∷ text "rowsAffected"
      ∷ text "status"
      ∷ text "errorDetails"
      ∷ []

  unfoldable export_rows : (Option ℕ → Bytes) → List AuditEntry → List (List Bytes)
  export_rows time_text [] = []
  export_rows time_text (e ∷ es) =
      (e.operation_id
        ∷ e.operator
        ∷ time_text (some e.timestamp)
        ∷ e.org_id
        ∷ e.agent_id
        ∷ e.target_table
        ∷ time_text e.recovery_time
        ∷ decimal e.rows_affected
        ∷ e.status
        ∷ e.error_details
        ∷ [])
      ∷ export_rows time_text es

  -- `Export`.
  unfoldable pub export_audit :
      OrgStore
      → (Option ℕ → Bytes)
      → Bytes
      → AuditQuery
      → List AuditEntry
      → Http (List (List Bytes))
  unfolding check_audit query_entries export_rows
  export_audit orgs time_text user q entries = and_then (check_audit orgs user q.org_id) λ org.
      and_then (query_entries (filter_of q org (lenient_time q.from) (lenient_time q.to)) entries)
        λ found. replied 200 (export_header ∷ export_rows time_text found)
